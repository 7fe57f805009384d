-- ===== src/Timer/Spec/Sections.antt =====
-- The critical sections of osal/linux/os_timer.c in any order: `os_timer_add` and `os_timer_start` give the mutex
-- back between their parts, and other calls may come there.
use pc.Base.{ℕ, ◌<◌, ◌≡◌, Bool, true, false, Option, some}
use pc.Base.Int.{ℤ}
use pc.Timer.Timespec.{Timespec, Itimerspec}
use pc.Timer.State.{State, Os, in_use, monotonic, timer_max}
use pc.Timer.Pool.{timer_init_once, timer_valid}
use pc.Timer.Create.{timer_create}
use pc.Timer.Settime.{timer_settime}
use pc.Timer.Delete.{returns, delete_resume}
use pc.Timer.Service.{fires, thread_pass, expire_end}
use pc.Timer.Api.{os_timer_del, os_timer_settime, thread_event}
use pc.Timer.Invariant.{Inv}
use pc.Timer.Invariant.Servers.{Servers}
use pc.Timer.Invariant.Reach.{Reach, boot}
use pc.Timer.Spec.Adding.{typed}

-- What one thread does from taking the mutex to giving it back. `os_timer_add` is `__timer_create`, then the
-- note of the type and the period if the timer is still valid, then `__timer_settime`; `os_timer_start` reads the
-- timer, which changes nothing, then calls `__timer_settime`, with what it has read by then.
pub data Section : State → State → Type 0 where
  creates :
      {s : State} (os : Os) (prio : ℤ) (handler arg : ℕ)
      → Section s (timer_create os s monotonic (some (thread_event os prio handler arg))).0
  types :
      {s : State} (t flag : ℕ) (millisec : ℤ)
      → timer_valid s (some t) ≡ true
      → Section s (typed s t millisec flag)
  sets :
      {s : State} (t flags : ℕ) (value : Itimerspec) (now : Timespec)
      → t < timer_max
      → Section s (timer_settime s (some t) flags value now false).0
  changes_period :
      {s : State} (t : ℕ) (millisec : ℤ) → Section s (os_timer_settime s (some t) millisec).0
  deletes_timer :
      {s u : State} (self t : ℕ) (done : Bool)
      → t < timer_max
      → os_timer_del s self (some t) ≡ returns u done
      → Section s u
  resumes_deletion :
      {s u : State} (self k t : ℕ) (done : Bool)
      → t < timer_max
      → (s.timer t).inuse ≡ in_use
      → delete_resume s self k t ≡ returns u done
      → Section s u
  fires_timer :
      {s u : State} (k t : ℕ) (now : Timespec) (call : Option (ℕ × ℕ))
      → thread_pass s k now ≡ fires u t call
      → Section s u
  ends_handler : {s : State} (k : ℕ) → Section s (expire_end s k)

-- The states that sections lead to from the first call.
pub data Reached : State → Type 0 where
  begins : (os : Os) → Reached (timer_init_once os boot)
  goes_on : {s u : State} → Reached s → Section s u → Reached u

pub record Kept (s : State) : Type 0 where
  pub timers : Inv s
  pub servers : Servers s
