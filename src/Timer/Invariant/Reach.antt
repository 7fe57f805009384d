-- ===== src/Timer/Invariant/Reach.antt =====
-- The timer module from its first call on: the calls of the API, and the steps of the serving threads, in
-- any order. A call that waits lets others go first.
use pc.Base.{
  Bool-cases, inl, inr, ℕ, ◌<◌, ◌≡◌, refl, arith, Bool, false, Option, some, none, [], mem-count_up,
  count_up-Distinct, ◌==◌,
}
use pc.Base.Int.{ℤ, pos}
use pc.Timer.Timespec.{Timespec, zero_timespec, zero_itimerspec}
use pc.Timer.State.{
  State, TimerNode, ThreadNode, by_signal, null, free, in_use, no_error, realtime, timer_max,
  signal_thread, Os,
}
use pc.Timer.Pool.{timer_init_once}
use pc.Timer.Delete.{returns, delete_resume}
use pc.Timer.Service.{fires, thread_pass, expire_end}
use pc.Timer.Api.{os_timer_add, os_timer_del, os_timer_start, os_timer_stop, os_timer_settime}
use pc.Timer.Invariant.{Inv}
use pc.Timer.Invariant.Service.{thread_pass-Inv, expire_end-Inv}
use pc.Timer.Invariant.Api.{
  os_timer_add-Inv, os_timer_del-Inv, delete_resume-Inv, os_timer_start-Inv, os_timer_stop-Inv,
  os_timer_settime-Inv,
}

-- The globals before the first call: all bytes zero.
abbrev pub zero_timer : TimerNode
zero_timer = record {
  event = record { notify = by_signal; function = 0; sival_ptr = 0; attributes = null };
  clock = realtime;
  type = 0;
  millisec = pos 0;
  value = zero_itimerspec;
  expirytime = zero_timespec;
  attr = record { policy = 0; priority = pos 0 };
  abstime = false;
  armed = false;
  inuse = free;
  thread = none;
  creator_pid = 0;
  refcount = pos 0;
  overrun_count = 0;
}

abbrev pub zero_thread : ThreadNode
zero_thread = record {
  attr = record { policy = 0; priority = pos 0 };
  id = 0;
  exists = false;
  timer_queue = [];
  current_timer = none;
  captured = 0;
  clock_id = realtime;
}

abbrev pub boot : State
boot = record {
  timer = λ _. zero_timer;
  thread = λ _. zero_thread;
  timer_free_list = [];
  thread_free_list = [];
  thread_active_list = [];
  once = false;
  init_failed = false;
  errno = no_error;
  broadcasts = [];
  fault = false;
}

-- One call, or one step of a serving thread, under the mutex. `resumes` is an `os_timer_del` that goes on
-- after a wait; that no other call has deleted the timer meanwhile is up to the callers. Each call has its own
-- answers of the system, or its own calling thread. `os_timer_add` and `os_timer_start`, which give the mutex
-- back between their parts, are one step each.
pub data Step : State → State → Type 0 where
  adds :
      {s : State} (os : Os) (prio millisec : ℤ) (flag handler arg : ℕ) (has_id : Bool)
      (now : Timespec)
      → Step s (os_timer_add os s prio millisec flag handler arg has_id now).0
  starts :
      {s : State} (t : ℕ) (now : Timespec)
      → t < timer_max
      → Step s (os_timer_start s (some t) now).0
  stops :
      {s : State} (t : ℕ) (now : Timespec) → t < timer_max → Step s (os_timer_stop s (some t) now).0
  changes : {s : State} (t : ℕ) (millisec : ℤ) → Step s (os_timer_settime s (some t) millisec).0
  deletes :
      {s u : State} (self t : ℕ) (done : Bool)
      → t < timer_max
      → os_timer_del s self (some t) ≡ returns u done
      → Step s u
  resumes :
      {s u : State} (self k t : ℕ) (done : Bool)
      → t < timer_max
      → (s.timer t).inuse ≡ in_use
      → delete_resume s self k t ≡ returns u done
      → Step s u
  serves :
      {s u : State} (k t : ℕ) (now : Timespec) (call : Option (ℕ × ℕ))
      → thread_pass s k now ≡ fires u t call
      → Step s u
  ends : {s : State} (k : ℕ) → Step s (expire_end s k)

pub data Reach : State → Type 0 where
  start : (os : Os) → Reach (timer_init_once os boot)
  next : {s u : State} → Reach s → Step s u → Reach u

pub Step-Inv : {s u : State} → Step s u → Inv s → Inv u
Step-Inv (adds os prio millisec flag handler arg has_id now) v =
    os_timer_add-Inv os _ prio millisec flag handler arg has_id now v
Step-Inv (starts t now lt) v = os_timer_start-Inv _ t now v lt
Step-Inv (stops t now lt) v = os_timer_stop-Inv _ t now v lt
Step-Inv (changes t millisec) v = os_timer_settime-Inv _ t millisec v
Step-Inv {s} {u} (deletes self t done lt e) v = rw e at (os_timer_del-Inv s self t v lt)
Step-Inv {s} {u} (resumes self k t done lt used e) v =
    rw e at (delete_resume-Inv s self k t v lt used)
Step-Inv {s} {u} (serves k t now call e) v = rw e at (thread_pass-Inv s k now v)
Step-Inv (ends k) v = expire_end-Inv _ k v

-- The first call makes all the timers free.
pub init_once-Inv : (os : Os) → Inv (timer_init_once os boot)
unfolding timer_init_once
init_once-Inv os = record {
  lists = record {
    ready = refl;
    distinct = count_up-Distinct timer_max 0;
    free_unused = λ t m. refl;
    in_range = λ t m. ground (arith, mem-count_up timer_max 0 t);
    none_lost = λ t lt e. ground (arith, mem-count_up timer_max 0 t);
    queue_used = λ k t m. ground arith;
    queue_armed = λ k t m. ground arith;
    queue_owner = λ k t m. ground arith;
    sorted = λ k. elim (Bool-cases (signal_thread == k)) [ inl e ↦ rw e tt | inr e ↦ rw e tt ];
  };
  counts = record { held = λ t e. cc; idle = λ t e. refl; settled = λ t e. cc };
}

-- In every state that the timer module reaches from its first call by calls of the API and steps of the
-- serving threads, in any order, the invariant holds: every timer that is free is on the free list,
-- once, and has no reference; every timer in use has exactly one; none is left half deleted; and the
-- queues hold armed timers in use only, of their own thread, in the order of their expiry times. The
-- calls name one of the 256 timers, and a deletion that goes on after a wait finds its timer still in
-- use.
pub Reach-Inv : {s : State} → Reach s → Inv s
Reach-Inv (start os) = init_once-Inv os
Reach-Inv (next r st) = Step-Inv st (Reach-Inv r)
