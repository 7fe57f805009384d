-- ===== src/Timer/Invariant/Framed/Calls.antt =====
-- The calls and steps that leave the lists of threads alone, and the threads of the timers in use.
use pc.Base.{
  ℕ, ◌||◌, refl, arith, Bool, true, false, Option, some, none, List, [], ◌∷◌, Bool-cases, inl, inr,
}
use pc.Base.Int.{ℤ}
use pc.Timer.Timespec.{Timespec, Itimerspec, is_set, is_before, bad_nsec, zero_itimerspec}
use pc.Timer.State.{State, deleted, einval, unlink_timer, is_in_use}
use pc.Timer.Pool.{timer_addref}
use pc.Timer.Settime.{
  enqueue, enqueue_armed, disarm, set_expiry, arm, settime_locked, timer_settime,
}
use pc.Timer.Delete.{
  Outcome, returns, waits, delete_finish, delete_resume, delete_valid, timer_delete, must_wait,
}
use pc.Timer.Service.{
  Pass, sleeps, sleeps_until, fires, diverges, expire_begin, requeue, expire, pass_on, thread_pass,
  expire_end,
}
use pc.Timer.Api.{os_timer_del, os_timer_start, os_timer_stop, os_timer_settime, start_value}
use pc.Timer.Invariant.Framed.{
  Framed, Framed-refl, Framed-trans, set_timer-Framed, set_thread-Framed, unlink_timer-Framed,
  errno-Framed, queue_timer-Framed, wake-Framed, timer_addref-Framed, timer_delref-Framed,
}

enqueue-Framed : (s : State) (t : ℕ) (th : Option ℕ) → Framed s (enqueue s t th).0
unfolding enqueue
enqueue-Framed s t none = Framed-refl s
enqueue-Framed s t (some k) = queue_timer-Framed s k t

enqueue_armed-Framed : (s : State) (t : ℕ) → Framed s (enqueue_armed s t).0
unfolding enqueue_armed
enqueue_armed-Framed s t =
    Framed-trans (enqueue-Framed s t (s.timer t).thread) (set_timer-Framed _ t _ (λ e. (e, refl)))

disarm-Framed : (s : State) (t : ℕ) (value : Itimerspec) → Framed s (disarm s t value)
unfolding disarm
disarm-Framed s t value =
    Framed-trans (set_timer-Framed s t (record (s.timer t) { value = value }) (λ e. (e, refl)))
      (Framed-trans (unlink_timer-Framed _ t) (set_timer-Framed _ t _ (λ e. (e, refl))))

arm-Framed :
    (s : State) (t flags : ℕ) (value : Itimerspec) (now : Timespec)
    → Framed s (arm s t flags value now).0
unfolding arm
arm-Framed s t flags value now = elim (Bool-cases (is_set value.it_value)) [
  | inl e ↦ rw e (
      Framed-trans disarmed (
        Framed-trans (unfold set_expiry in set_timer-Framed _ t _ (λ e. (e, refl)))
          (enqueue_armed-Framed _ t)))
  | inr e ↦ rw e disarmed
]
  where
    disarmed : Framed s (disarm s t value)
    disarmed = disarm-Framed s t value

settime_locked-Framed :
    (s : State) (t flags : ℕ) (value : Itimerspec) (now : Timespec)
    → Framed s (settime_locked s t flags value now false).0
unfolding settime_locked
settime_locked-Framed s t flags value now = elim (Bool-cases (is_in_use (s1.timer t).inuse)) [
  | inl e ↦ rw e (
      Framed-trans added (
        Framed-trans (arm-Framed s1 t flags value now)
          (Framed-trans (timer_delref-Framed _ t) (wake-Framed _ _ _))))
  | inr e ↦
      rw e (Framed-trans added (Framed-trans (errno-Framed s1 einval) (timer_delref-Framed _ t)))
]
  where
    s1 : State
    s1 = timer_addref s t

    added : Framed s s1
    added = timer_addref-Framed s t

pub timer_settime-Framed :
    (s : State) (t flags : ℕ) (value : Itimerspec) (now : Timespec)
    → Framed s (timer_settime s (some t) flags value now false).0
unfolding timer_settime
timer_settime-Framed s t flags value now =
    elim (Bool-cases (bad_nsec value.it_interval || bad_nsec value.it_value)) [
      | inl e ↦ rw e (errno-Framed s einval)
      | inr e ↦ rw e (settime_locked-Framed s t flags value now)
    ]

pub os_timer_start-Framed :
    (s : State) (t : ℕ) (now : Timespec) → Framed s (os_timer_start s (some t) now).0
unfolding os_timer_start
os_timer_start-Framed s t now = elim (Bool-cases (is_in_use (s.timer t).inuse)) [
  | inl e ↦ rw e (timer_settime-Framed s t 0 (start_value (s.timer t)) now)
  | inr e ↦ rw e (Framed-refl s)
]

pub os_timer_stop-Framed :
    (s : State) (t : ℕ) (now : Timespec) → Framed s (os_timer_stop s (some t) now).0
unfolding os_timer_stop
os_timer_stop-Framed s t now = timer_settime-Framed s t 0 zero_itimerspec now

pub os_timer_settime-Framed :
    (s : State) (t : ℕ) (millisec : ℤ) → Framed s (os_timer_settime s (some t) millisec).0
unfolding os_timer_settime
os_timer_settime-Framed s t millisec = ground (
  arith,
  Framed-refl s,
  set_timer-Framed s t (record (s.timer t) { millisec = millisec }) (λ e. (e, refl)),
)

delete_finish-Framed : (s : State) (t : ℕ) → Framed s (delete_finish s t)
unfolding delete_finish
delete_finish-Framed s t =
    Framed-trans (set_timer-Framed s t (record (s.timer t) { inuse = deleted }) (λ e. cc))
      (Framed-trans (unlink_timer-Framed _ t) (timer_delref-Framed _ t))

-- What a call of `os_timer_del` keeps up to its first wait or its end.
abbrev pub OutcomeFramed : State → Outcome → Type 0
OutcomeFramed s (returns u done) = Framed s u
OutcomeFramed s (waits u k) = Framed s u

pub delete_resume-Framed : (s : State) (self k t : ℕ) → OutcomeFramed s (delete_resume s self k t)
unfolding delete_resume
delete_resume-Framed s self k t = elim (Bool-cases (must_wait s self k t)) [
  | inl e ↦ rw e (Framed-refl s)
  | inr e ↦ rw e (delete_finish-Framed s t)
]

pub os_timer_del-Framed : (s : State) (self t : ℕ) → OutcomeFramed s (os_timer_del s self (some t))
unfolding os_timer_del timer_delete
os_timer_del-Framed s self t = elim (Bool-cases (is_in_use (s.timer t).inuse)) [
  | inl e ↦ rw e (begun (s.timer t).armed (s.timer t).thread)
  | inr e ↦ rw e (errno-Framed s einval)
]
  where
    begun : (armed : Bool) (th : Option ℕ) → OutcomeFramed s (delete_valid s self t armed th)
    begun true (some k) = unfold delete_valid in delete_resume-Framed s self k t
    begun true none = unfold delete_valid in delete_finish-Framed s t
    begun false th = unfold delete_valid in delete_finish-Framed s t

-- What a round keeps when it lets a handler run.
abbrev pub PassFramed : State → Pass → Type 0
PassFramed s sleeps = Unit {0}
PassFramed s (sleeps_until t) = Unit {0}
PassFramed s (fires u t call) = Framed s u
PassFramed s diverges = Unit {0}

begin-Framed : (s u : State) (k t : ℕ) → Framed s u → PassFramed s (expire_begin u k t)
begin-Framed s u k t f = Framed-trans f (set_thread-Framed u k _ refl)

requeue-Framed :
    (s u : State) (k t : ℕ) (next : Option (Timespec × ℕ))
    → Framed s u
    → PassFramed s (requeue u k t next)
unfolding requeue
requeue-Framed s u k t none f = tt
requeue-Framed s u k t (some (at, overrun)) f = begin-Framed s _ k t (
    Framed-trans f
      (Framed-trans (set_timer-Framed u t _ (λ e. (e, refl))) (queue_timer-Framed _ k t)))

pass_on-Framed :
    (s : State) (k : ℕ) (now : Timespec) (queue : List ℕ) → PassFramed s (pass_on s k now queue)
unfolding pass_on expire
pass_on-Framed s k now [] = tt
pass_on-Framed s k now (t ∷ rest) = elim (Bool-cases (is_before now (s.timer t).expirytime)) [
  | inl e ↦ rw e tt
  | inr e ↦ rw e (elim (Bool-cases (is_set ((unlink_timer s t).timer t).value.it_interval)) [
    | inl b ↦ rw b (requeue-Framed s (unlink_timer s t) k t _ (unlink_timer-Framed s t))
    | inr b ↦ rw b (begin-Framed s (unlink_timer s t) k t (unlink_timer-Framed s t))
  ])
]

pub thread_pass-Framed : (s : State) (k : ℕ) (now : Timespec) → PassFramed s (thread_pass s k now)
unfolding thread_pass
thread_pass-Framed s k now = pass_on-Framed s k now (s.thread k).timer_queue

pub expire_end-Framed : (s : State) (k : ℕ) → Framed s (expire_end s k)
unfolding expire_end
expire_end-Framed s k =
    Framed-trans (set_thread-Framed s k (record (s.thread k) { current_timer = none }) refl)
      (wake-Framed _ (some k) true)
