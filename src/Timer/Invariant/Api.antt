-- ===== src/Timer/Invariant/Api.antt =====
-- The calls of the API keep the invariant.
use pc.Base.{
  ℕ, ◌<◌, ◌≡◌, refl, arith, if◌then◌else◌, Bool, true, false, not, ◌||◌, Option, some, none,
  Bool-cases, inl, inr, ◌==◌,
}
use pc.Base.Int.{ℤ, pos, ltb_ℤ}
use pc.Timer.Timespec.{Timespec, zero_itimerspec}
use pc.Timer.State.{State, TimerNode, in_use, timer_max, set_timer, einval, Os, monotonic}
use pc.Timer.Create.{timer_create}
use pc.Timer.Delete.{Outcome, returns, waits, delete_resume, delete_valid, timer_delete}
use pc.Timer.Api.{
  add_next, has_flag, timer_oneshot, timer_interval, add_created, os_timer_add, os_timer_del,
  os_timer_start, os_timer_stop, os_timer_settime, first_value, start_value, thread_event,
}
use pc.Timer.Invariant.{Inv}
use pc.Timer.Invariant.Moves.{set_timer-Lists, set_timer-Counts}
use pc.Timer.Invariant.Locked.{timer_settime-Inv, delete_finish-Inv, inuse_cases, errno-Inv}
use pc.Timer.Invariant.Create.{timer_create-Inv, timer_create-bound}

pub os_timer_start-Inv :
    (s : State) (t : ℕ) (now : Timespec)
    → Inv s
    → t < timer_max
    → Inv (os_timer_start s (some t) now).0
unfolding os_timer_start
os_timer_start-Inv s t now v lt =
    ground (arith, v, timer_settime-Inv s t 0 (start_value (s.timer t)) now v lt)

pub os_timer_stop-Inv :
    (s : State) (t : ℕ) (now : Timespec)
    → Inv s
    → t < timer_max
    → Inv (os_timer_stop s (some t) now).0
unfolding os_timer_stop
os_timer_stop-Inv s t now v lt = timer_settime-Inv s t 0 zero_itimerspec now v lt

pub os_timer_settime-Inv :
    (s : State) (t : ℕ) (millisec : ℤ) → Inv s → Inv (os_timer_settime s (some t) millisec).0
unfolding os_timer_settime
os_timer_settime-Inv s t millisec v = ground (arith, v, set)
  where
    set : Inv (set_timer s t (record (s.timer t) { millisec = millisec }))
    set = record {
      lists = set_timer-Lists s t _ refl refl refl refl v.lists;
      counts = set_timer-Counts s t _ refl refl v.counts;
    }

-- What holds when a call of `os_timer_del` has returned, or waits.
abbrev pub OutcomeInv : Outcome → Type 0
OutcomeInv (returns s done) = Inv s
OutcomeInv (waits s k) = Inv s

pub delete_resume-Inv :
    (s : State) (self k t : ℕ)
    → Inv s
    → t < timer_max
    → (s.timer t).inuse ≡ in_use
    → OutcomeInv (delete_resume s self k t)
unfolding delete_resume
delete_resume-Inv s self k t v lt used = ground (arith, v, delete_finish-Inv s t v lt used)

-- The whole of a call of `os_timer_del`, up to its first wait or its end.
pub os_timer_del-Inv :
    (s : State) (self t : ℕ) → Inv s → t < timer_max → OutcomeInv (os_timer_del s self (some t))
unfolding os_timer_del timer_delete
os_timer_del-Inv s self t v lt = elim (inuse_cases s t v.counts) [
  | inl e ↦ rw e (begun (s.timer t).armed (s.timer t).thread e)
  | inr e ↦ rw e (errno-Inv s einval v)
]
  where
    begun :
        (armed : Bool) (th : Option ℕ)
        → (s.timer t).inuse ≡ in_use
        → OutcomeInv (delete_valid s self t armed th)
    begun true (some k) e = unfold delete_valid in delete_resume-Inv s self k t v lt e
    begun true none e = unfold delete_valid in delete_finish-Inv s t v lt e
    begun false th e = unfold delete_valid in delete_finish-Inv s t v lt e

-- The timer that `__timer_create` hands out is one of the array.
add_created-Inv :
    (s : State) (t : ℕ) (millisec : ℤ) (flag : ℕ) (now : Timespec)
    → Inv s
    → t < timer_max
    → Inv (add_created s t millisec flag now).0
unfolding add_created
add_created-Inv s t millisec flag now v lt =
    ground (arith, v, timer_settime-Inv s1 t flag (first_value millisec flag) now v1 lt)
  where
    n : TimerNode
    n = record (s.timer t) {
      type = if has_flag flag timer_oneshot then timer_oneshot else timer_interval;
      millisec = millisec;
    }

    s1 : State
    s1 = set_timer s t n

    v1 : Inv s1
    v1 = record {
      lists = set_timer-Lists s t n refl refl refl refl v.lists;
      counts = set_timer-Counts s t n refl refl v.counts;
    }

-- `os_timer_add`, on every path.
pub os_timer_add-Inv :
    (os : Os) (s : State) (prio millisec : ℤ) (flag handler arg : ℕ) (has_id : Bool)
    (now : Timespec)
    → Inv s
    → Inv (os_timer_add os s prio millisec flag handler arg has_id now).0
unfolding os_timer_add
os_timer_add-Inv os s prio millisec flag handler arg has_id now v =
    elim (Bool-cases (not (ltb_ℤ (pos 0) millisec) || (handler == 0 || not has_id))) [
      | inl e ↦ rw e v
      | inr e ↦ rw e (added created.1 refl)
    ]
  where
    created : State × Option ℕ
    created = timer_create os s monotonic (some (thread_event os prio handler arg))

    added : (r : Option ℕ) → created.1 ≡ r → Inv (add_next created.0 r millisec flag now).0
    added none e = unfold add_next in timer_create-Inv os s monotonic _ v
    added (some t) e =
        unfold add_next in
        add_created-Inv created.0 t millisec flag now (timer_create-Inv os s monotonic _ v)
          (timer_create-bound os s monotonic _ t v e)
