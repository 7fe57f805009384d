-- ===== src/Timer/Spec/Calls.antt =====
-- What the calls of osal/linux/os_timer.c do to the table of timers.
use pc.Base.{
  ◌∙◌, ℕ, ◌==◌, ◌||◌, ==_iff, ==_refl, ◌≡◌, refl, sym, fun_ext, subst, arith, if◌then◌else◌, Bool,
  true, false, Option, some, none, update, Bool-cases, inl, inr, mem-remove,
}
use pc.Base.Int.{ℤ, pos}
use pc.Timer.Timespec.{Timespec, Itimerspec, bad_nsec}
use pc.Timer.State.{
  State, TimerNode, Errno, einval, free, in_use, deleted, set_timer, set_errno, unlink_timer,
}
use pc.Timer.Pool.{timer_addref, timer_delref, timer_dealloc}
use pc.Timer.Settime.{arm, wake, timer_settime}
use pc.Timer.Delete.{delete_finish}
use pc.Timer.Invariant.{Inv}
use pc.Timer.Invariant.Locked.{delref_last, settime_locked-unused, addref-refcount}
use pc.Timer.Behaviour.{settled, timer_settime-used}
use pc.Timer.Spec.{Timer, pending_on, pending, table, set_by, timer_of}
use pc.Timer.Spec.Moves.{table-settled, time_of}

-- What the table says of a timer in use.
abbrev pub entry : State → ℕ → Timer
entry s t = timer_of (s.timer t) (if pending s t then some (s.timer t).expirytime else none)

pub table-used : (s : State) (t : ℕ) → (s.timer t).inuse ≡ in_use → table s t ≡ some (entry s t)
unfolding table
table-used s t used = rw used refl

pub table-unused : (s : State) (t : ℕ) → (s.timer t).inuse ≡ free → table s t ≡ none
unfolding table
table-unused s t unused = rw unused refl

table-wake : (s : State) (th : Option ℕ) (need : Bool) → table (wake s th need) ≡ table s
table-wake s none need = refl
table-wake s (some k) true = unfold table in refl
table-wake s (some k) false = refl

pub table-timer_settime :
    (s : State) (t flags : ℕ) (value : Itimerspec) (now : Timespec)
    → Inv s
    → (s.timer t).inuse ≡ in_use
    → (bad_nsec value.it_interval || bad_nsec value.it_value) ≡ false
    → table (timer_settime s (some t) flags value now false).0
      ≡ update (table s) t (some (set_by (entry s t) value (time_of flags value now)))
table-timer_settime s t flags value now v used ok =
    rw
      (
        timer_settime-used s t flags value now v used ok,
        table-wake (settled s t flags value now) (s.timer t).thread
            (arm (timer_addref s t) t flags value now).1,
      )
      (fun_ext λ u. table-settled s t u flags value now used)

pending-timer_dealloc :
    (s : State) (t u : ℕ) (to : Option ℕ)
    → pending_on (timer_dealloc s t) u to ≡ (if t == u then false else pending_on s u to)
unfolding timer_dealloc unlink_timer
pending-timer_dealloc s t u none = ground arith
pending-timer_dealloc s t u (some k) = mem-remove t u (s.thread k).timer_queue

-- A timer that is given back is no timer any more.
pub table-timer_dealloc :
    (s : State) (t u : ℕ) → table (timer_dealloc s t) u ≡ update (table s) t none u
unfolding table
table-timer_dealloc s t u = elim (Bool-cases (t == u)) [
  | inl e ↦ unfold timer_dealloc in rw e refl
  | inr e ↦
      rw (pending-timer_dealloc s t u ((timer_dealloc s t).timer u).thread)
        (unfold timer_dealloc in unfold unlink_timer in rw e refl)
]

-- The count of the references is not in the table.
pub table-refcount :
    (s : State) (t u : ℕ) (n : ℤ)
    → table (set_timer s t (record (s.timer t) { refcount = n })) u ≡ table s u
unfolding table
table-refcount s t u n = elim (Bool-cases (t == u)) [
  | inl e ↦ rw (e, sym ((==_iff t u).0 e)) refl
  | inr e ↦ rw e refl
]

-- The last reference to a timer is dropped.
pub table-dropped :
    (s : State) (t u : ℕ)
    → (s.timer t).refcount ≡ pos 1
    → table (timer_delref s t) u ≡ update (table s) t none u
table-dropped s t u one =
    rw
      (
        delref_last s t one,
        table-timer_dealloc (set_timer s t (record (s.timer t) { refcount = pos 0 })) t u,
        table-refcount s t u (pos 0),
      )
      refl

pub table-errno : (s : State) (e : Errno) → table (set_errno s e) ≡ table s
unfolding table
table-errno s e = refl

table-refused :
    (s : State) (t u : ℕ)
    → Inv s
    → (s.timer t).inuse ≡ free
    → table (timer_delref (set_errno (timer_addref s t) einval) t) u ≡ table s u
table-refused s t u v unused =
    rw
      (
        table-dropped (set_errno (timer_addref s t) einval) t u
            (addref-refcount s t 0 (v.counts.idle t unused)),
        table-errno (timer_addref s t) einval,
      )
      (elim (Bool-cases (t == u)) [
        | inl e ↦ rw e (
            sym
              (table-unused s u (subst (λ x. (s.timer x).inuse ≡ free) ((==_iff t u).0 e) unused)))
        | inr e ↦ rw e (unfold timer_addref in table-refcount s t u _)
      ])

pub table-timer_settime_unused :
    (s : State) (t flags : ℕ) (value : Itimerspec) (now : Timespec)
    → Inv s
    → (s.timer t).inuse ≡ free
    → table (timer_settime s (some t) flags value now false).0 ≡ table s
table-timer_settime_unused s t flags value now v unused =
    elim (Bool-cases (bad_nsec value.it_interval || bad_nsec value.it_value)) [
      | inl e ↦ unfold timer_settime in rw e (table-errno s einval)
      | inr e ↦
          unfold timer_settime in
          rw (e, settime_locked-unused s t flags value now false unused)
            (fun_ext λ u. table-refused s t u v unused)
    ]

pub table-set_timer_other :
    (s : State) (t u : ℕ) (n : TimerNode) → (t == u) ≡ false → table (set_timer s t n) u ≡ table s u
unfolding table
table-set_timer_other s t u n ne = rw ne refl

pub pending-unlink_timer :
    (s : State) (t u : ℕ) (to : Option ℕ)
    → pending_on (unlink_timer s t) u to ≡ (if t == u then false else pending_on s u to)
unfolding unlink_timer
pending-unlink_timer s t u none = ground arith
pending-unlink_timer s t u (some k) = mem-remove t u (s.thread k).timer_queue

pub table-unlink_timer_other :
    (s : State) (t u : ℕ) → (t == u) ≡ false → table (unlink_timer s t) u ≡ table s u
unfolding table unlink_timer
table-unlink_timer_other s t u ne = rw (pending-unlink_timer s t u (s.timer u).thread, ne) refl

pub table-delete_finish :
    (s : State) (t : ℕ)
    → Inv s
    → (s.timer t).inuse ≡ in_use
    → table (delete_finish s t) ≡ update (table s) t none
unfolding delete_finish
table-delete_finish s t v used = fun_ext λ u.
    table-dropped (unlink_timer (set_timer s t (record (s.timer t) { inuse = deleted })) t) t u
      (unfold unlink_timer in rw (==_refl t) (v.counts.held t used))
    ∙ elim (Bool-cases (t == u)) [
      | inl e ↦ rw e refl
      | inr e ↦ rw (e) (table-unlink_timer_other _ t u e ∙ table-set_timer_other s t u _ e)
    ]
