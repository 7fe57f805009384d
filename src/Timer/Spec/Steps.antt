-- ===== src/Timer/Spec/Steps.antt =====
-- The calls of the API on a timer, as changes of the table of timers.
use pc.Base.{
  ℕ, ◌∙◌, ◌==◌, ◌||◌, ==_iff, ◌≡◌, refl, sym, ap, fun_ext, subst, Bool, true, false, Option, some,
  none, update, Bool-cases, inl, inr,
}
use pc.Base.Int.{ℤ, pos, ltb_ℤ}
use pc.Timer.Timespec.{Timespec, bad_nsec, zero_itimerspec}
use pc.Timer.Timespec.Clock.{ms2ts_eq, timespec_add_eq, zero-lasting}
use pc.Timer.State.{State, in_use, is_in_use, einval, set_timer}
use pc.Timer.Settime.{timer_settime}
use pc.Timer.Delete.{
  Outcome, returns, waits, delete_resume, delete_valid, delete_finish, timer_delete, must_wait,
}
use pc.Timer.Api.{os_timer_del, os_timer_start, os_timer_stop, os_timer_settime}
use pc.Timer.Api.{timer_oneshot}
use pc.Timer.Behaviour.Calls.{positive, millis-ok}
use pc.Timer.Invariant.{Inv}
use pc.Timer.Invariant.Locked.{inuse_cases}
use pc.Timer.Spec.{Timer, Table, table}
use pc.Timer.Spec.Change.{
  Event, started, stopped, changed, deleted, start_of, Change, stays, starts, stops, changes,
  deletes,
}
use pc.Timer.Spec.Calls.{
  entry, table-used, table-unused, table-timer_settime, table-timer_settime_unused,
  table-delete_finish, table-errno,
}

pub to : {ev : Event} {m : Table} {k n : Table} → k ≡ n → Change ev m k → Change ev m n
to {ev} {m} e c = subst (λ x. Change ev m x) e c

-- The start of a timer with a positive period has well-formed times.
start_of-ok :
    (n : Timer)
    → ltb_ℤ (pos 0) n.millisec ≡ true
    → (bad_nsec (start_of n).it_interval || bad_nsec (start_of n).it_value) ≡ false
start_of-ok n h =
    let (m, e) = positive n.millisec h in
    elim (Bool-cases (n.type == timer_oneshot)) [
      | inl b ↦ rw (b, e) (millis-ok m).0
      | inr b ↦ rw (b, e, (millis-ok m).0) refl
    ]

malformed-Quiet :
    (s : State) (t : ℕ)
    → (s.timer t).inuse ≡ in_use
    → (bad_nsec (start_of (entry s t)).it_interval || bad_nsec (start_of (entry s t)).it_value)
      ≡ true
    → (n : Timer) → table s t ≡ some n
    → ltb_ℤ (pos 0) n.millisec ≡ false
malformed-Quiet s t used bad n h =
    let both : some (entry s t) ≡ some n = sym (table-used s t used) ∙ h in
    let same : entry s t ≡ n = cc in
    subst (λ (x : Timer). ltb_ℤ (pos 0) x.millisec ≡ false) same
      (elim (Bool-cases (ltb_ℤ (pos 0) (s.timer t).millisec)) [
        | inr p ↦ p
        | inl p ↦ let z : true ≡ false = sym bad ∙ start_of-ok (entry s t) p in absurd (cc)
      ])

pub os_timer_start-Change :
    (s : State) (t : ℕ) (now : Timespec)
    → Inv s
    → Change (started t now) (table s) (table (os_timer_start s (some t) now).0)
unfolding os_timer_start
os_timer_start-Change s t now v = elim (inuse_cases s t v.counts) [
  | inr e ↦
      rw e (stays (λ n h. let z : none ≡ some n = sym (table-unused s t e) ∙ h in absurd (cc)))
  | inl e ↦
      rw (e, ms2ts_eq (s.timer t).millisec)
        (elim (Bool-cases (
          bad_nsec (start_of (entry s t)).it_interval
          || bad_nsec (start_of (entry s t)).it_value)) [
            | inl b ↦
                unfold timer_settime in
                rw b (to (sym (table-errno s einval)) (stays (malformed-Quiet s t e b)))
            | inr b ↦
                to
                  (sym (
                    table-timer_settime s t 0 (start_of (entry s t)) now v e b
                    ∙ rw (timespec_add_eq now (start_of (entry s t)).it_value) refl))
                  (starts t (entry s t) now (table-used s t e))
          ])
]

pub os_timer_stop-Change :
    (s : State) (t : ℕ) (now : Timespec)
    → Inv s
    → Change (stopped t) (table s) (table (os_timer_stop s (some t) now).0)
unfolding os_timer_stop
os_timer_stop-Change s t now v = elim (inuse_cases s t v.counts) [
  | inr e ↦
      to (sym (table-timer_settime_unused s t 0 zero_itimerspec now v e))
        (stays (table-unused s t e))
  | inl e ↦
      to (sym (table-timer_settime s t 0 zero_itimerspec now v e refl ∙ rw zero-lasting refl))
        (stops t (entry s t) (table-used s t e))
]

table-set_millisec :
    (s : State) (t u : ℕ) (millisec : ℤ)
    → (s.timer t).inuse ≡ in_use
    → table (set_timer s t (record (s.timer t) { millisec = millisec })) u
      ≡ update (table s) t (some (record (entry s t) { millisec = millisec })) u
unfolding table
table-set_millisec s t u millisec used = elim (Bool-cases (t == u)) [
  | inl e ↦ rw (e, used, sym ((==_iff t u).0 e)) refl
  | inr e ↦ rw e refl
]

pub os_timer_settime-Change :
    (s : State) (t : ℕ) (millisec : ℤ)
    → Inv s
    → Change (changed t millisec) (table s) (table (os_timer_settime s (some t) millisec).0)
unfolding os_timer_settime
os_timer_settime-Change s t millisec v = elim (Bool-cases (ltb_ℤ (pos 0) millisec)) [
  | inr b ↦ rw b (stays (λ z. let y : false ≡ true = sym b ∙ z in absurd (cc)))
  | inl b ↦ rw b (elim (inuse_cases s t v.counts) [
    | inr e ↦ rw e (stays (λ _. table-unused s t e))
    | inl e ↦ rw (ap is_in_use e) (
        to (sym (fun_ext λ u. table-set_millisec s t u millisec e))
          (changes t (entry s t) millisec (table-used s t e) b))
  ])
]

delete_finish-Change :
    (s : State) (t : ℕ)
    → Inv s
    → (s.timer t).inuse ≡ in_use
    → Change (deleted t) (table s) (table (delete_finish s t))
delete_finish-Change s t v used =
    to (sym (table-delete_finish s t v used)) (deletes t (entry s t) (table-used s t used))

-- What a call of `os_timer_del` does to the table up to its first wait or its end.
abbrev pub OutcomeChange : ℕ → Table → Outcome → Type 0
OutcomeChange t m (returns s done) = Change (deleted t) m (table s)
OutcomeChange t m (waits s k) = m ≡ table s

pub delete_resume-Change :
    (s : State) (self k t : ℕ)
    → Inv s
    → (s.timer t).inuse ≡ in_use
    → OutcomeChange t (table s) (delete_resume s self k t)
unfolding delete_resume
delete_resume-Change s self k t v used = elim (Bool-cases (must_wait s self k t)) [
  | inl e ↦ rw e refl
  | inr e ↦ rw e (delete_finish-Change s t v used)
]

pub os_timer_del-Change :
    (s : State) (self t : ℕ) → Inv s → OutcomeChange t (table s) (os_timer_del s self (some t))
unfolding os_timer_del timer_delete
os_timer_del-Change s self t v = elim (inuse_cases s t v.counts) [
  | inl e ↦ rw e (begun (s.timer t).armed (s.timer t).thread e)
  | inr e ↦ rw e (to (sym (table-errno s einval)) (stays (table-unused s t e)))
]
  where
    begun :
        (armed : Bool) (th : Option ℕ)
        → (s.timer t).inuse ≡ in_use
        → OutcomeChange t (table s) (delete_valid s self t armed th)
    begun true (some k) e = unfold delete_valid in delete_resume-Change s self k t v e
    begun true none e = unfold delete_valid in delete_finish-Change s t v e
    begun false th e = unfold delete_valid in delete_finish-Change s t v e
