-- ===== src/Timer/Spec/Adding.antt =====
-- `os_timer_add`, and all the steps of the timer module, as changes of the table of timers.
use pc.Base.{
  ◌∙◌, ℕ, suc, ◌==◌, ◌||◌, ==_refl, ◌≡◌, refl, sym, ap, fun_ext, arith, if◌then◌else◌, Bool, true,
  false, not, Option, some, none, update, Bool-cases, inl, inr,
}
use pc.Base.Int.{ℤ, pos, ltb_ℤ}
use pc.Timer.Timespec.{Timespec, zero_timespec, ms2ts, bad_nsec, Itimerspec}
use pc.Timer.Timespec.Clock.{ms2ts_eq, timespec_add_eq, is_set_eq, lasting, zero-lasting}
use pc.Timer.State.{State, Os, is_in_use, monotonic, set_timer}
use pc.Timer.Create.{timer_create}
use pc.Timer.Settime.{timer_settime}
use pc.Timer.Api.{
  has_flag, timer_oneshot, timer_interval, timer_stopped, first_value, add_created, add_next,
  os_timer_add, thread_event,
}
use pc.Timer.Behaviour.{timer_settime-used}
use pc.Timer.Behaviour.Calls.{ms2ts-ok, positive}
use pc.Timer.Invariant.{Inv}
use pc.Timer.Invariant.Moves.{set_timer-Lists, set_timer-Counts}
use pc.Timer.Invariant.Create.{timer_create-Inv}
use pc.Timer.Invariant.Framed.{Framed-trans, set_timer-Framed}
use pc.Timer.Invariant.Framed.Calls.{timer_settime-Framed}
use pc.Timer.Invariant.Servers.{Servers, Framed-Servers}
use pc.Timer.Spec.{table, set_by}
use pc.Timer.Spec.Moves.{time_of}
use pc.Timer.Spec.Change.{added, Change, stays, adds, new_timer}
use pc.Timer.Spec.Calls.{entry, table-timer_settime, table-set_timer_other}
use pc.Timer.Spec.Steps.{to}
use pc.Timer.Spec.Making.{Made}
use pc.Timer.Spec.Granting.{Result, made, undone}
use pc.Timer.Spec.Creating.{kept_event, timer_create-Result}

first_value-ok :
    (millisec : ℤ) (flag : ℕ)
    → ltb_ℤ (pos 0) millisec ≡ true
    → (bad_nsec (first_value millisec flag).it_interval
        || bad_nsec (first_value millisec flag).it_value)
      ≡ false
first_value-ok millisec flag h =
    let (m, e) = positive millisec h in
    rw e (cases (has_flag flag timer_stopped) (has_flag flag timer_oneshot) m)
  where
    cases :
        (stopped oneshot : Bool) (m : ℕ)
        → let value = if stopped then zero_timespec else ms2ts (pos (suc m)) in
          (bad_nsec (if oneshot then zero_timespec else value) || bad_nsec value) ≡ false
    cases true true m = refl
    cases true false m = refl
    cases false true m = rw ((ms2ts-ok m).0) refl
    cases false false m = rw ((ms2ts-ok m).0) refl

-- A call keeps the servers' lists in order, and changes the table so.
pub record Kept (flag : ℕ) (millisec : ℤ) (now : Timespec) (s : State) (r : State × Option ℕ)
    : Type 0 where
  pub servers : Servers r.0
  pub change : Change (added flag millisec now r.1) (table s) (table r.0)

-- The node of the new timer with its type and its period.
abbrev pub typed : State → ℕ → ℤ → ℕ → State
typed s t millisec flag = set_timer s t (record (s.timer t) {
  type = if has_flag flag timer_oneshot then timer_oneshot else timer_interval;
  millisec = millisec;
})

pub typed-Inv :
    (s : State) (t : ℕ) (millisec : ℤ) (flag : ℕ) → Inv s → Inv (typed s t millisec flag)
typed-Inv s t millisec flag v = record {
  lists = set_timer-Lists s t _ refl refl refl refl v.lists;
  counts = set_timer-Counts s t _ refl refl v.counts;
}

positive-set : (z : ℤ) → ltb_ℤ (pos 0) z ≡ true → lasting (ms2ts z) ≡ true
positive-set z h = sym (is_set_eq (ms2ts z)) ∙ (let (m, e) = positive z h in rw e (ms2ts-ok m).1)

-- What the table says of the new timer.
new-entry :
    (s0 s : State) (t k : ℕ) (millisec : ℤ) (flag handler arg : ℕ) (now : Timespec)
    → Made s0 s t k (kept_event handler arg)
    → ltb_ℤ (pos 0) millisec ≡ true
    → set_by
        (entry (typed s t millisec flag) t)
        (first_value millisec flag)
        (time_of flag (first_value millisec flag) now)
      ≡ new_timer millisec flag handler arg now k
new-entry s0 s t k millisec flag handler arg now m ok = rw (==_refl t) (
    rw (m.thread, m.calls)
      (elim (Bool-cases (has_flag flag timer_stopped)) [
        | inl z ↦ rw (z, zero-lasting) refl
        | inr z ↦
            rw
              (z, positive-set millisec ok, timespec_add_eq now (ms2ts millisec), ms2ts_eq millisec)
              refl
      ]))

added-table :
    (s0 s : State) (t k : ℕ) (millisec : ℤ) (flag handler arg : ℕ) (now : Timespec)
    → Inv s
    → Made s0 s t k (kept_event handler arg)
    → ltb_ℤ (pos 0) millisec ≡ true
    → table
        (timer_settime
          (typed s t millisec flag)
          (some t)
          flag
          (first_value millisec flag)
          now
          false).0
      ≡ update (table s0) t (some (new_timer millisec flag handler arg now k))
added-table s0 s t k millisec flag handler arg now v m ok =
    table-timer_settime (typed s t millisec flag) t flag (first_value millisec flag) now
      (typed-Inv s t millisec flag v) (rw (==_refl t) m.used) (first_value-ok millisec flag ok)
    ∙ rw (new-entry s0 s t k millisec flag handler arg now m ok) (
        fun_ext λ u. elim (Bool-cases (t == u)) [
          | inl e ↦ rw e refl
          | inr e ↦ rw e (table-set_timer_other s t u _ e ∙ m.others u e)
        ])

pub typed-settime :
    (s0 s : State) (t k : ℕ) (millisec : ℤ) (flag handler arg : ℕ) (now : Timespec)
    → Inv s
    → Made s0 s t k (kept_event handler arg)
    → ltb_ℤ (pos 0) millisec ≡ true
    → (timer_settime
        (typed s t millisec flag)
        (some t)
        flag
        (first_value millisec flag)
        now
        false).1
      ≡ true
typed-settime s0 s t k millisec flag handler arg now v m ok =
    ap (λ (r : State × Bool × Option Itimerspec). r.1)
      (timer_settime-used (typed s t millisec flag) t flag (first_value millisec flag) now
        (typed-Inv s t millisec flag v) (rw (==_refl t) m.used) (first_value-ok millisec flag ok))

add_created-Kept :
    (s0 s : State) (t k : ℕ) (millisec : ℤ) (flag handler arg : ℕ) (now : Timespec)
    → table s0 t ≡ none
    → Inv s
    → Made s0 s t k (kept_event handler arg)
    → ltb_ℤ (pos 0) millisec ≡ true
    → Kept flag millisec now s0 (add_created s t millisec flag now)
unfolding add_created
add_created-Kept s0 s t k millisec flag handler arg now unused v m ok =
    rw (ap is_in_use m.used, typed-settime s0 s t k millisec flag handler arg now v m ok)
      record {
        servers =
            Framed-Servers
              (Framed-trans (set_timer-Framed s t _ (λ e. (e, refl))) (
                timer_settime-Framed (typed s t millisec flag) t flag (first_value millisec flag)
                  now))
              m.servers;
        change =
            to (sym (added-table s0 s t k millisec flag handler arg now v m ok))
              (adds t k millisec flag handler arg now unused ok);
      }

add_next-Kept :
    (s0 : State) (r : State × Option ℕ) (millisec : ℤ) (flag handler arg : ℕ) (now : Timespec)
    → Inv r.0
    → Result s0 (kept_event handler arg) r
    → ltb_ℤ (pos 0) millisec ≡ true
    → Kept flag millisec now s0 (add_next r.0 r.1 millisec flag now)
unfolding add_next
add_next-Kept s0 _ millisec flag handler arg now v (undone u) ok = record {
  servers = u.servers;
  change = to (sym u.same) (stays tt);
}
add_next-Kept s0 _ millisec flag handler arg now v (made {s} t k unused m) ok =
    add_created-Kept s0 s t k millisec flag handler arg now unused v m ok

-- `os_timer_add`, on every path.
pub os_timer_add-Kept :
    (os : Os) (s : State) (prio millisec : ℤ) (flag handler arg : ℕ) (has_id : Bool)
    (now : Timespec)
    → Inv s
    → Servers s
    → Kept flag millisec now s (os_timer_add os s prio millisec flag handler arg has_id now)
unfolding os_timer_add
os_timer_add-Kept os s prio millisec flag handler arg has_id now v w =
    elim (Bool-cases (not (ltb_ℤ (pos 0) millisec) || (handler == 0 || not has_id))) [
      | inl e ↦ rw e record { servers = w; change = stays tt }
      | inr e ↦ rw e (
          add_next-Kept s (timer_create os s monotonic (some (thread_event os prio handler arg)))
            millisec flag handler arg now (timer_create-Inv os s monotonic _ v)
            (timer_create-Result os s prio handler arg v w) (ground arith))
    ]
