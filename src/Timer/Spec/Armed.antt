-- ===== src/Timer/Spec/Armed.antt =====
-- A timer of osal/linux/os_timer.c that the calls before have not started is not due.
use pc.Base.{
  ℕ, ◌≡◌, refl, arith, ==_iff, if◌then◌else◌, ◌==◌, Bool, true, false, not, Option, some, none,
  List, [], ◌∷◌, sym, subst, ap, ◌∙◌, Bool-cases, inl, inr,
}
use pc.Base.Int.{ℤ}
use pc.Timer.Timespec.{Timespec}
use pc.Timer.Api.{has_flag, timer_stopped}
use pc.Timer.Spec.{Timer, Table}
use pc.Timer.Spec.Change.{
  Event, added, started, stopped, changed, deleted, fired, ended, Quiet, Change, stays, adds,
  starts, stops, changes, deletes, fires, new_timer,
}
use pc.Timer.Spec.Refines.{Runs, empty, goes_on}

-- Of the calls that start or stop the timer, the last one started it: `os_timer_add` without
-- `TIMER_STOPPED`, or `os_timer_start`.
abbrev pub is_started : ℕ → List Event → Bool
is_started t [] = false
is_started t (added flag millisec now (some u) ∷ es) =
    if u == t then not (has_flag flag timer_stopped) else is_started t es
is_started t (added flag millisec now none ∷ es) = is_started t es
is_started t (started u now ∷ es) = if u == t then true else is_started t es
is_started t (stopped u ∷ es) = if u == t then false else is_started t es
is_started t (changed u millisec ∷ es) = is_started t es
is_started t (deleted u ∷ es) = if u == t then false else is_started t es
is_started t (fired u now ∷ es) = is_started t es
is_started t (ended ∷ es) = is_started t es

-- When an entry is due.
abbrev pub due_of : Option Timer → Option Timespec
due_of none = none
due_of (some n) = n.due

Quiet-due :
    (e : Event) (es : List Event) (m : Table) (t : ℕ)
    → Quiet m e
    → (is_started t es ≡ false → due_of (m t) ≡ none)
    → is_started t (e ∷ es) ≡ false
    → due_of (m t) ≡ none
Quiet-due (added flag millisec now none) es m t q ih h = ih h
Quiet-due (added flag millisec now (some u)) es m t q ih h = elim q [ ]
Quiet-due (started u now) es m t q ih h = ground (arith, ih)
Quiet-due (stopped u) es m t q ih h = ground (arith, ih, ==_iff u t)
Quiet-due (changed u millisec) es m t q ih h = ih h
Quiet-due (deleted u) es m t q ih h = ground (arith, ih, ==_iff u t)
Quiet-due (fired u now) es m t q ih h = elim q [ ]
Quiet-due ended es m t q ih h = ih h

-- A timer that is added with `TIMER_STOPPED` is not due.
pub added-stopped :
    (millisec : ℤ) (flag handler arg : ℕ) (now : Timespec) (k : ℕ)
    → not (has_flag flag timer_stopped) ≡ false
    → (new_timer millisec flag handler arg now k).due ≡ none
added-stopped millisec flag handler arg now k h = elim (Bool-cases (has_flag flag timer_stopped)) [
  | inl q ↦ rw q refl
  | inr q ↦ let z : true ≡ false = rw q at h in absurd (cc)
]

known-due :
    (m : Table) (u t : ℕ) (n : Timer) → m u ≡ some n → (u == t) ≡ true → n.due ≡ due_of (m t)
known-due m u t n h q = subst (λ x. n.due ≡ due_of (m x)) ((==_iff u t).0 q) (ap due_of (sym h))

-- What is not started is not due.
Change-due :
    {e : Event} {m n : Table} (es : List Event) (t : ℕ)
    → Change e m n
    → (is_started t es ≡ false → due_of (m t) ≡ none)
    → is_started t (e ∷ es) ≡ false
    → due_of (n t) ≡ none
Change-due {e} {m} es t (stays q) ih h = Quiet-due e es m t q ih h
Change-due {e} {m} es t (adds u k millisec flag handler arg now free p) ih h =
    elim (Bool-cases (u == t)) [
      | inl q ↦
          let off : not (has_flag flag timer_stopped) ≡ false = rw q at h in
          rw q (added-stopped millisec flag handler arg now k off)
      | inr q ↦ rw q (ih (rw q at h))
    ]
Change-due {e} {m} es t (starts u n now known) ih h = elim (Bool-cases (u == t)) [
  | inl q ↦ let z : true ≡ false = rw q at h in absurd (cc)
  | inr q ↦ rw q (ih (rw q at h))
]
Change-due {e} {m} es t (stops u n known) ih h = elim (Bool-cases (u == t)) [
  | inl q ↦ rw q refl
  | inr q ↦ rw q (ih (rw q at h))
]
Change-due {e} {m} es t (changes u n millisec known p) ih h = elim (Bool-cases (u == t)) [
  | inl q ↦ rw q (known-due m u t n known q ∙ ih h)
  | inr q ↦ rw q (ih h)
]
Change-due {e} {m} es t (deletes u n known) ih h = elim (Bool-cases (u == t)) [
  | inl q ↦ rw q refl
  | inr q ↦ rw q (ih (rw q at h))
]
Change-due {e} {m} es t (fires u k n now at due known th d b first next) ih h =
    elim (Bool-cases (u == t)) [
      | inl q ↦
          let z : none ≡ some at = sym (ih h) ∙ sym (known-due m u t n known q) ∙ d in absurd (cc)
      | inr q ↦ rw q (ih h)
    ]

pub Runs-due :
    {es : List Event} {m : Table} (t : ℕ)
    → Runs es m
    → is_started t es ≡ false
    → due_of (m t) ≡ none
Runs-due t empty h = refl
Runs-due t (goes_on {es} r c) h = Change-due es t c (Runs-due t r) h
