-- ===== src/Timer/Spec/Oneshot.antt =====
-- How often the one-shot timers of osal/linux/os_timer.c fire.
use pc.Base.{
  ℕ, ◌+◌, ◌≤◌, ◌≡◌, refl, subst, arith, ==_iff, if◌then◌else◌, ◌==◌, true, false, Option, some,
  none, List, [], ◌∷◌, Bool-cases, inl, inr,
}
use pc.Base.Int.{ℤ}
use pc.Timer.State.{State}
use pc.Timer.Timespec.{Timespec}
use pc.Timer.Timespec.Clock.{plus, lasting, zero-lasting}
use pc.Timer.Api.{has_flag, timer_stopped, timer_oneshot}
use pc.Timer.Invariant.Reach.{Reach}
use pc.Timer.Spec.{Timer, Table, set_by}
use pc.Timer.Spec.Change.{
  Event, added, started, stopped, changed, deleted, fired, ended, Quiet, NextDue, never, again,
  Change, stays, adds, starts, stops, changes, deletes, fires, new_timer, start_of,
}
use pc.Timer.Spec.Refines.{Runs, empty, goes_on, history, Reach-Runs}

-- Whether the event is an expiration of the timer.
abbrev pub fires_now : ℕ → Event → ℕ
fires_now t (fired u now) = if u == t then 1 else 0
fires_now t _ = 0

-- Whether it starts the timer: `os_timer_start`, or `os_timer_add` without `TIMER_STOPPED`.
abbrev pub starts_now : ℕ → Event → ℕ
starts_now t (started u now) = if u == t then 1 else 0
starts_now t (added flag millisec now (some u)) =
    if u == t then if has_flag flag timer_stopped then 0 else 1 else 0
starts_now t _ = 0

abbrev pub fires_of : ℕ → List Event → ℕ
fires_of t [] = 0
fires_of t (e ∷ es) = fires_now t e + fires_of t es

abbrev pub starts_of : ℕ → List Event → ℕ
starts_of t [] = 0
starts_of t (e ∷ es) = starts_now t e + starts_of t es

-- Whenever the timer is added, it is with `TIMER_ONESHOT`.
abbrev pub AddsOneshot : ℕ → Event → Type 0
AddsOneshot t (added flag millisec now (some u)) =
    (u == t) ≡ true → has_flag flag timer_oneshot ≡ true
AddsOneshot t _ = Unit {0}

abbrev pub AlwaysOneshot : ℕ → List Event → Type 0
AlwaysOneshot t [] = Unit {0}
AlwaysOneshot t (e ∷ es) = AddsOneshot t e × AlwaysOneshot t es

-- An entry that is of the type, and has no interval.
abbrev IsOneshot : Option Timer → Type 0
IsOneshot none = Unit {0}
IsOneshot (some n) = ((n.type == timer_oneshot) ≡ true) × (lasting n.interval ≡ false)

abbrev waits_for : Option Timespec → ℕ
waits_for none = 0
waits_for (some at) = 1

-- Whether the entry is due to fire.
abbrev owed : Option Timer → ℕ
owed none = 0
owed (some n) = waits_for n.due

waits_for-le : (d : Option Timespec) → waits_for d ≤ 1
waits_for-le none = omega arith
waits_for-le (some at) = omega arith

-- What an event does to an entry.
record Moved (t : ℕ) (e : Event) (a b : Option Timer) : Type 0 where
  oneshot : AddsOneshot t e → IsOneshot a → IsOneshot b
  count : IsOneshot a → fires_now t e + owed b ≤ starts_now t e + owed a

-- An event that is not an expiration of the timer and leaves its entry.
untouched : (t : ℕ) (e : Event) (a : Option Timer) → fires_now t e ≡ 0 → Moved t e a a
untouched t e a z = record { oneshot = λ _ o. o; count = λ o. omega (arith, z) }

Quiet-Moved : (t : ℕ) (e : Event) (m : Table) → Quiet m e → Moved t e (m t) (m t)
Quiet-Moved t (fired u now) m q = elim q [ ]
Quiet-Moved t (added flag millisec now none) m q = untouched t _ (m t) refl
Quiet-Moved t (added flag millisec now (some u)) m q = elim q [ ]
Quiet-Moved t (started u now) m q = untouched t _ (m t) refl
Quiet-Moved t (stopped u) m q = untouched t _ (m t) refl
Quiet-Moved t (changed u millisec) m q = untouched t _ (m t) refl
Quiet-Moved t (deleted u) m q = untouched t _ (m t) refl
Quiet-Moved t ended m q = untouched t _ (m t) refl

entry_of : (m : Table) (u t : ℕ) (n : Timer) → m u ≡ some n → (u == t) ≡ true → m t ≡ some n
entry_of m u t n known q = subst (λ x. m x ≡ some n) ((==_iff u t).0 q) known

next-never :
    (now interval at : Timespec) (due : Option Timespec)
    → lasting interval ≡ false
    → NextDue now interval at due
    → due ≡ none
next-never now interval at due off (never h) = refl
next-never now interval at due off (again n on h over) = absurd (cc)

new-IsOneshot :
    (millisec : ℤ) (flag handler arg : ℕ) (now : Timespec) (k : ℕ)
    → has_flag flag timer_oneshot ≡ true
    → IsOneshot (some (new_timer millisec flag handler arg now k))
new-IsOneshot millisec flag handler arg now k h = rw h (refl, zero-lasting)

new-owed :
    (millisec : ℤ) (flag handler arg : ℕ) (now : Timespec) (k : ℕ)
    → waits_for (new_timer millisec flag handler arg now k).due
      ≤ (if has_flag flag timer_stopped then 0 else 1)
new-owed millisec flag handler arg now k = elim (Bool-cases (has_flag flag timer_stopped)) [
  | inl z ↦ rw z (omega arith)
  | inr z ↦ rw z (omega arith)
]

Change-Moved : {e : Event} {m n : Table} (t : ℕ) → Change e m n → Moved t e (m t) (n t)
Change-Moved {e} {m} t (stays q) = Quiet-Moved t e m q
Change-Moved {e} {m} t (adds u k millisec flag handler arg now free p) =
    elim (Bool-cases (u == t)) [
      | inr q ↦ rw q (untouched t _ (m t) refl)
      | inl q ↦ rw q record {
        oneshot = λ once o. new-IsOneshot millisec flag handler arg now k (once q);
        count = λ o. let le = new-owed millisec flag handler arg now k in rw q (omega (arith, le));
      }
    ]
Change-Moved {e} {m} t (starts u n now known) = elim (Bool-cases (u == t)) [
  | inr q ↦ rw q (untouched t _ (m t) refl)
  | inl q ↦
      rw (q, entry_of m u t n known q)
        record {
          oneshot = λ _ o. (o.0, rw o.0 zero-lasting);
          count = λ o.
              let le = waits_for-le (set_by n (start_of n) (plus now (start_of n).it_value)).due in
              rw q (omega arith);
        }
]
Change-Moved {e} {m} t (stops u n known) = elim (Bool-cases (u == t)) [
  | inr q ↦ rw q (untouched t _ (m t) refl)
  | inl q ↦
      rw (q, entry_of m u t n known q)
        record { oneshot = λ _ o. (o.0, zero-lasting); count = λ o. omega arith }
]
Change-Moved {e} {m} t (changes u n millisec known p) = elim (Bool-cases (u == t)) [
  | inr q ↦ rw q (untouched t _ (m t) refl)
  | inl q ↦ rw (q, entry_of m u t n known q) record { oneshot = λ _ o. o; count = λ o. omega arith }
]
Change-Moved {e} {m} t (deletes u n known) = elim (Bool-cases (u == t)) [
  | inr q ↦ rw q (untouched t _ (m t) refl)
  | inl q ↦
      rw (q, entry_of m u t n known q) record { oneshot = λ _ o. tt; count = λ o. omega arith }
]
Change-Moved {e} {m} t (fires u k n now at due known th d b first next) =
    elim (Bool-cases (u == t)) [
      | inr q ↦ rw q (untouched t _ (m t) (rw q refl))
      | inl q ↦
          rw (q, entry_of m u t n known q)
            record {
              oneshot = λ _ o. o;
              count = λ o. rw (q, next-never now n.interval at due o.1 next, d) (omega arith);
            }
    ]

-- What the entry owes and the expirations are paid by the starts.
record Paid (t : ℕ) (es : List Event) (a : Option Timer) : Type 0 where
  oneshot : IsOneshot a
  count : fires_of t es + owed a ≤ starts_of t es

Runs-Paid : {es : List Event} {m : Table} (t : ℕ) → Runs es m → AlwaysOneshot t es → Paid t es (m t)
Runs-Paid t empty h = record { oneshot = tt; count = omega arith }
Runs-Paid t (goes_on {es} {e} {m} r c) h =
    let ih = Runs-Paid t r h.1 in
    let moved = Change-Moved t c in
    let le = moved.count ih.oneshot in
    record { oneshot = moved.oneshot h.0 ih.oneshot; count = omega (arith, ih.count) }

-- Whenever the timer module reaches a state from its first call by calls of the API and steps of the
-- serving threads, in any order: a timer that is added with TIMER_ONESHOT whenever it is added has
-- fired at most as often as it was started by os_timer_start or added without TIMER_STOPPED. Each call
-- has its own answers of the system and its own calling thread; an addition and a start are each taken
-- as one step, with no other call between their parts. A deletion that goes on after a wait is taken to
-- find its timer still in use.
pub Reach-fires_of :
    {s : State} (t : ℕ) (r : Reach s)
    → AlwaysOneshot t (history r)
    → fires_of t (history r) ≤ starts_of t (history r)
Reach-fires_of t r h = let paid = Runs-Paid t (Reach-Runs r) h in omega (arith, paid.count)
