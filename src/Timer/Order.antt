-- ===== src/Timer/Order.antt =====
-- The order of a timer queue, and what `__timer_thread_queue_timer` does to it.
pub mod Stable
pub mod Picked
use pc.Base.{
  ℕ, ◌≡◌, ◌↔◌, refl, arith, ==_iff, remove-eq_self, ◌==◌, ◌||◌, Bool, true, false, List, [], ◌∷◌,
  mem, remove, Distinct,
}
use pc.Timer.Timespec.{Timespec}
use pc.Timer.Timespec.Clock.{earlier, is_before_eq}
use pc.Timer.Threads.{insert_timer}

-- No timer of the list expires before `e`.
abbrev pub NoneBefore : (ℕ → Timespec) → Timespec → List ℕ → Type 0
NoneBefore expiry e [] = Unit {0}
NoneBefore expiry e (t ∷ ts) = (earlier (expiry t) e ≡ false) × NoneBefore expiry e ts

-- The queue is in the order of the expiry times.
abbrev pub Sorted : (ℕ → Timespec) → List ℕ → Type 0
Sorted expiry [] = Unit {0}
Sorted expiry (t ∷ ts) = NoneBefore expiry (expiry t) ts × Sorted expiry ts

pub earlier_trans :
    (a b c : Timespec) → earlier a b ≡ true → earlier c b ≡ false → earlier c a ≡ false
unfolding earlier
earlier_trans a b c h k = ground arith

pub earlier_asym : (a b : Timespec) → earlier a b ≡ true → earlier b a ≡ false
unfolding earlier
earlier_asym a b h = ground arith

pub earlier_irrefl : (a : Timespec) → earlier a a ≡ false
unfolding earlier
earlier_irrefl a = ground arith

NoneBefore-mono :
    (expiry : ℕ → Timespec) (a b : Timespec) (ts : List ℕ)
    → earlier a b ≡ true
    → NoneBefore expiry b ts
    → NoneBefore expiry a ts
NoneBefore-mono expiry a b [] h n = tt
NoneBefore-mono expiry a b (t ∷ ts) h n =
    (earlier_trans a b (expiry t) h n.0, NoneBefore-mono expiry a b ts h n.1)

insert-NoneBefore :
    (expiry : ℕ → Timespec) (new : ℕ) (e : Timespec) (athead : Bool) (ts : List ℕ)
    → earlier (expiry new) e ≡ false
    → NoneBefore expiry e ts
    → NoneBefore expiry e (insert_timer expiry new athead ts).0
unfolding insert_timer
insert-NoneBefore expiry new e athead [] h n = (h, tt)
insert-NoneBefore expiry new e athead (t ∷ ts) h n =
    ground
      (arith, is_before_eq (expiry new) (expiry t), insert-NoneBefore expiry new e false ts h n.1)

-- Inserting a timer into a queue that is in the order of the expiry times leaves a queue in that order.
pub insert-Sorted :
    (expiry : ℕ → Timespec) (new : ℕ) (athead : Bool) (ts : List ℕ)
    → Sorted expiry ts
    → Sorted expiry (insert_timer expiry new athead ts).0
unfolding insert_timer
insert-Sorted expiry new athead [] s = (tt, tt)
insert-Sorted expiry new athead (t ∷ ts) s = ground (
  arith,
  is_before_eq (expiry new) (expiry t),
  insert-Sorted expiry new false ts s.1,
  insert-NoneBefore expiry new (expiry t) false ts,
  NoneBefore-mono expiry (expiry new) (expiry t) ts,
  earlier_asym (expiry new) (expiry t),
)

-- It gains the new timer and nothing else.
pub mem-insert :
    (expiry : ℕ → Timespec) (new : ℕ) (athead : Bool) (ts : List ℕ) (t : ℕ)
    → mem t (insert_timer expiry new athead ts).0 ≡ (t == new || mem t ts)
unfolding insert_timer
mem-insert expiry new athead [] t = refl
mem-insert expiry new athead (u ∷ ts) t = ground (arith, mem-insert expiry new false ts t)

pub insert-Distinct :
    (expiry : ℕ → Timespec) (new : ℕ) (athead : Bool) (ts : List ℕ)
    → mem new ts ≡ false
    → Distinct ts
    → Distinct (insert_timer expiry new athead ts).0
unfolding insert_timer
insert-Distinct expiry new athead [] h d = (refl, tt)
insert-Distinct expiry new athead (u ∷ ts) h d =
    ground (arith, mem-insert expiry new false ts u, insert-Distinct expiry new false ts)

-- Inserting a timer that is not in the queue and taking it out again gives the old queue.
pub remove-insert :
    (expiry : ℕ → Timespec) (new : ℕ) (athead : Bool) (ts : List ℕ)
    → mem new ts ≡ false
    → remove new (insert_timer expiry new athead ts).0 ≡ ts
unfolding insert_timer
remove-insert expiry new athead [] h = ground (arith, ==_iff new new)
remove-insert expiry new athead (u ∷ ts) h =
    ground (
      arith,
      ==_iff new new,
      ==_iff new u,
      remove-eq_self new ts,
      remove-insert expiry new false ts,
    )

-- The flag of a walk that has passed a timer is unset.
athead-false :
    (expiry : ℕ → Timespec) (new : ℕ) (ts : List ℕ) → (insert_timer expiry new false ts).1 ≡ false
unfolding insert_timer
athead-false expiry new [] = refl
athead-false expiry new (t ∷ ts) = ground (arith, athead-false expiry new ts)

-- For a timer that is not in the queue, the insertion reports that it is at the head exactly when the
-- new queue is the timer followed by the old queue.
pub athead_iff :
    (expiry : ℕ → Timespec) (new : ℕ) (ts : List ℕ)
    → mem new ts ≡ false
    → ((insert_timer expiry new true ts).1 ≡ true)
      ↔ ((insert_timer expiry new true ts).0 ≡ new ∷ ts)
unfolding insert_timer
athead_iff expiry new [] h = (λ _. refl, λ _. refl)
athead_iff expiry new (t ∷ ts) h = (
  λ e. ground (arith, athead-false expiry new ts),
  λ e. ground (arith, athead-false expiry new ts),
)

pub remove-NoneBefore :
    (expiry : ℕ → Timespec) (t : ℕ) (e : Timespec) (ts : List ℕ)
    → NoneBefore expiry e ts
    → NoneBefore expiry e (remove t ts)
remove-NoneBefore expiry t e [] n = tt
remove-NoneBefore expiry t e (u ∷ ts) n = ground (arith, remove-NoneBefore expiry t e ts n.1)

pub remove-Sorted :
    (expiry : ℕ → Timespec) (t : ℕ) (ts : List ℕ) → Sorted expiry ts → Sorted expiry (remove t ts)
remove-Sorted expiry t [] s = tt
remove-Sorted expiry t (u ∷ ts) s =
    ground (arith, remove-Sorted expiry t ts s.1, remove-NoneBefore expiry t (expiry u) ts s.0)

NoneBefore-agree :
    (f g : ℕ → Timespec) (e : Timespec) (ts : List ℕ)
    → ((t : ℕ) → mem t ts ≡ true → f t ≡ g t)
    → NoneBefore f e ts
    → NoneBefore g e ts
NoneBefore-agree f g e [] h n = tt
NoneBefore-agree f g e (t ∷ ts) h n =
    ground (arith, h t, NoneBefore-agree f g e ts (λ u m. h u (ground arith)) n.1)

-- The order depends on the expiry times of the timers in the queue only.
pub Sorted-agree :
    (f g : ℕ → Timespec) (ts : List ℕ)
    → ((t : ℕ) → mem t ts ≡ true → f t ≡ g t)
    → Sorted f ts
    → Sorted g ts
Sorted-agree f g [] h s = tt
Sorted-agree f g (t ∷ ts) h s = ground (
  arith,
  h t,
  NoneBefore-agree f g (f t) ts (λ u m. h u (ground arith)) s.0,
  Sorted-agree f g ts (λ u m. h u (ground arith)) s.1,
)
