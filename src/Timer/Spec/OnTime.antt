-- ===== src/Timer/Spec/OnTime.antt =====
-- The timers of osal/linux/os_timer.c fire by the plan that the calls of the API make.
use pc.Base.{
  ℕ, ◌+◌, ◌≡◌, refl, sym, ap, subst, ◌∙◌, ==_iff, ◌==◌, true, false, Option, some, none, List, ◌∷◌,
  Bool-cases, inl, inr,
}
use pc.Base.Int.{pos, ltb_ℤ}
use pc.Timer.State.{State}
use pc.Timer.Timespec.{Timespec}
use pc.Timer.Timespec.Clock.{earlier}
use pc.Timer.Invariant.Reach.{Reach}
use pc.Timer.Spec.{Timer, Table}
use pc.Timer.Spec.Change.{
  Event, added, started, stopped, changed, deleted, fired, ended, Quiet, Change, stays, adds,
  starts, stops, changes, deletes, fires,
}
use pc.Timer.Spec.Refines.{Runs, empty, goes_on, history, Reach-Runs}
use pc.Timer.Spec.Plan.{Plan, plan_started, replan, on_plan, plan, Due, FiresDue}
use pc.Timer.Spec.Planned.{
  Entry, Follows, added-Entry, started-Entry, fired-Entry, changed-Entry, on_plan_at,
}

unplanned : (p : Option Plan) → Follows p none → p ≡ none
unplanned none f = refl
unplanned (some q) f = elim f [ ]

planned :
    (p : Option Plan) (n : Timer) → Follows p (some n) → (q : Plan) × ((p ≡ some q) × Entry q n)
planned (some q) n f = (q, (refl, f))
planned none n f = elim f [ ]

-- A timer that is not in use stays as planned by an event on it that leaves no plan where there is none.
still_unused :
    (p p' : Option Plan) (a : Option Timer)
    → a ≡ none
    → (p ≡ none → p' ≡ none)
    → Follows p a
    → Follows p' a
still_unused p p' a e keeps f =
    let gone : p ≡ none = unplanned p (subst (Follows p) e f) in rw (e, keeps gone) tt

moved : (m : Table) (u t : ℕ) (a : Option Timer) → (u == t) ≡ true → m u ≡ a → m t ≡ a
moved m u t a z h = subst (λ x. m x ≡ a) ((==_iff u t).0 z) h

effect-Quiet :
    (m : Table) (t : ℕ) (now : Timespec) (p : Option Plan) (a : Option Timer)
    → m t ≡ a
    → Quiet m (started t now)
    → Follows p a
    → a ≡ none
effect-Quiet m t now p none h q f = refl
effect-Quiet m t now p (some n) h q f =
    let (asked, (e, entry)) = planned p n f in
    let z : true ≡ false = sym entry.positive ∙ ap (ltb_ℤ (pos 0)) (sym entry.millisec) ∙ q n h in
    absurd (cc)

Quiet-Follows :
    (t : ℕ) (e : Event) (m : Table) (p : Option Plan)
    → Quiet m e
    → Follows p (m t)
    → Follows (replan t e p) (m t)
Quiet-Follows t (added flag millisec now none) m p q f = f
Quiet-Follows t (added flag millisec now (some u)) m p q f = elim q [ ]
Quiet-Follows t (started u now) m p q f = elim (Bool-cases (u == t)) [
  | inr z ↦ rw z f
  | inl z ↦
      let none_there =
        effect-Quiet m t now p (m t) refl
          (subst (λ x. Quiet m (started x now)) ((==_iff u t).0 z) q) f in
      still_unused p _ (m t) none_there (λ e. rw (z, e) refl) f
]
Quiet-Follows t (stopped u) m p q f = elim (Bool-cases (u == t)) [
  | inr z ↦ rw z f
  | inl z ↦ still_unused p _ (m t) (moved m u t none z q) (λ e. rw (z, e) refl) f
]
Quiet-Follows t (changed u millisec) m p q f = elim (Bool-cases (u == t)) [
  | inr z ↦ rw z f
  | inl z ↦ elim (Bool-cases (ltb_ℤ (pos 0) millisec)) [
    | inr b ↦ rw (z, b) f
    | inl b ↦ still_unused p _ (m t) (moved m u t none z (q b)) (λ e. rw (z, b, e) refl) f
  ]
]
Quiet-Follows t (deleted u) m p q f = elim (Bool-cases (u == t)) [
  | inr z ↦ rw z f
  | inl z ↦ still_unused p _ (m t) (moved m u t none z q) (λ e. rw z refl) f
]
Quiet-Follows t (fired u now) m p q f = elim q [ ]
Quiet-Follows t ended m p q f = f

-- A change of an entry in use, as the plan is changed.
replanned :
    (p : Option Plan) (n n' : Timer) (a : Option Timer) (change : Plan → Plan)
    → a ≡ some n
    → ((q : Plan) → Entry q n → Entry (change q) n')
    → Follows p a
    → Follows (on_plan change p) (some n')
replanned p n n' a change known step f =
    let (q, (e, entry)) = planned p n (subst (Follows p) known f) in rw e (step q entry)

Change-Follows :
    {e : Event} {m n : Table} (t : ℕ) (p : Option Plan)
    → Change e m n
    → Follows p (m t)
    → Follows (replan t e p) (n t)
Change-Follows {e} {m} t p (stays q) f = Quiet-Follows t e m p q f
Change-Follows {e} {m} t p (adds u k millisec flag handler arg now free ok) f =
    elim (Bool-cases (u == t)) [
      | inr z ↦ rw z f
      | inl z ↦ rw z (added-Entry millisec flag handler arg now k ok)
    ]
Change-Follows {e} {m} t p (starts u n now known) f = elim (Bool-cases (u == t)) [
  | inr z ↦ rw z f
  | inl z ↦ rw z (
      replanned p n _ (m t) (plan_started now) (moved m u t (some n) z known)
        (λ q. started-Entry q n now) f)
]
Change-Follows {e} {m} t p (stops u n known) f = elim (Bool-cases (u == t)) [
  | inr z ↦ rw z f
  | inl z ↦ rw z (
      replanned p n _ (m t) (λ q. record q { first = none }) (moved m u t (some n) z known)
        (λ q g. record {
          type = g.type;
          millisec = g.millisec;
          positive = g.positive;
          planned = tt;
        })
        f)
]
Change-Follows {e} {m} t p (changes u n millisec known ok) f = elim (Bool-cases (u == t)) [
  | inr z ↦ rw z f
  | inl z ↦
      rw (z, ok)
        (replanned p n _ (m t) (λ q. record q { millisec = millisec })
          (moved m u t (some n) z known) (λ q g. changed-Entry q n millisec ok g) f)
]
Change-Follows {e} {m} t p (deletes u n known) f = elim (Bool-cases (u == t)) [
  | inr z ↦ rw z f
  | inl z ↦ rw z tt
]
Change-Follows {e} {m} t p (fires u k n now at due known th d b first next) f =
    elim (Bool-cases (u == t)) [
      | inr z ↦ rw z f
      | inl z ↦ rw z (
          replanned p n _ (m t) (λ q. record q { fires = q.fires + 1 })
            (moved m u t (some n) z known) (λ q. fired-Entry q n now at due d next) f)
    ]

Runs-Follows : {es : List Event} {m : Table} (t : ℕ) → Runs es m → Follows (plan t es) (m t)
Runs-Follows t empty = tt
Runs-Follows t (goes_on {es} r c) = Change-Follows t (plan t es) c (Runs-Follows t r)

Quiet-FiresDue :
    (e : Event) (es : List Event) (m : Table) → Quiet m e → FiresDue es → FiresDue (e ∷ es)
Quiet-FiresDue (fired t now) es m q ih = elim q [ ]
Quiet-FiresDue (added flag millisec now t) es m q ih = ih
Quiet-FiresDue (started t now) es m q ih = ih
Quiet-FiresDue (stopped t) es m q ih = ih
Quiet-FiresDue (changed t millisec) es m q ih = ih
Quiet-FiresDue (deleted t) es m q ih = ih
Quiet-FiresDue ended es m q ih = ih

-- What fires is on its plan.
fires-Due :
    (p : Option Plan) (n : Timer) (a : Option Timer) (now at : Timespec)
    → a ≡ some n
    → n.due ≡ some at
    → earlier now at ≡ false
    → Follows p a
    → Due now p
fires-Due p n a now at known d b f =
    let (q, (e, entry)) = planned p n (subst (Follows p) known f) in
    record { asked = q; known = e; at = at; on_plan = (on_plan_at q n at d entry).0; reached = b }

Change-FiresDue :
    {e : Event} {m n : Table} (es : List Event)
    → Change e m n
    → Runs es m
    → FiresDue es
    → FiresDue (e ∷ es)
Change-FiresDue {e} {m} es (stays q) r ih = Quiet-FiresDue e es m q ih
Change-FiresDue es (adds u k millisec flag handler arg now free ok) r ih = ih
Change-FiresDue es (starts u n now known) r ih = ih
Change-FiresDue es (stops u n known) r ih = ih
Change-FiresDue es (changes u n millisec known ok) r ih = ih
Change-FiresDue es (deletes u n known) r ih = ih
Change-FiresDue {e} {m} es (fires u k n now at due known th d b first next) r ih =
    (fires-Due (plan u es) n (m u) now at known d b (Runs-Follows u r), ih)

Runs-FiresDue : {es : List Event} {m : Table} → Runs es m → FiresDue es
Runs-FiresDue empty = tt
Runs-FiresDue (goes_on {es} r c) = Change-FiresDue es c r (Runs-FiresDue r)

-- Whenever the timer module reaches a state from its first call by calls of the API and steps of the
-- serving threads, in any order: each time that a timer fired, the calls before had asked for it and it
-- was not early. The plan of a timer is told from the calls alone: the last start, or addition without
-- TIMER_STOPPED, sets the first time, the timer's period, a million nanoseconds for each millisecond,
-- later (or, in an addition with TIMER_ABSTIME, the period as a time of the clock), and the step, the
-- period, or zero for a one-shot timer; a stop or a deletion takes the first time away. The time at
-- which the timer fires, compared by seconds and then by nanoseconds, is not before a time of the plan,
-- the first time with a number of steps added that is at least the number of times that the timer has
-- fired since it was last started. Each call has its own answers of the system and its own calling
-- thread; an addition and a start are each taken as one step, with no other call between their parts. A
-- deletion that goes on after a wait is taken to find its timer still in use.
pub Reach-FiresDue : {s : State} → (r : Reach s) → FiresDue (history r)
Reach-FiresDue r = Runs-FiresDue (Reach-Runs r)
