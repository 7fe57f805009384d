-- ===== src/Timer/Order/Picked.antt =====
-- A reference for the order of a timer queue, which picks the timers by their expiry times, and its agreement
-- with `__timer_thread_queue_timer` of osal/linux/os_timer.c.
use pc.Base.{
  ℕ, zero, suc, ◌≤◌, ◌≡◌, refl, sym, ap, ◌∙◌, arith, if◌then◌else◌, true, false, List, [], ◌∷◌,
  length, ◌↔◌, Bool-cases, inl, inr,
}
use pc.Timer.Timespec.{Timespec}
use pc.Timer.Timespec.Clock.{earlier}
use pc.Timer.Order.{NoneBefore, Sorted, earlier_asym}
use pc.Timer.Order.Stable.{
  queue_all, apart, at_time, Sorted-unique, queue_all-at_time, queue_all-Sorted,
}

-- The first of the timers that none expires before, and the others in their order.
unfoldable pub pick : (ℕ → Timespec) → ℕ → List ℕ → ℕ × List ℕ
pick expiry t [] = (t, [])
pick expiry t (u ∷ us) =
    let (m, others) = pick expiry u us in
    if earlier (expiry m) (expiry t) then (m, t ∷ others) else (t, u ∷ us)

-- The timers as they are picked, at most `n`.
unfoldable pub pick_all : (ℕ → Timespec) → ℕ → List ℕ → List ℕ
unfolding pick
pick_all expiry (suc n) (t ∷ ts) =
    let (m, others) = pick expiry t ts in m ∷ pick_all expiry n others
pick_all expiry _ _ = []

apart-later : (a e b : Timespec) → apart a e ≡ false → earlier a b ≡ true → apart b e ≡ true
unfolding earlier
apart-later a e b h k = ground arith

pub not_before_trans :
    (a b c : Timespec) → earlier a b ≡ false → earlier b c ≡ false → earlier a c ≡ false
unfolding earlier
not_before_trans a b c h k = ground arith

module _ (expiry : ℕ → Timespec) where
  NoneBefore-later :
      (e at : Timespec) (ts : List ℕ)
      → earlier at e ≡ false
      → NoneBefore expiry at ts
      → NoneBefore expiry e ts
  NoneBefore-later e at [] b n = tt
  NoneBefore-later e at (t ∷ ts) b n =
      (not_before_trans (expiry t) at e n.0 b, NoneBefore-later e at ts b n.1)

  at_time-cons :
      (e : Timespec) (t : ℕ) (ts us : List ℕ)
      → at_time expiry e ts ≡ at_time expiry e us
      → at_time expiry e (t ∷ ts) ≡ at_time expiry e (t ∷ us)
  at_time-cons e t ts us h = elim (Bool-cases (apart (expiry t) e)) [
    | inl a ↦ rw a h
    | inr a ↦ rw a (ap (λ l. t ∷ l) h)
  ]

  -- Two timers that expire at different times can change places.
  at_time-swap :
      (e : Timespec) (t u : ℕ) (ts : List ℕ)
      → earlier (expiry t) (expiry u) ≡ true
      → at_time expiry e (t ∷ u ∷ ts) ≡ at_time expiry e (u ∷ t ∷ ts)
  at_time-swap e t u ts b = elim (Bool-cases (apart (expiry t) e)) [
    | inl a ↦ rw a refl
    | inr a ↦ rw (apart-later (expiry t) e (expiry u) a b, a) refl
  ]

  at_time-pick :
      (e : Timespec) (t : ℕ) (ts : List ℕ)
      → at_time expiry e ((pick expiry t ts).0 ∷ (pick expiry t ts).1) ≡ at_time expiry e (t ∷ ts)
  unfolding pick
  at_time-pick e t [] = refl
  at_time-pick e t (u ∷ us) =
      let m = (pick expiry u us).0 in
      let others = (pick expiry u us).1 in
      elim (Bool-cases (earlier (expiry m) (expiry t))) [
        | inl b ↦ rw b (
            at_time-swap e m t others b
            ∙ at_time-cons e t (m ∷ others) (u ∷ us) (at_time-pick e u us))
        | inr b ↦ rw b refl
      ]

  NoneBefore-pick :
      (e : Timespec) (t : ℕ) (ts : List ℕ)
      → NoneBefore expiry e ((pick expiry t ts).0 ∷ (pick expiry t ts).1)
        ↔ NoneBefore expiry e (t ∷ ts)
  unfolding pick
  NoneBefore-pick e t [] = (λ h. h, λ h. h)
  NoneBefore-pick e t (u ∷ us) =
      let ih = NoneBefore-pick e u us in
      elim (Bool-cases (earlier (expiry (pick expiry u us).0) (expiry t))) [
        | inl b ↦ rw b (λ h. (h.1.0, ih.0 (h.0, h.1.1)), λ h. let r = ih.1 h.1 in (r.0, (h.0, r.1)))
        | inr b ↦ rw b (λ h. h, λ h. h)
      ]

  pick-NoneBefore :
      (t : ℕ) (ts : List ℕ) → NoneBefore expiry (expiry (pick expiry t ts).0) (pick expiry t ts).1
  unfolding pick
  pick-NoneBefore t [] = tt
  pick-NoneBefore t (u ∷ us) =
      let m = (pick expiry u us).0 in
      let ih = pick-NoneBefore u us in
      elim (Bool-cases (earlier (expiry m) (expiry t))) [
        | inl b ↦ rw b (earlier_asym (expiry m) (expiry t) b, ih)
        | inr b ↦ rw b (
            (NoneBefore-pick (expiry t) u us).0
              (b, NoneBefore-later (expiry t) (expiry m) (pick expiry u us).1 b ih))
      ]

  length-pick : (t : ℕ) (ts : List ℕ) → length (pick expiry t ts).1 ≡ length ts
  unfolding pick
  length-pick t [] = refl
  length-pick t (u ∷ us) = ground (arith, length-pick u us)

  pick_all-at_time :
      (e : Timespec) (n : ℕ) (ts : List ℕ)
      → length ts ≤ n
      → at_time expiry e (pick_all expiry n ts) ≡ at_time expiry e ts
  unfolding pick_all
  pick_all-at_time e zero [] h = refl
  pick_all-at_time e (suc n) [] h = refl
  pick_all-at_time e zero (t ∷ ts) h = absurd (omega arith)
  pick_all-at_time e (suc n) (t ∷ ts) h =
      at_time-cons e (pick expiry t ts).0 (pick_all expiry n (pick expiry t ts).1)
        (pick expiry t ts).1
        (pick_all-at_time e n (pick expiry t ts).1 (omega (arith, length-pick t ts)))
      ∙ at_time-pick e t ts

  pick_all-NoneBefore :
      (e : Timespec) (n : ℕ) (ts : List ℕ)
      → NoneBefore expiry e ts
      → NoneBefore expiry e (pick_all expiry n ts)
  unfolding pick_all
  pick_all-NoneBefore e zero [] h = tt
  pick_all-NoneBefore e zero (t ∷ ts) h = tt
  pick_all-NoneBefore e (suc n) [] h = tt
  pick_all-NoneBefore e (suc n) (t ∷ ts) h =
      let r = (NoneBefore-pick e t ts).1 h in
      (r.0, pick_all-NoneBefore e n (pick expiry t ts).1 r.1)

  pick_all-Sorted : (n : ℕ) (ts : List ℕ) → Sorted expiry (pick_all expiry n ts)
  unfolding pick_all
  pick_all-Sorted zero [] = tt
  pick_all-Sorted zero (t ∷ ts) = tt
  pick_all-Sorted (suc n) [] = tt
  pick_all-Sorted (suc n) (t ∷ ts) = (
    pick_all-NoneBefore (expiry (pick expiry t ts).0) n (pick expiry t ts).1 (pick-NoneBefore t ts),
    pick_all-Sorted n (pick expiry t ts).1,
  )

  -- Timers that are put into an empty queue one after the other stand in it in the order in which
  -- they are picked by a reference that knows no queue: again and again the first, in the order in
  -- which they came, of those that none of the rest expires before. So they are in the order of their
  -- expiry times, by seconds and then by nanoseconds, and those that expire at one time stay in the
  -- order in which they came.
  pub queue_all-pick_all : (ts : List ℕ) → queue_all expiry [] ts ≡ pick_all expiry (length ts) ts
  queue_all-pick_all ts =
      Sorted-unique expiry (queue_all expiry [] ts) (pick_all expiry (length ts) ts)
        (queue_all-Sorted expiry [] ts tt) (pick_all-Sorted (length ts) ts)
        (λ e.
          queue_all-at_time expiry e [] ts tt
          ∙ sym (pick_all-at_time e (length ts) ts (omega arith)))
