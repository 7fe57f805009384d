-- ===== src/Timer/Order/Stable.antt =====
-- The order in which `__timer_thread_queue_timer` of osal/linux/os_timer.c leaves timers that are put into a
-- queue one after the other: by expiry time, and for one time as they came.
use pc.Base.{
  ℕ, ◌≡◌, refl, sym, ap, ◌∙◌, arith, if◌then◌else◌, ◌||◌, Bool, true, false, List, [], ◌∷◌, ◌++◌,
  append_nil, append_assoc, subst, Bool-cases, inl, inr,
}
use pc.Timer.Timespec.{Timespec}
use pc.Timer.Timespec.Clock.{earlier, is_before_eq}
use pc.Timer.Threads.{insert_timer}
use pc.Timer.Order.{NoneBefore, Sorted, earlier_asym, earlier_irrefl, insert-Sorted}

-- The timers are put into a queue, the first one first.
unfoldable pub queue_all : (ℕ → Timespec) → List ℕ → List ℕ → List ℕ
queue_all expiry queue [] = queue
queue_all expiry queue (t ∷ ts) = queue_all expiry (insert_timer expiry t true queue).0 ts

abbrev pub apart : Timespec → Timespec → Bool
apart a b = earlier a b || earlier b a

-- The timers that expire at a time, in their order.
abbrev pub at_time : (ℕ → Timespec) → Timespec → List ℕ → List ℕ
at_time expiry e [] = []
at_time expiry e (t ∷ ts) =
    if apart (expiry t) e then at_time expiry e ts else t ∷ at_time expiry e ts

-- Times that are not apart are before the same times.
apart-before : (a b c : Timespec) → apart a b ≡ false → earlier a c ≡ earlier b c
unfolding earlier
apart-before a b c h = ground arith

before-later : (a b c : Timespec) → earlier a b ≡ true → earlier c b ≡ false → earlier a c ≡ true
unfolding earlier
before-later a b c h k = ground arith

module _ (expiry : ℕ → Timespec) where
  at_time-append :
      (e : Timespec) (ts us : List ℕ)
      → at_time expiry e (ts ++ us) ≡ at_time expiry e ts ++ at_time expiry e us
  at_time-append e [] us = refl
  at_time-append e (t ∷ ts) us = ground (arith, at_time-append e ts us)

  -- No timer of a queue expires at a time that comes before its timers.
  at_time-later :
      (e : Timespec) (t : ℕ) (ts : List ℕ)
      → earlier e (expiry t) ≡ true
      → NoneBefore expiry (expiry t) ts
      → at_time expiry e ts ≡ []
  at_time-later e t [] h n = refl
  at_time-later e t (u ∷ us) h n =
      let b = before-later e (expiry t) (expiry u) h n.0 in
      rw (earlier_asym e (expiry u) b, b) (at_time-later e t us h n.1)

  at_time-here :
      (t : ℕ) (ts : List ℕ) → at_time expiry (expiry t) (t ∷ ts) ≡ t ∷ at_time expiry (expiry t) ts
  at_time-here t ts = rw (earlier_irrefl (expiry t)) refl

  -- A timer that is put in front of all the others is the only one that expires at its time.
  before_all :
      (e : Timespec) (new t : ℕ) (ts : List ℕ)
      → earlier (expiry new) (expiry t) ≡ true
      → Sorted expiry (t ∷ ts)
      → at_time expiry e (new ∷ t ∷ ts) ≡ at_time expiry e (t ∷ ts) ++ at_time expiry e (new ∷ [])
  before_all e new t ts b s = elim (Bool-cases (apart (expiry new) e)) [
    | inl a ↦ rw (a, append_nil (at_time expiry e (t ∷ ts))) refl
    | inr a ↦
        let none_there =
          at_time-later e t (t ∷ ts) (sym (apart-before (expiry new) e (expiry t) a) ∙ b)
            (earlier_irrefl (expiry t), s.0) in
        rw (a, none_there) refl
  ]

  at_time-insert :
      (e : Timespec) (new : ℕ) (athead : Bool) (ts : List ℕ)
      → Sorted expiry ts
      → at_time expiry e (insert_timer expiry new athead ts).0 ≡ at_time expiry e (ts ++ new ∷ [])
  unfolding insert_timer
  at_time-insert e new athead [] s = refl
  at_time-insert e new athead (t ∷ ts) s = elim (Bool-cases (earlier (expiry new) (expiry t))) [
    | inl b ↦
        rw (is_before_eq (expiry new) (expiry t), b, at_time-append e (t ∷ ts) (new ∷ []))
          (before_all e new t ts b s)
    | inr b ↦
        rw (is_before_eq (expiry new) (expiry t), b)
          (ground (arith, at_time-insert e new false ts s.1))
  ]

  -- The first of a queue does not come before all of another with the same timers at each time.
  not_before :
      (x y : ℕ) (xs ys : List ℕ)
      → Sorted expiry (y ∷ ys)
      → ((e : Timespec) → at_time expiry e (x ∷ xs) ≡ at_time expiry e (y ∷ ys))
      → earlier (expiry x) (expiry y) ≡ false
  not_before x y xs ys s h = elim (Bool-cases (earlier (expiry x) (expiry y))) [
    | inl b ↦
        let none_there = at_time-later (expiry x) y (y ∷ ys) b (earlier_irrefl (expiry y), s.0) in
        cc (at_time-here x xs, none_there, h (expiry x))
    | inr b ↦ b
  ]

  same_head :
      (x y : ℕ) (xs ys : List ℕ)
      → apart (expiry y) (expiry x) ≡ false
      → at_time expiry (expiry x) (x ∷ xs) ≡ at_time expiry (expiry x) (y ∷ ys)
      → x ≡ y
  same_head x y xs ys a h =
      let both : x ∷ at_time expiry (expiry x) xs ≡ y ∷ at_time expiry (expiry x) ys =
        sym (at_time-here x xs) ∙ h ∙ (rw a refl) in
      cc both

  same_tails :
      (e : Timespec) (x : ℕ) (xs ys : List ℕ)
      → at_time expiry e (x ∷ xs) ≡ at_time expiry e (x ∷ ys)
      → at_time expiry e xs ≡ at_time expiry e ys
  same_tails e x xs ys h = elim (Bool-cases (apart (expiry x) e)) [
    | inl a ↦ rw a at h
    | inr a ↦ let both : x ∷ at_time expiry e xs ≡ x ∷ at_time expiry e ys = rw a at h in cc both
  ]

  -- A queue in the order of the expiry times is settled by the timers that expire at each time.
  pub Sorted-unique :
      (xs ys : List ℕ)
      → Sorted expiry xs
      → Sorted expiry ys
      → ((e : Timespec) → at_time expiry e xs ≡ at_time expiry e ys)
      → xs ≡ ys
  Sorted-unique [] [] s t h = refl
  Sorted-unique (x ∷ xs) [] s t h = let p = h (expiry x) in cc (at_time-here x xs, p)
  Sorted-unique [] (y ∷ ys) s t h = let p = h (expiry y) in cc (at_time-here y ys, p)
  Sorted-unique (x ∷ xs) (y ∷ ys) s t h =
      let a : apart (expiry y) (expiry x) ≡ false =
        rw (not_before y x ys xs s (λ e. sym (h e)), not_before x y xs ys t h) refl in
      let p = same_head x y xs ys a (h (expiry x)) in
      let tails : (e : Timespec) → at_time expiry e xs ≡ at_time expiry e ys = λ e.
        same_tails e x xs ys
          (subst (λ z. at_time expiry e (x ∷ xs) ≡ at_time expiry e (z ∷ ys)) (sym p) (h e)) in
      let q = Sorted-unique xs ys s.1 t.1 tails in cc (p, q)

  pub queue_all-at_time :
      (e : Timespec) (queue ts : List ℕ)
      → Sorted expiry queue
      → at_time expiry e (queue_all expiry queue ts) ≡ at_time expiry e (queue ++ ts)
  unfolding queue_all
  queue_all-at_time e queue [] s = rw (append_nil queue) refl
  queue_all-at_time e queue (t ∷ ts) s =
      queue_all-at_time e (insert_timer expiry t true queue).0 ts
        (insert-Sorted expiry t true queue s)
      ∙ at_time-append e (insert_timer expiry t true queue).0 ts
      ∙ ap (λ l. l ++ at_time expiry e ts) (at_time-insert e t true queue s)
      ∙ sym (at_time-append e (queue ++ t ∷ []) ts)
      ∙ ap (at_time expiry e) (append_assoc queue t ts)

  pub queue_all-Sorted :
      (queue ts : List ℕ) → Sorted expiry queue → Sorted expiry (queue_all expiry queue ts)
  unfolding queue_all
  queue_all-Sorted queue [] s = s
  queue_all-Sorted queue (t ∷ ts) s =
      queue_all-Sorted (insert_timer expiry t true queue).0 ts (insert-Sorted expiry t true queue s)
