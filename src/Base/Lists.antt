-- ===== src/Base/Lists.antt =====
-- Lists measured and indexed by native numbers, and lists of identifiers.
use Prim.Native.Nat.{ℕ, zero, suc, ◌+◌}
use mathlib.Core.Path.{◌≡◌, refl, ap}
use mathlib.Core.Bool.{Bool, true, false, ◌||◌, ◌&&◌}
use mathlib.Core.List.{List, [], ◌∷◌, ◌++◌}
use mathlib.Core.Option.{Option, none, some}
use native.Mathlib.Omega.{arith}
use pc.Base.Tests.{ltb, leb, ◌==◌, if◌then◌else◌}

module _ {ℓ} {A : Type ℓ} where
  abbrev pub length : List A → ℕ
  length [] = 0
  length (x ∷ xs) = suc (length xs)

  abbrev pub get_elem? : List A → ℕ → Option A
  get_elem? [] i = none
  get_elem? (x ∷ xs) zero = some x
  get_elem? (x ∷ xs) (suc i) = get_elem? xs i

  abbrev pub take : ℕ → List A → List A
  take zero xs = []
  take (suc n) [] = []
  take (suc n) (x ∷ xs) = x ∷ take n xs

  abbrev pub drop : ℕ → List A → List A
  drop zero xs = xs
  drop (suc n) [] = []
  drop (suc n) (x ∷ xs) = drop n xs

  abbrev pub replicate : ℕ → A → List A
  replicate zero a = []
  replicate (suc n) a = a ∷ replicate n a

  pub append_nil : (xs : List A) → xs ++ [] ≡ xs
  append_nil [] = refl
  append_nil (x ∷ xs) = ap (λ ys. x ∷ ys) (append_nil xs)

  pub append_assoc : (xs : List A) (y : A) (ys : List A) → (xs ++ y ∷ []) ++ ys ≡ xs ++ y ∷ ys
  append_assoc [] y ys = refl
  append_assoc (x ∷ xs) y ys = ap (λ zs. x ∷ zs) (append_assoc xs y ys)

  pub length-append : (xs ys : List A) → length (xs ++ ys) ≡ length xs + length ys
  length-append [] ys = omega arith
  length-append (x ∷ xs) ys = omega (arith, length-append xs ys)

-- [a, a + 1, …, a + n - 1]
unfoldable pub count_up : ℕ → ℕ → List ℕ
count_up zero a = []
count_up (suc n) a = a ∷ count_up n (suc a)

abbrev pub mem : ℕ → List ℕ → Bool
mem a [] = false
mem a (x ∷ xs) = a == x || mem a xs

abbrev pub remove : ℕ → List ℕ → List ℕ
remove a [] = []
remove a (x ∷ xs) = if a == x then remove a xs else x ∷ remove a xs

-- The value of a table after one entry is written.
abbrev pub update {ℓ} : {A : Type ℓ} → (ℕ → A) → ℕ → A → ℕ → A
update f p v q = if p == q then v else f q

pub mem-append : (a : ℕ) (xs ys : List ℕ) → mem a (xs ++ ys) ≡ (mem a xs || mem a ys)
mem-append a [] ys = refl
mem-append a (x ∷ xs) ys = ground (arith, mem-append a xs ys)

pub mem-remove :
    (a b : ℕ) (xs : List ℕ) → mem b (remove a xs) ≡ (if a == b then false else mem b xs)
mem-remove a b [] = ground arith
mem-remove a b (x ∷ xs) = ground (arith, mem-remove a b xs)

-- Removing what is not there changes nothing.
pub remove-eq_self : (a : ℕ) (xs : List ℕ) → mem a xs ≡ false → remove a xs ≡ xs
remove-eq_self a [] h = refl
remove-eq_self a (x ∷ xs) h = ground (arith, remove-eq_self a xs)

pub remove-append : (a : ℕ) (xs ys : List ℕ) → remove a (xs ++ ys) ≡ remove a xs ++ remove a ys
remove-append a [] ys = refl
remove-append a (x ∷ xs) ys = ground (arith, remove-append a xs ys)

-- No identifier stands twice.
abbrev pub Distinct : List ℕ → Type 0
Distinct [] = Unit {0}
Distinct (x ∷ xs) = (mem x xs ≡ false) × Distinct xs

pub remove-Distinct : (a : ℕ) (xs : List ℕ) → Distinct xs → Distinct (remove a xs)
remove-Distinct a [] d = tt
remove-Distinct a (x ∷ xs) d = ground (arith, mem-remove a x xs, remove-Distinct a xs d.1)

pub snoc-Distinct : (a : ℕ) (xs : List ℕ) → Distinct xs → mem a xs ≡ false → Distinct (xs ++ a ∷ [])
snoc-Distinct a [] d h = ground arith
snoc-Distinct a (x ∷ xs) d h = ground (arith, mem-append x xs (a ∷ []), snoc-Distinct a xs d.1)

pub length-count_up : (n a : ℕ) → length (count_up n a) ≡ n
unfolding count_up
length-count_up zero a = refl
length-count_up (suc n) a = ap suc (length-count_up n (suc a))

pub mem-count_up : (n a t : ℕ) → mem t (count_up n a) ≡ (leb a t && ltb t (a + n))
unfolding count_up
mem-count_up zero a t = ground arith
mem-count_up (suc n) a t = ground (arith, mem-count_up n (suc a) t)

pub count_up-Distinct : (n a : ℕ) → Distinct (count_up n a)
unfolding count_up
count_up-Distinct zero a = tt
count_up-Distinct (suc n) a = ground (arith, mem-count_up n (suc a) a, count_up-Distinct n (suc a))

-- `strcmp (a, b) == 0`
abbrev pub same : List ℕ → List ℕ → Bool
same [] [] = true
same (a ∷ xs) (b ∷ ys) = if a == b then same xs ys else false
same [] (b ∷ ys) = false
same (a ∷ xs) [] = false

pub same_eq : (xs ys : List ℕ) → same xs ys ≡ true → xs ≡ ys
same_eq [] [] h = refl
same_eq (a ∷ xs) (b ∷ ys) h = ground (arith, same_eq xs ys)
same_eq [] (b ∷ ys) h = ground arith
same_eq (a ∷ xs) [] h = ground arith

pub same_refl : (xs : List ℕ) → same xs xs ≡ true
same_refl [] = refl
same_refl (a ∷ xs) = ground (arith, same_refl xs)
