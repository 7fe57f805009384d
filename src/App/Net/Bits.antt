-- ===== src/App/Net/Bits.antt =====
-- Facts about `bit_or`, for the length that app/sys/eg_net.c puts together from four digits.
use Prim.Native.Nat.{max, bit_or, digits, bit_or-bitwise}
use pc.Base.{ℕ, zero, suc, ◌+◌, ◌*◌, ◌/◌, ◌%◌, ◌≤◌, ◌<◌, ◌≡◌, refl, subst, ◌∙◌, arith}

-- The law for the lowest digit.
abbrev or_digits : ℕ → ℕ → ℕ → ℕ
or_digits n a b = digits (λ b. b) max n a b

or_digits_fuel : (n m a b : ℕ) → a ≤ n → a ≤ m → or_digits n a b ≡ or_digits m a b
or_digits_fuel zero zero a b p q = refl
or_digits_fuel zero (suc m) zero b p q = refl
or_digits_fuel zero (suc m) (suc a) b p q = absurd (omega arith)
or_digits_fuel (suc n) zero zero b p q = refl
or_digits_fuel (suc n) zero (suc a) b p q = absurd (omega arith)
or_digits_fuel (suc n) (suc m) zero b p q = refl
or_digits_fuel (suc n) (suc m) (suc a) b p q =
    omega (arith, or_digits_fuel n m (suc a / 2) (b / 2) (omega arith) (omega arith))

zero-bit_or : (b : ℕ) → bit_or 0 b ≡ b
zero-bit_or b = bit_or-bitwise 0 b

bit_or_step : (a b : ℕ) → bit_or a b ≡ bit_or (a / 2) (b / 2) * 2 + max (a % 2) (b % 2)
bit_or_step zero b = omega (arith, zero-bit_or b, zero-bit_or (b / 2))
bit_or_step (suc a) b = omega (
  arith,
  bit_or-bitwise (suc a) b,
  bit_or-bitwise (suc a / 2) (b / 2),
  or_digits_fuel a (suc a / 2) (suc a / 2) (b / 2) (omega arith) (omega arith),
)

bit_or-zero_fuel : (n a : ℕ) → a ≤ n → bit_or a 0 ≡ a
bit_or-zero_fuel zero zero h = zero-bit_or 0
bit_or-zero_fuel zero (suc a) h = absurd (omega arith)
bit_or-zero_fuel (suc n) zero h = zero-bit_or 0
bit_or-zero_fuel (suc n) (suc a) h =
    omega (arith, bit_or_step (suc a) 0, bit_or-zero_fuel n (suc a / 2) (omega arith))

bit_or-zero : (a : ℕ) → bit_or a 0 ≡ a
bit_or-zero a = bit_or-zero_fuel a a (omega arith)

-- One digit, where the halves are known.
step_at : (a b c d : ℕ) → a / 2 ≡ c → b / 2 ≡ d → bit_or a b ≡ bit_or c d * 2 + max (a % 2) (b % 2)
step_at a b c d p q =
    subst2 (λ x y. bit_or a b ≡ bit_or x y * 2 + max (a % 2) (b % 2)) p q (bit_or_step a b)
  where
    subst2 : {x y z w : ℕ} (F : ℕ → ℕ → Type 0) → x ≡ y → z ≡ w → F x z → F y w
    subst2 {x} {y} {z} {w} F e f t = subst (λ v. F y v) f (subst (λ v. F v z) e t)

-- A digit of four bits fits under a number that is shifted by four.
bit_or_nibble : (p a d : ℕ) → p ≡ a * 16 → d < 16 → bit_or p d ≡ a * 16 + d
bit_or_nibble p a d e h = omega (
  arith,
  step_at p d (a * 8) (d / 2) (omega arith) refl,
  step_at (a * 8) (d / 2) (a * 4) (d / 4) (omega arith) (omega arith),
  step_at (a * 4) (d / 4) (a * 2) (d / 8) (omega arith) (omega arith),
  step_at (a * 2) (d / 8) a 0 (omega arith) (omega arith),
  bit_or-zero a,
)

-- Both may be shifted by four.
bit_or_shift : (p q a b : ℕ) → p ≡ a * 16 → q ≡ b * 16 → bit_or p q ≡ bit_or a b * 16
bit_or_shift p q a b e f = omega (
  arith,
  step_at p q (a * 8) (b * 8) (omega arith) (omega arith),
  step_at (a * 8) (b * 8) (a * 4) (b * 4) (omega arith) (omega arith),
  step_at (a * 4) (b * 4) (a * 2) (b * 2) (omega arith) (omega arith),
  step_at (a * 2) (b * 2) a b (omega arith) (omega arith),
)

two_nibbles : (x y : ℕ) → y < 16 → bit_or (x * 4096) (y * 256) ≡ (x * 16 + y) * 256
two_nibbles x y h = omega (
  arith,
  bit_or_shift (x * 4096) (y * 256) (x * 256) (y * 16) (omega arith) (omega arith),
  bit_or_shift (x * 256) (y * 16) (x * 16) y (omega arith) (omega arith),
  bit_or_nibble (x * 16) x y refl h,
)

three_nibbles : (p x z : ℕ) → p ≡ x * 256 → z < 16 → bit_or p (z * 16) ≡ (x * 16 + z) * 16
three_nibbles p x z e h = omega (
  arith,
  bit_or_shift p (z * 16) (x * 16) z (omega arith) (omega arith),
  bit_or_nibble (x * 16) x z refl h,
)

-- Four digits make a number of sixteen bits.
pub four_nibbles :
    (x y z w : ℕ)
    → y < 16
    → z < 16
    → w < 16
    → bit_or (bit_or (bit_or (x * 4096) (y * 256)) (z * 16)) w ≡ x * 4096 + y * 256 + z * 16 + w
four_nibbles x y z w hy hz hw = omega (
  arith,
  bit_or_nibble _ ((x * 16 + y) * 16 + z) w
      (three_nibbles _ (x * 16 + y) z (two_nibbles x y hy) hz ∙ omega arith) hw,
)
