-- ===== src/Timer/Timespec/Laws.antt =====
-- The timespec helpers compute with instants: addition, subtraction and comparison agree with those of
-- nanosecond counts.
use pc.Base.{ℕ, ◌+◌, ◌*◌, ◌≡◌, ◌↔◌, arith, true}
use pc.Base.Int.{
  ℤ, pos, pos_part, neg_part, sub_ℕ, ◌+ℤ◌, ◌-ℤ◌, ◌≤ℤ◌, ltb_ℤ, +ℤ_parts, -ℤ_parts, eq_of_parts,
}
use pc.Timer.Timespec.{Timespec, timespec_compare, is_before, timespec_add, timespec_sub, billion}

-- The positive and the negative part of a timespec, counted in nanoseconds.
abbrev pub ns_pos : Timespec → ℕ
ns_pos t = pos_part t.sec * 1000000000 + pos_part t.nsec

abbrev pub ns_neg : Timespec → ℕ
ns_neg t = neg_part t.sec * 1000000000 + neg_part t.nsec

-- The nanoseconds that a timespec stands for.
unfoldable pub to_ns : Timespec → ℤ
to_ns t = sub_ℕ (ns_pos t) (ns_neg t)

-- A timespec with its nanoseconds in range.
pub record IsNormal (t : Timespec) : Type 0 where
  pub nonneg : pos 0 ≤ℤ t.nsec
  pub below : t.nsec ≤ℤ pos 999999999

pub to_ns_parts : (t : Timespec) → pos_part (to_ns t) + ns_neg t ≡ neg_part (to_ns t) + ns_pos t
unfolding to_ns
to_ns_parts t = ground arith

-- What `timespec_add` does to the two parts.
pub timespec_add_parts :
    (a b : Timespec)
    → ns_pos (timespec_add a b) + ns_neg a + ns_neg b
      ≡ ns_neg (timespec_add a b) + ns_pos a + ns_pos b
unfolding timespec_add
timespec_add_parts a b = ground (
  arith,
  +ℤ_parts a.sec b.sec,
  +ℤ_parts a.nsec b.nsec,
  +ℤ_parts (a.sec +ℤ b.sec) (pos 1),
  -ℤ_parts (a.nsec +ℤ b.nsec) billion,
)

pub timespec_sub_parts :
    (a b : Timespec)
    → ns_pos (timespec_sub a b) + ns_neg a + ns_pos b
      ≡ ns_neg (timespec_sub a b) + ns_pos a + ns_neg b
unfolding timespec_sub
timespec_sub_parts a b = ground (
  arith,
  -ℤ_parts a.sec b.sec,
  -ℤ_parts a.nsec b.nsec,
  -ℤ_parts (a.sec -ℤ b.sec) (pos 1),
  +ℤ_parts (a.nsec -ℤ b.nsec) billion,
)

-- In nanoseconds, the sum of two times is the sum of the two.
pub to_ns-timespec_add : (a b : Timespec) → to_ns (timespec_add a b) ≡ to_ns a +ℤ to_ns b
to_ns-timespec_add a b = eq_of_parts _ _ (
    omega (
      arith,
      to_ns_parts (timespec_add a b),
      to_ns_parts a,
      to_ns_parts b,
      timespec_add_parts a b,
      +ℤ_parts (to_ns a) (to_ns b),
    ))

-- In nanoseconds, the difference of two times is the difference of the two.
pub to_ns-timespec_sub : (a b : Timespec) → to_ns (timespec_sub a b) ≡ to_ns a -ℤ to_ns b
to_ns-timespec_sub a b = eq_of_parts _ _ (
    omega (
      arith,
      to_ns_parts (timespec_sub a b),
      to_ns_parts a,
      to_ns_parts b,
      timespec_sub_parts a b,
      -ℤ_parts (to_ns a) (to_ns b),
    ))

-- The sum of two normal times is normal: its nanoseconds are from 0 to 999999999.
pub timespec_add-IsNormal : (a b : Timespec) → IsNormal a → IsNormal b → IsNormal (timespec_add a b)
unfolding timespec_add
timespec_add-IsNormal a b na nb =
    ground (arith, +ℤ_parts a.nsec b.nsec, -ℤ_parts (a.nsec +ℤ b.nsec) billion)

pub timespec_sub-IsNormal : (a b : Timespec) → IsNormal a → IsNormal b → IsNormal (timespec_sub a b)
unfolding timespec_sub
timespec_sub-IsNormal a b na nb =
    ground (arith, -ℤ_parts a.nsec b.nsec, +ℤ_parts (a.nsec -ℤ b.nsec) billion)

-- For normal times, the comparison says that one is before the other exactly when its nanoseconds are
-- fewer.
pub is_before_iff :
    (a b : Timespec)
    → IsNormal a
    → IsNormal b
    → (is_before a b ≡ true) ↔ (ltb_ℤ (to_ns a) (to_ns b) ≡ true)
unfolding timespec_compare
is_before_iff a b na nb = (
  λ h. ground (arith, to_ns_parts a, to_ns_parts b),
  λ h. ground (arith, to_ns_parts a, to_ns_parts b),
)
