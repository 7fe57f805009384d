-- ===== src/Timer/Timespec/Clock.antt =====
-- Times as the contract of the timer module reads them, told without the helpers of
-- osal/linux/os_timer.c, and that `timespec_compare` and `ms2ts` agree with them.
use pc.Base.{
  ℕ, suc, ◌+◌, ◌*◌, ◌/◌, ◌%◌, ◌≡◌, refl, zero, false, arith, Bool, not, ◌&&◌, ◌||◌, if◌then◌else◌,
  subst, Bool-cases, inl, inr,
}
use pc.Base.Int.{ℤ, pos, negsuc, ltb_ℤ, ◌+ℤ◌, ◌-ℤ◌}
use pc.Timer.Timespec.{
  Timespec, ms2ts, timespec_compare, is_before, is_set, nonzero, zero_timespec, negate_ℕ,
  timespec_add, billion,
}
use pc.Timer.Timespec.Laws.{to_ns, to_ns-timespec_add, IsNormal, timespec_add-IsNormal}

-- The seconds are fewer, or they are as many and the nanoseconds are fewer.
unfoldable pub earlier : Timespec → Timespec → Bool
earlier a b = ltb_ℤ a.sec b.sec || (not (ltb_ℤ b.sec a.sec) && ltb_ℤ a.nsec b.nsec)

-- The timespec of a number of nanoseconds.
abbrev pub of_ns : ℕ → Timespec
of_ns n = record { sec = pos (n / 1000000000); nsec = pos (n % 1000000000) }

-- The timespec of a number of milliseconds, each of a million nanoseconds; a negative number has both fields
-- negative or zero.
unfoldable pub millis : ℤ → Timespec
millis (pos n) = of_ns (n * 1000000)
millis (negsuc n) = record {
  sec = negate_ℕ (suc n * 1000000 / 1000000000);
  nsec = negate_ℕ (suc n * 1000000 % 1000000000);
}

-- The sum, with a second more when the nanoseconds come to a second.
unfoldable pub plus : Timespec → Timespec → Timespec
plus a b =
    let carry = not (ltb_ℤ (a.nsec +ℤ b.nsec) billion) in
    record {
      sec = if carry then (a.sec +ℤ b.sec) +ℤ pos 1 else a.sec +ℤ b.sec;
      nsec = if carry then (a.nsec +ℤ b.nsec) -ℤ billion else a.nsec +ℤ b.nsec;
    }

-- The comparison is by the seconds first, then by the nanoseconds.
pub is_before_eq : (a b : Timespec) → is_before a b ≡ earlier a b
unfolding timespec_compare earlier
is_before_eq a b = ground arith

sec_eq : (n : ℕ) → n / 1000 ≡ n * 1000000 / 1000000000
sec_eq n = omega arith

nsec_eq : (n : ℕ) → n % 1000 * 1000000 ≡ n * 1000000 % 1000000000
nsec_eq n = omega arith

-- A number of milliseconds, of either sign, is converted to the seconds and the nanoseconds of a
-- million nanoseconds for each, both rounded towards zero.
pub ms2ts_eq : (z : ℤ) → ms2ts z ≡ millis z
unfolding ms2ts millis
ms2ts_eq (pos n) = rw (sec_eq n, nsec_eq n) refl
ms2ts_eq (negsuc n) =
    let e : n + 1 ≡ suc n = omega arith in rw (e, sec_eq (suc n), nsec_eq (suc n)) refl

-- The addition carries a second.
pub timespec_add_eq : (a b : Timespec) → timespec_add a b ≡ plus a b
unfolding timespec_add plus
timespec_add_eq a b = elim (Bool-cases (ltb_ℤ (a.nsec +ℤ b.nsec) billion)) [
  | inl e ↦ rw e refl
  | inr e ↦ rw e refl
]

pub to_ns-plus : (a b : Timespec) → to_ns (plus a b) ≡ to_ns a +ℤ to_ns b
to_ns-plus a b =
    subst (λ x. to_ns x ≡ to_ns a +ℤ to_ns b) (timespec_add_eq a b) (to_ns-timespec_add a b)

pub plus-IsNormal : (a b : Timespec) → IsNormal a → IsNormal b → IsNormal (plus a b)
plus-IsNormal a b h k = subst IsNormal (timespec_add_eq a b) (timespec_add-IsNormal a b h k)

-- A time that is not zero: it is before zero or after it.
unfoldable pub lasting : Timespec → Bool
lasting t =
    let zero_time : Timespec = record { sec = pos 0; nsec = pos 0 } in
    earlier t zero_time || earlier zero_time t

nonzero_eq : (z : ℤ) → nonzero z ≡ (ltb_ℤ z (pos 0) || ltb_ℤ (pos 0) z)
nonzero_eq (pos zero) = refl
nonzero_eq (pos (suc n)) = ground arith
nonzero_eq (negsuc n) = ground arith

pub is_set_eq : (t : Timespec) → is_set t ≡ lasting t
unfolding lasting earlier
is_set_eq t = ground (arith, nonzero_eq t.sec, nonzero_eq t.nsec)

pub zero-lasting : lasting zero_timespec ≡ false
unfolding lasting earlier
zero-lasting = refl
