-- ===== src/Timer/Timespec.antt =====
-- The timespec helpers of osal/linux/os_timer.c. Seconds and nanoseconds are signed in the source, and
-- signed here; `Timespec.Laws` shows that no field leaves a 32-bit `long` on the values that occur.
pub mod Laws
pub mod Clock
use Prim.Native.Nat.{Ordering}
use pc.Base.{ℕ, zero, suc, ◌+◌, ◌-◌, ◌*◌, ◌/◌, ◌%◌, if◌then◌else◌, Bool, true, false, not, ◌||◌}
use pc.Base.Int.{ℤ, pos, negsuc, ◌+ℤ◌, ◌-ℤ◌, ltb_ℤ}

-- `struct timespec`
pub record Timespec : Type 0 where
  pub sec : ℤ
  pub nsec : ℤ

-- `zero_timespec`
abbrev pub zero_timespec : Timespec
zero_timespec = record { sec = pos 0; nsec = pos 0 }

-- `struct itimerspec`
pub record Itimerspec : Type 0 where
  pub it_interval : Timespec
  pub it_value : Timespec

-- `zero_itimerspec`
abbrev pub zero_itimerspec : Itimerspec
zero_itimerspec = record { it_interval = zero_timespec; it_value = zero_timespec }

-- -n
abbrev pub negate_ℕ : ℕ → ℤ
negate_ℕ zero = pos 0
negate_ℕ (suc n) = negsuc n

-- `ms / 1000` and `(ms % 1000) * 1000000`: C division rounds towards zero, and the remainder has the
-- sign of `ms`.
unfoldable pub ms2ts : ℤ → Timespec
ms2ts (pos n) = record { sec = pos (n / 1000); nsec = pos (n % 1000 * 1000000) }
ms2ts (negsuc n) = record {
  sec = negate_ℕ ((n + 1) / 1000);
  nsec = negate_ℕ ((n + 1) % 1000 * 1000000);
}

-- `lt`, `eq` and `gt` stand for -1, 0 and 1.
unfoldable pub timespec_compare : Timespec → Timespec → Ordering
timespec_compare left right =
    if ltb_ℤ left.sec right.sec
    then Ordering.lt
    else if ltb_ℤ right.sec left.sec
    then Ordering.gt
    else if ltb_ℤ left.nsec right.nsec
    then Ordering.lt
    else if ltb_ℤ right.nsec left.nsec
    then Ordering.gt
    else Ordering.eq

-- `timespec_compare (left, right) < 0`
abbrev pub is_before : Timespec → Timespec → Bool
is_before left right = elim (timespec_compare left right) [ Ordering.lt ↦ true | _ ↦ false ]

abbrev pub billion : ℤ
billion = pos 1000000000

unfoldable pub timespec_add : Timespec → Timespec → Timespec
timespec_add left right =
    let sec : ℤ = left.sec +ℤ right.sec in
    let nsec : ℤ = left.nsec +ℤ right.nsec in
    if ltb_ℤ nsec billion
    then record { sec = sec; nsec = nsec }
    else record { sec = sec +ℤ pos 1; nsec = nsec -ℤ billion }

unfoldable pub timespec_sub : Timespec → Timespec → Timespec
timespec_sub left right =
    let sec : ℤ = left.sec -ℤ right.sec in
    let nsec : ℤ = left.nsec -ℤ right.nsec in
    if ltb_ℤ nsec (pos 0)
    then record { sec = sec -ℤ pos 1; nsec = nsec +ℤ billion }
    else record { sec = sec; nsec = nsec }

-- `x != 0`
abbrev pub nonzero : ℤ → Bool
nonzero (pos zero) = false
nonzero (pos (suc n)) = true
nonzero (negsuc n) = true

-- `(0 != ts.tv_sec) || (0 != ts.tv_nsec)`
abbrev pub is_set : Timespec → Bool
is_set ts = nonzero ts.sec || nonzero ts.nsec

-- `ts.tv_nsec < 0 || ts.tv_nsec >= 1000000000`
abbrev pub bad_nsec : Timespec → Bool
bad_nsec ts = ltb_ℤ ts.nsec (pos 0) || not (ltb_ℤ ts.nsec billion)
