-- ===== src/Osal/Deadline.antt =====
-- The absolute deadlines of osal/linux/os_core.c: `os_millisec_2_timespec`, and the same computation in
-- `os_sem_wait`, where the timeout is signed.
use pc.Base.{ℕ, ◌+◌, ◌*◌, ◌/◌, ◌%◌, ◌<◌, ◌≡◌, arith, if◌then◌else◌, leb}
use pc.Base.Int.{ℤ, pos, negsuc, pos_part, ◌+ℤ◌, ltb_ℤ}
use pc.Timer.Timespec.{Timespec, negate_ℕ}

-- `struct timeval`, as `gettimeofday` gives it
pub record Timeval : Type 0 where
  pub sec : ℕ
  pub usec : ℕ

-- `os_millisec_2_timespec`
unfoldable pub millisec_2_timespec : ℕ → Timeval → Timespec
millisec_2_timespec timeout now =
    let usec = timeout % 1000 * 1000 + now.usec in
    if leb 1000000 usec
    then record { sec = pos (now.sec + timeout / 1000 + 1); nsec = pos (usec % 1000000 * 1000) }
    else record { sec = pos (now.sec + timeout / 1000); nsec = pos (usec * 1000) }

-- `n / k`, `n % k` and `n * k` of an `int`
abbrev pub quot : ℤ → ℕ → ℤ
quot (pos n) k = pos (n / k)
quot (negsuc n) k = negate_ℕ ((n + 1) / k)

abbrev pub rem : ℤ → ℕ → ℤ
rem (pos n) k = pos (n % k)
rem (negsuc n) k = negate_ℕ ((n + 1) % k)

abbrev pub scale : ℤ → ℕ → ℤ
scale (pos n) k = pos (n * k)
scale (negsuc n) k = negate_ℕ ((n + 1) * k)

-- The deadline of `os_sem_wait`
unfoldable pub sem_deadline : ℤ → Timeval → Timespec
unfolding ◌+ℤ◌
sem_deadline timeout now =
    let usec = scale (rem timeout 1000) 1000 +ℤ pos now.usec in
    let sec = pos now.sec +ℤ quot timeout 1000 in
    if ltb_ℤ usec (pos 1000000)
    then record { sec = sec; nsec = scale usec 1000 }
    else record { sec = sec +ℤ pos 1; nsec = scale (rem usec 1000000) 1000 }

-- The nanoseconds of a deadline that is not before the epoch.
abbrev pub total_ns : Timespec → ℕ
total_ns t = pos_part t.sec * 1000000000 + pos_part t.nsec

-- For a time of day with less than a million microseconds, the deadline lies exactly the timeout after
-- it, to the nanosecond, and its nanoseconds are less than 1000000000.
pub millisec_2_timespec_lem :
    (timeout : ℕ) (now : Timeval)
    → now.usec < 1000000
    → (total_ns (millisec_2_timespec timeout now)
        ≡ now.sec * 1000000000 + now.usec * 1000 + timeout * 1000000)
      × (pos_part (millisec_2_timespec timeout now).nsec < 1000000000)
unfolding millisec_2_timespec
millisec_2_timespec_lem timeout now h = ground arith

-- For a timeout that is not negative, the deadline that os_sem_wait computes is the one of
-- os_millisec_2_timespec.
pub sem_deadline-eq :
    (timeout : ℕ) (now : Timeval) → sem_deadline (pos timeout) now ≡ millisec_2_timespec timeout now
unfolding sem_deadline millisec_2_timespec
sem_deadline-eq timeout now = ground arith
