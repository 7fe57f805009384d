-- ===== src/Osal/Clock.antt =====
-- The clocks: `os_tick_get`, `os_get_time`, `os_get_reltime` and `os_current_thread` of osal/linux/os_core.c, and
-- `osal_get_systemtime` of include/cv_osal.h. What the system's functions answer is an argument.
use pc.Base.{ℕ, ◌+◌, ◌-◌, ◌*◌, ◌/◌, ◌%◌, ◌^◌, ◌≡◌, refl, arith, true, if◌then◌else◌}
use pc.Base.Int.{ℤ, pos, negsuc}
use pc.Timer.State.{is_zero}
use pc.Osal.Deadline.{Timeval}

-- What `clock_gettime` answers: its result, and the time when that is 0. `leftover` is what a caller finds as
-- the result of a function that ends without one.
pub record ClockOs : Type 0 where
  pub ret : ℤ
  pub sec : ℕ
  pub nsec : ℕ
  pub leftover : ℤ

-- `os_tick_get`: what `times` answers, a `clock_t`, as a `uint64_t`
unfoldable pub os_tick_get : ℤ → ℕ
os_tick_get (pos n) = n % 2 ^ 64
os_tick_get (negsuc n) = 2 ^ 64 - 1 - n % 2 ^ 64

-- `os_get_time`: the result and the time that `gettimeofday` gives; `tv` holds what it held before where the call
-- fails.
unfoldable pub os_get_time : ℤ × Timeval → ℤ × Timeval
os_get_time (res, tv) = (res, tv)

-- `os_get_reltime`, with what `t` held before: it has no `return` for a failure.
unfoldable pub os_get_reltime : ClockOs → Timeval → ℤ × Timeval
os_get_reltime os t =
    if is_zero os.ret
    then (pos 0, record { sec = os.sec; usec = os.nsec / 1000 })
    else (os.leftover, t)

-- `osal_get_systemtime`, with what its variable `t` held before
unfoldable pub osal_get_systemtime : ClockOs → Timeval → ℕ
unfolding os_get_reltime
osal_get_systemtime os t =
    let (res, now) = os_get_reltime os t in
    if is_zero res then 0 else (now.sec * 1000 + now.usec / 1000) % 2 ^ 32

-- `os_current_thread`
unfoldable pub os_current_thread : ℤ → ℤ
os_current_thread tid = tid

-- The milliseconds of the clock, as `uint32_t`
abbrev pub milliseconds : ClockOs → ℕ
milliseconds os = (os.sec * 1000 + os.nsec / 1000000) % 2 ^ 32

-- When the clock can be read, os_get_reltime stores its seconds and microseconds, and
-- osal_get_systemtime gives 0 all the same.
pub osal_get_systemtime-zero :
    (os : ClockOs) (t : Timeval)
    → is_zero os.ret ≡ true
    → ((os_get_reltime os t).1 ≡ record { sec = os.sec; usec = os.nsec / 1000 })
      × (osal_get_systemtime os t ≡ 0)
unfolding osal_get_systemtime os_get_reltime
osal_get_systemtime-zero os t h = rw h (refl, refl)

-- The clock as it was meant to be read: with the test turned round, the result is the clock's milliseconds.
pub milliseconds-reltime :
    (os : ClockOs) (t : Timeval)
    → is_zero os.ret ≡ true
    → let now = (os_get_reltime os t).1 in
      (now.sec * 1000 + now.usec / 1000) % 2 ^ 32 ≡ milliseconds os
unfolding os_get_reltime
milliseconds-reltime os t h = rw h (omega arith)
