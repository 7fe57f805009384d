-- ===== src/Osal/Sleep.antt =====
-- Delays: `usleep_ex`, `os_delay` and `os_sleep` of osal/linux/os_core.c and the delays of osal/osal_cmn.c.
use pc.Base.{ℕ, ◌+◌, ◌-◌, ◌*◌, ◌/◌, ◌%◌, ◌^◌, ◌<◌, ◌≤◌, arith, if◌then◌else◌}
use pc.Base.Int.{ℤ, pos, negsuc, ltb_ℤ, ◌-ℤ◌}
use pc.Osal.Deadline.{Timeval, scale}

-- An `int` that is converted to `unsigned`
abbrev pub to_unsigned : ℤ → ℕ
to_unsigned (pos n) = n % 2 ^ 32
to_unsigned (negsuc n) = 2 ^ 32 - 1 - n % 2 ^ 32

-- `usleep_ex`: the time that `select` is given
unfoldable pub usleep_ex : ℕ → Timeval
usleep_ex usecs = record { sec = usecs / 1000000; usec = usecs % 1000000 }

unfoldable pub os_delay : ℤ → Timeval
unfolding usleep_ex
os_delay usec = usleep_ex (to_unsigned usec)

unfoldable pub os_sleep : ℤ → Timeval
unfolding usleep_ex
os_sleep msec =
    let rest = if ltb_ℤ (pos 10) msec then msec -ℤ pos 10 else pos 1 in
    usleep_ex (to_unsigned (scale rest 1000))

unfoldable pub osal_udelay : ℤ → Timeval
unfolding os_delay
osal_udelay microseconds = os_delay microseconds

unfoldable pub osal_mdelay : ℤ → Timeval
unfolding os_delay
osal_mdelay milliseconds = os_delay (scale milliseconds 1000)

unfoldable pub osal_sleep : ℤ → Timeval
unfolding os_sleep
osal_sleep milliseconds = os_sleep milliseconds

abbrev pub microseconds_of : Timeval → ℕ
microseconds_of t = t.sec * 1000000 + t.usec

-- A sleep of 1 to 2147493 milliseconds asks for a time whose microseconds are in range, at most ten
-- milliseconds short of it, and never longer than it.
pub osal_sleep_lem :
    (ms : ℕ)
    → 0 < ms
    → ms ≤ 2147493
    → ((osal_sleep (pos ms)).usec < 1000000)
      × ((ms * 1000 ≤ microseconds_of (osal_sleep (pos ms)) + 10000)
          × (microseconds_of (osal_sleep (pos ms)) ≤ ms * 1000))
unfolding osal_sleep os_sleep usleep_ex ◌-ℤ◌
osal_sleep_lem ms h le = ground arith
