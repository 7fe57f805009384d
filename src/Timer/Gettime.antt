-- ===== src/Timer/Gettime.antt =====
-- `__timer_gettime` and `__timer_getoverrun` of osal/linux/os_timer.c, which #if (0) leaves out of the build.
use pc.Base.{ℕ, if◌then◌else◌, Option, none, some}
use pc.Timer.Timespec.{Timespec, Itimerspec, zero_timespec, timespec_sub, is_before}
use pc.Timer.State.{State, TimerNode, einval, set_errno}
use pc.Timer.Pool.{timer_valid}

-- `__timer_getoverrun`: `none` is -1
unfoldable pub timer_getoverrun : State → Option ℕ → State × Option ℕ
timer_getoverrun s none = (set_errno s einval, none)
timer_getoverrun s (some t) =
    if timer_valid s (some t)
    then (s, some (s.timer t).overrun_count)
    else (set_errno s einval, none)

-- The time left of a timer at `now`: none of one that is not armed, or that is due.
unfoldable pub time_left : TimerNode → Timespec → Timespec
unfolding timespec_sub
time_left n now =
    if n.armed
    then if is_before now n.expirytime then timespec_sub n.expirytime now else zero_timespec
    else zero_timespec

-- `__timer_gettime`; `now` is what the timer's clock reads, and `none` is -1.
unfoldable pub timer_gettime : State → Option ℕ → Timespec → State × Option Itimerspec
unfolding time_left
timer_gettime s none now = (set_errno s einval, none)
timer_gettime s (some t) now =
    let n = s.timer t in
    if timer_valid s (some t)
    then (s, some (record { it_interval = n.value.it_interval; it_value = time_left n now }))
    else (set_errno s einval, none)
