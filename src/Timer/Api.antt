-- ===== src/Timer/Api.antt =====
-- The API of osal/linux/os_timer.c: `os_timer_add`, `os_timer_del`, `os_timer_start`, `os_timer_stop`,
-- `os_timer_reset` and `os_timer_settime`.
use Prim.Native.Nat.{bit_and}
use pc.Base.{ℕ, ◌==◌, if◌then◌else◌, Bool, true, false, not, ◌||◌, Option, none, some}
use pc.Base.Int.{ℤ, pos, ltb_ℤ}
use pc.Timer.Timespec.{Timespec, Itimerspec, zero_timespec, zero_itimerspec, ms2ts}
use pc.Timer.State.{State, TimerNode, Sigevent, by_thread, given, monotonic, Os, set_timer}
use pc.Timer.Pool.{timer_valid}
use pc.Timer.Create.{timer_create}
use pc.Timer.Delete.{timer_delete, Outcome}
use pc.Timer.Settime.{timer_settime}

-- `TIMER_ONESHOT`, `TIMER_INTERVAL`, `TIMER_STOPPED`: `TIMER_ABSTIME`, which is 1, shifted
abbrev pub timer_oneshot : ℕ
timer_oneshot = 2

abbrev pub timer_interval : ℕ
timer_interval = 4

abbrev pub timer_stopped : ℕ
timer_stopped = 8

abbrev pub has_flag : ℕ → ℕ → Bool
has_flag flags f = not (bit_and flags f == 0)

-- `sev`, with the attributes of the given priority
abbrev pub thread_event : Os → ℤ → ℕ → ℕ → Sigevent
thread_event os prio handler arg = record {
  notify = by_thread;
  function = handler;
  sival_ptr = arg;
  attributes = given (os.attr_of prio);
}

-- `its`
abbrev pub first_value : ℤ → ℕ → Itimerspec
first_value millisec flag =
    let value = if has_flag flag timer_stopped then zero_timespec else ms2ts millisec in
    record {
      it_value = value;
      it_interval = if has_flag flag timer_oneshot then zero_timespec else value;
    }

-- A timer is created: note its type and period, then set it going.
unfoldable pub add_created : State → ℕ → ℤ → ℕ → Timespec → State × Option ℕ
add_created s t millisec flag now =
    let type = if has_flag flag timer_oneshot then timer_oneshot else timer_interval in
    let s1 = set_timer s t (record (s.timer t) { type = type; millisec = millisec }) in
    let set = timer_settime s1 (some t) flag (first_value millisec flag) now false in
    if timer_valid s (some t) then (set.0, if set.1 then some t else none) else (s, none)

-- What `__timer_create` gave: with no timer the call fails.
unfoldable pub add_next : State → Option ℕ → ℤ → ℕ → Timespec → State × Option ℕ
add_next s none millisec flag now = (s, none)
add_next s (some t) millisec flag now = add_created s t millisec flag now

-- `os_timer_add`: the new timer, or `none` for -1. `handler` 0 is NULL, and `has_id` is whether the
-- caller's `timerid` is not NULL.
unfoldable pub os_timer_add : Os → State → ℤ → ℤ → ℕ → ℕ → ℕ → Bool → Timespec → State × Option ℕ
os_timer_add os s prio millisec flag handler arg has_id now =
    if not (ltb_ℤ (pos 0) millisec) || (handler == 0 || not has_id)
    then (s, none)
    else let created = timer_create os s monotonic (some (thread_event os prio handler arg)) in
      add_next created.0 created.1 millisec flag now

unfoldable pub os_timer_del : State → ℕ → Option ℕ → Outcome
os_timer_del s self timerid = timer_delete s self timerid

-- `its` of `os_timer_start`
abbrev pub start_value : TimerNode → Itimerspec
start_value n = record {
  it_value = ms2ts n.millisec;
  it_interval = if n.type == timer_oneshot then zero_timespec else ms2ts n.millisec;
}

-- The state, and whether the result is 0 rather than -1.
abbrev pub as_status : State × Bool × Option Itimerspec → State × Bool
as_status r = (r.0, r.1)

unfoldable pub os_timer_start : State → Option ℕ → Timespec → State × Bool
os_timer_start s none now = (s, false)
os_timer_start s (some t) now =
    if timer_valid s (some t)
    then as_status (timer_settime s (some t) 0 (start_value (s.timer t)) now false)
    else (s, false)

unfoldable pub os_timer_stop : State → Option ℕ → Timespec → State × Bool
os_timer_stop s timerid now = as_status (timer_settime s timerid 0 zero_itimerspec now false)

unfoldable pub os_timer_reset : State → Option ℕ → Timespec → State × Bool
os_timer_reset s timerid now = os_timer_start s timerid now

unfoldable pub os_timer_settime : State → Option ℕ → ℤ → State × Bool
os_timer_settime s none millisec = (s, false)
os_timer_settime s (some t) millisec =
    if not (ltb_ℤ (pos 0) millisec)
    then (s, false)
    else if timer_valid s (some t)
    then (set_timer s t (record (s.timer t) { millisec = millisec }), true)
    else (s, false)
