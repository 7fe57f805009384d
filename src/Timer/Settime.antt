-- ===== src/Timer/Settime.antt =====
-- `__timer_settime` and `__timer_thread_wakeup` of osal/linux/os_timer.c, for one caller: the mutex is
-- not given to another thread where the source releases it to read the clock.
use Prim.Native.Nat.{bit_and}
use pc.Base.{ℕ, ◌==◌, if◌then◌else◌, Bool, true, false, not, ◌&&◌, ◌||◌, Option, none, some}
use pc.Timer.Timespec.{
  Timespec, Itimerspec, zero_timespec, timespec_add, timespec_sub, is_set, bad_nsec,
}
use pc.Timer.State.{State, TimerNode, einval, set_timer, set_errno, unlink_timer}
use pc.Timer.Pool.{timer_valid, timer_addref, timer_delref}
use pc.Timer.Threads.{queue_timer, thread_wakeup}

-- `(flags & TIMER_ABSTIME) != 0`; `TIMER_ABSTIME` is 1.
abbrev pub is_abstime : ℕ → Bool
is_abstime flags = not (bit_and flags 1 == 0)

-- `*ovalue`: the interval, and the time left of an armed timer.
abbrev pub old_value : TimerNode → Timespec → Itimerspec
old_value n now = record {
  it_interval = n.value.it_interval;
  it_value = if n.armed then timespec_sub n.expirytime now else zero_timespec;
}

-- The second `timer_addref`, made where the clock is read again under the mutex.
unfoldable pub read_old : State → ℕ → ℕ → Bool → State
unfolding timer_addref
read_old s t flags want_old =
    if want_old && ((s.timer t).armed && is_abstime flags) then timer_addref s t else s

-- Put the armed timer into the queue of its thread, if it has one.
unfoldable pub enqueue : State → ℕ → Option ℕ → State × Bool
unfolding queue_timer
enqueue s t none = (s, false)
enqueue s t (some k) = queue_timer s k t

-- The new value is stored, and the timer leaves its queue.
unfoldable pub disarm : State → ℕ → Itimerspec → State
unfolding unlink_timer
disarm s t value =
    let s1 = unlink_timer (set_timer s t (record (s.timer t) { value = value })) t in
    set_timer s1 t (record (s1.timer t) { armed = false })

-- `timer->expirytime`: the given time, or the time from now.
unfoldable pub set_expiry : State → ℕ → ℕ → Itimerspec → Timespec → State
set_expiry s t flags value now =
    let expiry = if is_abstime flags then value.it_value else timespec_add now value.it_value in
    set_timer s t (record (s.timer t) { expirytime = expiry })

-- The timer joins the queue of its thread and is armed. The flag is `need_wakeup`.
unfoldable pub enqueue_armed : State → ℕ → State × Bool
unfolding enqueue
enqueue_armed s t =
    let queued = enqueue s t (s.timer t).thread in
    (set_timer queued.0 t (record (queued.0.timer t) { armed = true }), queued.1)

-- From `timer->value = *value` to the wake-up decision: a value other than zero arms the timer anew.
unfoldable pub arm : State → ℕ → ℕ → Itimerspec → Timespec → State × Bool
unfolding disarm set_expiry enqueue_armed
arm s t flags value now =
    let s2 = disarm s t value in
    let armed = enqueue_armed (set_expiry s2 t flags value now) t in
    if is_set value.it_value then armed else (s2, false)

-- `if (thread != NULL && need_wakeup) __timer_thread_wakeup (thread)`
abbrev pub wake : State → Option ℕ → Bool → State
wake s none _ = s
wake s (some k) need = if need then thread_wakeup s k else s

-- The part under the mutex, and the wake-up: the state, whether the result is 0 rather than -1, and what
-- is stored in `*ovalue`.
unfoldable pub settime_locked :
    State → ℕ → ℕ → Itimerspec → Timespec → Bool → State × Bool × Option Itimerspec
unfolding timer_addref timer_delref read_old arm
settime_locked s t flags value now want_old =
    let s1 = timer_addref s t in
    let s2 = read_old s1 t flags want_old in
    let armed = arm s2 t flags value now in
    if timer_valid s1 (some t)
    then (
      wake (timer_delref armed.0 t) (s2.timer t).thread armed.1,
      true,
      if want_old then some (old_value (s2.timer t) now) else none,
    )
    else (timer_delref (set_errno s1 einval) t, false, none)

-- `__timer_settime`. `now` is what the timer's clock reads; `want_old` is whether `ovalue` is not NULL.
unfoldable pub timer_settime :
    State → Option ℕ → ℕ → Itimerspec → Timespec → Bool → State × Bool × Option Itimerspec
unfolding settime_locked
timer_settime s none flags value now want_old = (set_errno s einval, false, none)
timer_settime s (some t) flags value now want_old =
    if bad_nsec value.it_interval || bad_nsec value.it_value
    then (set_errno s einval, false, none)
    else settime_locked s t flags value now want_old
