-- ===== src/Timer/Service.antt =====
-- The thread that serves timers: `thread_func` and `thread_expire_timer` of osal/linux/os_timer.c. The
-- mutex is released while a handler runs and while the thread waits, so the loop is modelled in steps
-- between those points.
use pc.Base.{ℕ, zero, suc, ◌+◌, ltb, if◌then◌else◌, true, false, Option, none, some, List, [], ◌∷◌}
use pc.Base.Int.{◌-ℤ◌, pos_part}
use pc.Timer.Timespec.{Timespec, is_before, is_set, timespec_add, timespec_sub}
use pc.Timer.Timespec.Laws.{to_ns}
use pc.Timer.State.{
  State, TimerNode, by_thread, monotonic, set_timer, set_thread, broadcast, unlink_timer,
  delaytimer_max,
}
use pc.Timer.Threads.{queue_timer}

-- The inner `while`: skip the periods that are over and count them. `none`: the fuel has run out.
unfoldable pub catch_up : ℕ → Timespec → Timespec → Timespec → ℕ → Option (Timespec × ℕ)
catch_up zero now interval expiry overrun = none
catch_up (suc fuel) now interval expiry overrun = elim (is_before expiry now) [
  | false ↦ some (expiry, overrun)
  | true ↦
      catch_up fuel now interval (timespec_add expiry interval)
        (if ltb overrun delaytimer_max then overrun + 1 else overrun)
]

-- Enough rounds to reach `now` by a nanosecond at a time.
unfoldable pub catch_up_fuel : Timespec → Timespec → ℕ
catch_up_fuel now expiry = suc (pos_part (to_ns now -ℤ to_ns expiry))

-- The new expiry time and overrun count of a periodic timer.
unfoldable pub next_period : Timespec → Timespec → Timespec → Option (Timespec × ℕ)
next_period now interval expiry =
    let first = timespec_add expiry interval in
    catch_up (catch_up_fuel now first) now interval first 0

-- What the thread does next.
pub data Pass : Type 0 where
  -- the queue is empty: wait for the condition
  sleeps : Pass
  -- wait for the condition, or until the expiry time of the first timer
  sleeps_until : ℕ → Pass
  -- a timer is due: the state when the mutex is released, and the call of the handler, if any
  fires : State → ℕ → Option (ℕ × ℕ) → Pass
  -- the inner loop does not end
  diverges : Pass

-- `if (SIGEV_THREAD == sigev_notify) sigev_notify_function (sival_ptr)`
abbrev pub handler_call : TimerNode → Option (ℕ × ℕ)
handler_call n = elim n.event.notify [
  | by_thread ↦ some (n.event.function, n.event.sival_ptr)
  | _ ↦ none
]

-- The head of `thread_expire_timer`: note the timer that runs.
abbrev pub expire_begin : State → ℕ → ℕ → Pass
expire_begin s k t =
    fires (set_thread s k (record (s.thread k) { current_timer = some t })) t
      (handler_call (s.timer t))

-- A periodic timer goes back into the queue with its next expiry time.
unfoldable pub requeue : State → ℕ → ℕ → Option (Timespec × ℕ) → Pass
requeue s k t none = diverges
requeue s k t (some (expiry, overrun)) =
    let s1 = set_timer s t (record (s.timer t) { expirytime = expiry; overrun_count = overrun }) in
    expire_begin (queue_timer s1 k t).0 k t

-- A timer that is due leaves the queue, and goes back in if it is periodic.
unfoldable pub expire : State → ℕ → ℕ → Timespec → Pass
expire s k t now =
    let s1 = unlink_timer s t in
    let n = s1.timer t in
    if is_set n.value.it_interval
    then requeue s1 k t (next_period now n.value.it_interval n.expirytime)
    else expire_begin s1 k t

unfoldable pub pass_on : State → ℕ → Timespec → List ℕ → Pass
pass_on s k now [] = sleeps
pass_on s k now (t ∷ rest) =
    if is_before now (s.timer t).expirytime then sleeps_until t else expire s k t now

-- One round of the inner `for`, at the time `now` that the outer round has read.
unfoldable pub thread_pass : State → ℕ → Timespec → Pass
unfolding pass_on
thread_pass s k now = pass_on s k now (s.thread k).timer_queue

-- The end of `thread_expire_timer`, with the mutex taken again.
unfoldable pub expire_end : State → ℕ → State
expire_end s k = broadcast (set_thread s k (record (s.thread k) { current_timer = none })) k

-- The absolute time, on the real-time clock, up to which the thread waits for the timer.
unfoldable pub wait_deadline : TimerNode → Timespec → Timespec → Timespec
unfolding timespec_add timespec_sub
wait_deadline n now_monotonic now_realtime = elim n.clock [
  | monotonic ↦ timespec_add now_realtime (timespec_sub n.expirytime now_monotonic)
  | _ ↦ n.expirytime
]
