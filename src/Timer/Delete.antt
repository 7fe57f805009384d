-- ===== src/Timer/Delete.antt =====
-- `__timer_delete` of osal/linux/os_timer.c. It may wait, with the mutex released, for the timer's
-- handler to end: `timer_delete` is the call up to its first wait or its end, and `delete_resume` goes
-- on when the waiting thread has the mutex again.
use pc.Base.{ℕ, ◌==◌, if◌then◌else◌, Bool, true, false, not, ◌&&◌, Option, none, some}
use pc.Timer.State.{State, deleted, einval, set_timer, set_errno, unlink_timer}
use pc.Timer.Pool.{timer_valid, timer_delref}

pub data Outcome : Type 0 where
  -- the call returned: the state, and whether the result is 0 rather than -1
  returns : State → Bool → Outcome
  -- it waits for the condition of a thread
  waits : State → ℕ → Outcome

-- `current_timer == timer`
abbrev pub is_current : Option ℕ → ℕ → Bool
is_current none t = false
is_current (some u) t = u == t

-- `(thread->current_timer == timer) && (thread->id != pthread_self())`
abbrev pub must_wait : State → ℕ → ℕ → ℕ → Bool
must_wait s self k t = is_current (s.thread k).current_timer t && not ((s.thread k).id == self)

-- The end of the call: the timer leaves its queue and loses its reference.
unfoldable pub delete_finish : State → ℕ → State
delete_finish s t =
    let s1 = set_timer s t (record (s.timer t) { inuse = deleted }) in
    timer_delref (unlink_timer s1 t) t

-- The `while` loop, from a test on; after a wait the test is made again, and nothing else.
unfoldable pub delete_resume : State → ℕ → ℕ → ℕ → Outcome
delete_resume s self k t =
    if must_wait s self k t then waits s k else returns (delete_finish s t) true

unfoldable pub delete_valid : State → ℕ → ℕ → Bool → Option ℕ → Outcome
delete_valid s self t true (some k) = delete_resume s self k t
delete_valid s self t true none = returns (delete_finish s t) true
delete_valid s self t false _ = returns (delete_finish s t) true

-- `__timer_delete`, for the calling thread `self`
unfoldable pub timer_delete : State → ℕ → Option ℕ → Outcome
timer_delete s self none = returns (set_errno s einval) false
timer_delete s self (some t) =
    if timer_valid s (some t)
    then delete_valid s self t (s.timer t).armed (s.timer t).thread
    else returns (set_errno s einval) false
