-- ===== src/Timer/State.antt =====
-- The data of osal/linux/os_timer.c: timers, the threads that serve them, and the global lists. A
-- timer or a thread is its index in `__timer_array` or `thread_array`; a list of nodes is the list of
-- their indices, in order (Timer/Links and Timer/Store have the
-- pointers). A failed `assert` sets `fault`.
use pc.Base.{
  ℕ, zero, suc, Bool, true, false, not, ◌&&◌, ◌||◌, Option, List, [], ◌∷◌, update, remove,
}
use pc.Base.Int.{ℤ, pos, negsuc, ltb_ℤ}
use pc.Timer.Timespec.{Timespec, Itimerspec}

-- `TIMER_FREE`, `TIMER_INUSE`, `TIMER_DELETED`
pub data InUse : Type 0 where
  free in_use deleted : InUse

pub data ClockId : Type 0 where
  realtime monotonic process_cputime thread_cputime : ClockId

-- `sigev_notify`: SIGEV_SIGNAL, SIGEV_NONE, SIGEV_THREAD, and any other value.
pub data Notify : Type 0 where
  by_signal by_none by_thread by_other : Notify

pub data Errno : Type 0 where
  no_error enotsup enomem eagain einval : Errno

-- What `pthread_attr_getschedpolicy` and `pthread_attr_getschedparam` report of a `pthread_attr_t`.
pub record Attr : Type 0 where
  pub policy : ℕ
  pub priority : ℤ

-- `sigev_notify_attributes`: null, the caller's, or the timer's own `attr`.
pub data AttrPtr : Type 0 where
  null : AttrPtr
  given : Attr → AttrPtr
  own : AttrPtr

-- `struct sigevent`; a function and a value are pointers, and 0 is NULL.
pub record Sigevent : Type 0 where
  pub notify : Notify
  pub function : ℕ
  pub sival_ptr : ℕ
  pub attributes : AttrPtr

-- `struct timer_node`, less its links
pub record TimerNode : Type 0 where
  pub event : Sigevent
  pub clock : ClockId
  pub type : ℕ
  pub millisec : ℤ
  pub value : Itimerspec
  pub expirytime : Timespec
  pub attr : Attr
  pub abstime : Bool
  pub armed : Bool
  pub inuse : InUse
  pub thread : Option ℕ
  pub creator_pid : ℕ
  pub refcount : ℤ
  pub overrun_count : ℕ

-- `struct thread_node`, less its links
pub record ThreadNode : Type 0 where
  pub attr : Attr
  pub id : ℕ
  pub exists : Bool
  pub timer_queue : List ℕ
  pub current_timer : Option ℕ
  pub captured : ℕ
  pub clock_id : ClockId

-- The module's globals. `broadcasts` lists the threads whose condition was broadcast, latest first.
pub record State : Type 0 where
  pub timer : ℕ → TimerNode
  pub thread : ℕ → ThreadNode
  pub timer_free_list : List ℕ
  pub thread_free_list : List ℕ
  pub thread_active_list : List ℕ
  pub once : Bool
  pub init_failed : Bool
  pub errno : Errno
  pub broadcasts : List ℕ
  pub fault : Bool

-- What the operating system answers, the same for all the calls of one API call.
pub record Os : Type 0 where
  pub self : ℕ
  pub pid : ℕ
  pub default_attr : Attr
  -- the attributes that `pthread_attr_setschedpolicy (SCHED_RR)` and `setschedparam (prio)` leave
  pub attr_of : ℤ → Attr
  -- the result of `pthread_create`: the new thread, or a failure
  pub spawn : Option ℕ

-- `THREAD_MAXNODES`, `TIMER_MAX`, `DELAYTIMER_MAX`, and the index of `__timer_signal_thread_rclk`
abbrev pub thread_maxnodes : ℕ
thread_maxnodes = 16

abbrev pub timer_max : ℕ
timer_max = 256

abbrev pub delaytimer_max : ℕ
delaytimer_max = 2147483647

abbrev pub signal_thread : ℕ
signal_thread = 16

abbrev pub set_timer : State → ℕ → TimerNode → State
set_timer s t n = record s { timer = update s.timer t n }

abbrev pub set_thread : State → ℕ → ThreadNode → State
set_thread s k n = record s { thread = update s.thread k n }

-- `__set_errno`
abbrev pub set_errno : State → Errno → State
set_errno s e = record s { errno = e }

-- `assert (b)`
abbrev pub assert : State → Bool → State
assert s b = record s { fault = s.fault || not b }

-- `pthread_cond_broadcast (&thread->cond)`
abbrev pub broadcast : State → ℕ → State
broadcast s k = record s { broadcasts = k ∷ s.broadcasts }

-- `n + 1` and `n - 1`, for an `int` that counts references
abbrev pub increment : ℤ → ℤ
increment (pos n) = pos (suc n)
increment (negsuc zero) = pos 0
increment (negsuc (suc n)) = negsuc n

abbrev pub decrement : ℤ → ℤ
decrement (pos zero) = negsuc 0
decrement (pos (suc n)) = pos n
decrement (negsuc n) = negsuc (suc n)

abbrev pub is_zero : ℤ → Bool
is_zero (pos zero) = true
is_zero (pos (suc n)) = false
is_zero (negsuc n) = false

abbrev pub eq_ℤ : ℤ → ℤ → Bool
eq_ℤ a b = not (ltb_ℤ a b) && not (ltb_ℤ b a)

abbrev pub eq_clock : ClockId → ClockId → Bool
eq_clock realtime realtime = true
eq_clock monotonic monotonic = true
eq_clock process_cputime process_cputime = true
eq_clock thread_cputime thread_cputime = true
eq_clock _ _ = false

abbrev pub is_in_use : InUse → Bool
is_in_use in_use = true
is_in_use _ = false

abbrev pub is_empty : List ℕ → Bool
is_empty [] = true
is_empty (_ ∷ _) = false

-- `list_unlink_ip (&timer->links)`: the timer leaves the list that it is on, whichever that is.
unfoldable pub unlink_timer : State → ℕ → State
unlink_timer s t = record s {
  timer_free_list = remove t s.timer_free_list;
  thread = λ k. record (s.thread k) { timer_queue = remove t (s.thread k).timer_queue };
}
