-- ===== src/Timer/Store.antt =====
-- The lists of the timer module on the store of pointers: `timer_free_list` is list 0, and the queue of thread `k` is
-- list `k + 1`; the timers are the nodes. `init_module`, `__timer_alloc` and `__timer_dealloc` of
-- osal/linux/os_timer.c as they work on the pointers.
mod Tests
pub mod Refines
use pc.Base.{ℕ, zero, suc, Bool, List}
use pc.Timer.State.{State, timer_max}
use pc.Timer.Links.{Links, list_init, list_append, list_first, list_unlink_ip}
use pc.Timer.Links.Family.{head_of, Held}

abbrev pub list_of : State → ℕ → List ℕ
list_of s zero = s.timer_free_list
list_of s (suc k) = (s.thread k).timer_queue

abbrev pub free_head : ℕ
free_head = head_of timer_max 0

abbrev pub queue_head : ℕ → ℕ
queue_head k = head_of timer_max (suc k)

-- The store holds the lists of the state.
abbrev pub Represents : (ℕ → Bool) → Links → State → Type 0
Represents live m s = Held timer_max m live (list_of s)

-- `for (i = 0; i < TIMER_MAX; ++i) list_append (…)`, from `i` on
unfoldable pub append_all : ℕ → ℕ → Links → ℕ → Links
append_all zero i m head = m
append_all (suc n) i m head = append_all n (suc i) (list_append m head i) head

-- `init_module`, for the free list of timers
unfoldable pub init_on_links : Links → Links
init_on_links m = append_all timer_max 0 (list_init m free_head) free_head

-- `__timer_alloc`: the node, if the list is not empty, and the store
unfoldable pub alloc_on_links : Links → Links × ℕ
alloc_on_links m = (list_unlink_ip m (list_first m free_head), list_first m free_head)

-- `__timer_dealloc`
unfoldable pub dealloc_on_links : Links → ℕ → Links
dealloc_on_links m t = list_append (list_unlink_ip m t) free_head t
