-- ===== src/Timer/Pool.antt =====
-- The allocation of timers: `init_module`, `__timer_alloc`, `__timer_dealloc`, `timer_valid`,
-- `timer_addref` and `timer_delref` of osal/linux/os_timer.c.
use pc.Base.{ℕ, if◌then◌else◌, Bool, true, false, Option, none, some, List, [], ◌∷◌, ◌++◌, count_up}
use pc.Base.Int.{pos}
use pc.Timer.State.{
  State, ThreadNode, free, in_use, Attr, ClockId, realtime, Os, timer_max, thread_maxnodes,
  signal_thread, set_timer, set_thread, assert, increment, decrement, is_zero, is_in_use,
  unlink_timer,
}

-- `thread_init`
unfoldable pub thread_init : Os → Option Attr → ClockId → ThreadNode → ThreadNode
thread_init os attr clock n = record n {
  attr = elim attr [ some a ↦ a | none ↦ os.default_attr ];
  exists = false;
  timer_queue = [];
  current_timer = none;
  captured = os.self;
  clock_id = clock;
}

-- `init_module`: every timer is free, every thread node too.
unfoldable pub init_module : Os → State → State
unfolding thread_init
init_module os s =
    let all_free : State = record s {
      timer_free_list = count_up timer_max 0;
      thread_free_list = count_up thread_maxnodes 0;
      thread_active_list = [];
      timer = λ t. record (s.timer t) { inuse = free };
    } in
    set_thread all_free signal_thread (thread_init os none realtime (s.thread signal_thread))

-- `reinit_after_fork`: the mutex, which the model has no state for, is made anew as well.
unfoldable pub reinit_after_fork : Os → State → State
unfolding init_module
reinit_after_fork os s = init_module os s

-- `pthread_once (&__timer_init_once_control, __timer_init_once)`
unfoldable pub timer_init_once : Os → State → State
unfolding init_module
timer_init_once os s = if s.once then s else record (init_module os s) { once = true }

unfoldable pub alloc_first : State → List ℕ → State × Option ℕ
unfolding unlink_timer
alloc_first s [] = (s, none)
alloc_first s (t ∷ rest) =
    let s1 = unlink_timer s t in
    (set_timer s1 t (record (s1.timer t) { inuse = in_use; refcount = pos 1 }), some t)

-- `__timer_alloc`
unfoldable pub timer_alloc : State → State × Option ℕ
unfolding alloc_first
timer_alloc s = alloc_first s s.timer_free_list

-- `__timer_dealloc`
unfoldable pub timer_dealloc : State → ℕ → State
unfolding unlink_timer
timer_dealloc s t =
    let s1 = unlink_timer (assert s (is_zero (s.timer t).refcount)) t in
    let s2 = set_timer s1 t (record (s1.timer t) { thread = none; inuse = free }) in
    record s2 { timer_free_list = s2.timer_free_list ++ t ∷ [] }

-- `timer_valid`, for a pointer that may be NULL
abbrev pub timer_valid : State → Option ℕ → Bool
timer_valid s none = false
timer_valid s (some t) = is_in_use (s.timer t).inuse

unfoldable pub timer_addref : State → ℕ → State
timer_addref s t = set_timer s t (record (s.timer t) { refcount = increment (s.timer t).refcount })

unfoldable pub timer_delref : State → ℕ → State
unfolding timer_dealloc
timer_delref s t =
    let s1 = set_timer s t (record (s.timer t) { refcount = decrement (s.timer t).refcount }) in
    if is_zero (s1.timer t).refcount then timer_dealloc s1 t else s1
