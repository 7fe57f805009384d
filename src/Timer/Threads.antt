-- ===== src/Timer/Threads.antt =====
-- The threads that serve timers: `__timer_thread_alloc`, `__timer_thread_dealloc`,
-- `__timer_thread_start`, `__timer_thread_find_matching`, `thread_cleanup` and the timer queue of
-- osal/linux/os_timer.c.
use pc.Base.{
  ℕ, ◌==◌, if◌then◌else◌, Bool, true, false, not, ◌&&◌, Option, none, some, List, [], ◌∷◌, ◌++◌,
  remove, mem,
}
use pc.Timer.Timespec.{Timespec, is_before}
use pc.Timer.State.{
  State, ThreadNode, Attr, ClockId, Os, signal_thread, set_thread, assert, broadcast, eq_ℤ,
  eq_clock, is_empty,
}
use pc.Timer.Pool.{thread_init}

unfoldable pub alloc_thread : Os → Attr → ClockId → State → List ℕ → State × Option ℕ
unfolding thread_init
alloc_thread os attr clock s [] = (s, none)
alloc_thread os attr clock s (k ∷ rest) =
    let s1 : State = record s { thread_free_list = rest } in
    let s2 = set_thread s1 k (thread_init os (some attr) clock (s1.thread k)) in
    (record s2 { thread_active_list = s2.thread_active_list ++ k ∷ [] }, some k)

-- `__timer_thread_alloc`
unfoldable pub thread_alloc : Os → Attr → ClockId → State → State × Option ℕ
unfolding alloc_thread
thread_alloc os attr clock s = alloc_thread os attr clock s s.thread_free_list

-- `thread_deinit`: a thread is given back with no timer left.
unfoldable pub thread_deinit : State → ℕ → State
thread_deinit s k = assert s (is_empty (s.thread k).timer_queue)

-- `__timer_thread_dealloc`. The node leaves the active list; `list_unlink` of a node that is on no list
-- goes through stray pointers, which is a fault.
unfoldable pub thread_dealloc : State → ℕ → State
unfolding thread_deinit
thread_dealloc s k =
    let s1 = assert (thread_deinit s k) (mem k s.thread_active_list) in
    record s1 {
      thread_active_list = remove k s1.thread_active_list;
      thread_free_list = s1.thread_free_list ++ k ∷ [];
    }

-- `__timer_thread_start`: the flag tells whether the thread runs.
unfoldable pub thread_start : Os → State → ℕ → State × Bool
thread_start os s k =
    let s1 = assert s (not (s.thread k).exists) in
    elim os.spawn [
      | some id ↦ (set_thread s1 k (record (s1.thread k) { exists = true; id = id }), true)
      | none ↦ (set_thread s1 k (record (s1.thread k) { exists = false }), false)
    ]

-- `__timer_thread_wakeup`
abbrev pub thread_wakeup : State → ℕ → State
thread_wakeup = broadcast

-- `thread_attr_compare`
abbrev pub thread_attr_compare : Attr → Attr → Bool
thread_attr_compare left right = left.policy == right.policy && eq_ℤ left.priority right.priority

unfoldable pub find_in : Attr → ClockId → (ℕ → ThreadNode) → List ℕ → Option ℕ
find_in attr clock thread [] = none
find_in attr clock thread (k ∷ rest) =
    if thread_attr_compare attr (thread k).attr && eq_clock clock (thread k).clock_id
    then some k
    else find_in attr clock thread rest

-- `__timer_thread_find_matching`
unfoldable pub find_matching : Attr → ClockId → State → Option ℕ
unfolding find_in
find_matching attr clock s = find_in attr clock s.thread s.thread_active_list

-- The walk of `__timer_thread_queue_timer`: `expiry` gives each timer's `expirytime`, and the flag is
-- the variable `athead`.
unfoldable pub insert_timer : (ℕ → Timespec) → ℕ → Bool → List ℕ → List ℕ × Bool
insert_timer expiry new athead [] = (new ∷ [], athead)
insert_timer expiry new athead (t ∷ rest) =
    let (rest', athead') = insert_timer expiry new false rest in
    if is_before (expiry new) (expiry t) then (new ∷ t ∷ rest, athead) else (t ∷ rest', athead')

-- `__timer_thread_queue_timer`
unfoldable pub queue_timer : State → ℕ → ℕ → State × Bool
queue_timer s k t =
    let (queue, athead) =
      insert_timer (λ u. (s.timer u).expirytime) t true (s.thread k).timer_queue in
    (set_thread s k (record (s.thread k) { timer_queue = queue }), athead)

-- `thread_cleanup`, run when a thread is killed
unfoldable pub thread_cleanup : Os → State → Option ℕ → State
unfolding thread_dealloc thread_start
thread_cleanup os s none = s
thread_cleanup os s (some k) =
    let s1 = assert s (not (k == signal_thread)) in
    let s2 = set_thread s1 k (record (s1.thread k) { exists = false; current_timer = none }) in
    let s3 : State =
      if is_empty (s2.thread k).timer_queue
      then thread_dealloc s2 k
      else (thread_start os s2 k).0 in
    broadcast s3 k
