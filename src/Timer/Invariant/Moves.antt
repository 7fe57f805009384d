-- ===== src/Timer/Invariant/Moves.antt =====
-- How the primitive updates of the timer module move timers between the lists.
use pc.Base.{
  ℕ, ◌≡◌, ◌≢◌, arith, ==_iff, ==_refl, ◌==◌, ◌||◌, Bool, true, false, some, List, mem, mem-remove,
  remove-Distinct, Bool-cases, inl, inr,
}
use pc.Timer.State.{
  Errno, State, TimerNode, ThreadNode, free, in_use, set_timer, set_thread, unlink_timer,
}
use pc.Timer.Threads.{queue_timer, insert_timer}
use pc.Timer.Order.{Sorted, insert-Sorted, mem-insert, remove-Sorted, Sorted-agree}
use pc.Timer.Invariant.{Lists, Counts}

-- The timer stands in no queue.
abbrev pub Unqueued : State → ℕ → Type 0
Unqueued s t = (k : ℕ) → mem t (s.thread k).timer_queue ≡ false

-- Fields that the lists do not depend on may change.
pub set_timer-Lists :
    (s : State) (t : ℕ) (n : TimerNode)
    → n.inuse ≡ (s.timer t).inuse
    → n.armed ≡ (s.timer t).armed
    → n.thread ≡ (s.timer t).thread
    → n.expirytime ≡ (s.timer t).expirytime
    → Lists s
    → Lists (set_timer s t n)
set_timer-Lists s t n eu ea et ee l = record {
  ready = l.ready;
  distinct = l.distinct;
  free_unused = λ u m. ground (arith, ==_iff t u, l.free_unused u);
  in_range = l.in_range;
  none_lost = λ u lt e. ground (arith, ==_iff t u, l.none_lost u);
  queue_used = λ k u m. ground (arith, ==_iff t u, l.queue_used k u);
  queue_armed = λ k u m. ground (arith, ==_iff t u, l.queue_armed k u);
  queue_owner = λ k u m. ground (arith, ==_iff t u, l.queue_owner k u);
  sorted = λ k.
      Sorted-agree _ _ (s.thread k).timer_queue (λ u m. ground (arith, ==_iff t u)) (l.sorted k);
}

-- Of a timer in no queue, all but its being free may change.
pub set-Unqueued-Lists :
    (s : State) (t : ℕ) (n : TimerNode)
    → n.inuse ≡ (s.timer t).inuse
    → Unqueued s t
    → Lists s
    → Lists (set_timer s t n)
set-Unqueued-Lists s t n eu out l = record {
  ready = l.ready;
  distinct = l.distinct;
  free_unused = λ u m. ground (arith, ==_iff t u, l.free_unused u);
  in_range = l.in_range;
  none_lost = λ u lt e. ground (arith, ==_iff t u, l.none_lost u);
  queue_used = λ k u m. ground (arith, ==_iff t u, l.queue_used k u);
  queue_armed = λ k u m. ground (arith, ==_iff t u, out k, l.queue_armed k u);
  queue_owner = λ k u m. ground (arith, ==_iff t u, out k, l.queue_owner k u);
  sorted = λ k.
      Sorted-agree _ _ (s.thread k).timer_queue (λ u m. ground (arith, ==_iff t u, out k))
        (l.sorted k);
}

-- So may everything, of a timer in no queue that is not free before or after.
pub set_used-Lists :
    (s : State) (t : ℕ) (n : TimerNode)
    → n.inuse ≢ free
    → (s.timer t).inuse ≢ free
    → Unqueued s t
    → Lists s
    → Lists (set_timer s t n)
set_used-Lists s t n new old out l = record {
  ready = l.ready;
  distinct = l.distinct;
  free_unused = λ u m. ground (arith, ==_iff t u, l.free_unused u, old);
  in_range = l.in_range;
  none_lost = λ u lt e. ground (arith, ==_iff t u, l.none_lost u, new);
  queue_used = λ k u m. ground (arith, ==_iff t u, out k, l.queue_used k u);
  queue_armed = λ k u m. ground (arith, ==_iff t u, out k, l.queue_armed k u);
  queue_owner = λ k u m. ground (arith, ==_iff t u, out k, l.queue_owner k u);
  sorted = λ k.
      Sorted-agree _ _ (s.thread k).timer_queue (λ u m. ground (arith, ==_iff t u, out k))
        (l.sorted k);
}

-- An unlinked timer stands in no queue.
pub unlink-Unqueued : (s : State) (t : ℕ) → Unqueued (unlink_timer s t) t
unfolding unlink_timer
unlink-Unqueued s t k = rw (mem-remove, ==_refl)

-- A timer that is not free can be unlinked.
pub unlink_timer-Lists :
    (s : State) (t : ℕ) → (s.timer t).inuse ≢ free → Lists s → Lists (unlink_timer s t)
unfolding unlink_timer
unlink_timer-Lists s t h l = record {
  ready = l.ready;
  distinct = remove-Distinct t s.timer_free_list l.distinct;
  free_unused = λ u m. ground (arith, mem-remove t u s.timer_free_list, l.free_unused u);
  in_range = λ u m. ground (arith, mem-remove t u s.timer_free_list, l.in_range u);
  none_lost =
      λ u lt e. ground (arith, ==_iff t u, mem-remove t u s.timer_free_list, l.none_lost u, h);
  queue_used = λ k u m. ground (arith, mem-remove t u (s.thread k).timer_queue, l.queue_used k u);
  queue_armed = λ k u m. ground (arith, mem-remove t u (s.thread k).timer_queue, l.queue_armed k u);
  queue_owner = λ k u m. ground (arith, mem-remove t u (s.thread k).timer_queue, l.queue_owner k u);
  sorted = λ k. remove-Sorted _ t (s.thread k).timer_queue (l.sorted k);
}

-- A thread may get another queue, in order and of timers that belong there.
pub set_thread-Lists :
    (s : State) (k : ℕ) (n : ThreadNode)
    → Sorted (λ t. (s.timer t).expirytime) n.timer_queue
    → ((t : ℕ) → mem t n.timer_queue ≡ true → (s.timer t).inuse ≡ in_use)
    → ((t : ℕ) → mem t n.timer_queue ≡ true → (s.timer t).armed ≡ true)
    → ((t : ℕ) → mem t n.timer_queue ≡ true → (s.timer t).thread ≡ some k)
    → Lists s
    → Lists (set_thread s k n)
set_thread-Lists s k n so used armed owner l = record {
  ready = l.ready;
  distinct = l.distinct;
  free_unused = l.free_unused;
  in_range = l.in_range;
  none_lost = l.none_lost;
  queue_used = λ j u m. ground (arith, ==_iff k j, used u, l.queue_used j u);
  queue_armed = λ j u m. ground (arith, ==_iff k j, armed u, l.queue_armed j u);
  queue_owner = λ j u m. ground (arith, ==_iff k j, owner u, l.queue_owner j u);
  sorted = λ j. elim (Bool-cases (k == j)) [ inl e ↦ rw e so | inr e ↦ rw e (l.sorted j) ];
}

-- With its queue as it was.
pub keep_queue-Lists :
    (s : State) (k : ℕ) (n : ThreadNode)
    → n.timer_queue ≡ (s.thread k).timer_queue
    → Lists s
    → Lists (set_thread s k n)
keep_queue-Lists s k n e l =
    set_thread-Lists s k n (rw e (l.sorted k)) (λ t m. l.queue_used k t (rw (← e) m))
      (λ t m. l.queue_armed k t (rw (← e) m)) (λ t m. l.queue_owner k t (rw (← e) m)) l

-- An armed timer of the thread joins its queue.
pub queue_timer-Lists :
    (s : State) (k t : ℕ)
    → (s.timer t).inuse ≡ in_use
    → (s.timer t).armed ≡ true
    → (s.timer t).thread ≡ some k
    → Lists s
    → Lists (queue_timer s k t).0
unfolding queue_timer
queue_timer-Lists s k t used armed owner l =
    set_thread-Lists s k _ (insert-Sorted _ t true (s.thread k).timer_queue (l.sorted k))
      (λ u m. ground (arith, ==_iff u t, grown u, l.queue_used k u))
      (λ u m. ground (arith, ==_iff u t, grown u, l.queue_armed k u))
      (λ u m. ground (arith, ==_iff u t, grown u, l.queue_owner k u)) l
  where
    grown :
        (u : ℕ)
        → mem u (insert_timer (λ v. (s.timer v).expirytime) t true (s.thread k).timer_queue).0
          ≡ (u == t || mem u (s.thread k).timer_queue)
    grown = mem-insert _ t true (s.thread k).timer_queue

-- The error number, the broadcasts, the lists of threads and the flags do not matter.
pub relabel-Lists :
    (s : State) (fs act : List ℕ) (i : Bool) (e : Errno) (bs : List ℕ) (f : Bool)
    → Lists s
    → Lists (record s {
      thread_free_list = fs;
      thread_active_list = act;
      init_failed = i;
      errno = e;
      broadcasts = bs;
      fault = f;
    })
relabel-Lists s fs act i e bs f l = record {
  ready = l.ready;
  distinct = l.distinct;
  free_unused = l.free_unused;
  in_range = l.in_range;
  none_lost = l.none_lost;
  queue_used = l.queue_used;
  queue_armed = l.queue_armed;
  queue_owner = l.queue_owner;
  sorted = l.sorted;
}

-- The counts depend on the timers alone.
pub timers-Counts : (s s' : State) → s'.timer ≡ s.timer → Counts s → Counts s'
timers-Counts s s' e c = record {
  held = λ t. rw e (c.held t);
  idle = λ t. rw e (c.idle t);
  settled = λ t. rw e (c.settled t);
}

-- And on what each timer says of its use and its references.
pub set_timer-Counts :
    (s : State) (t : ℕ) (n : TimerNode)
    → n.inuse ≡ (s.timer t).inuse
    → n.refcount ≡ (s.timer t).refcount
    → Counts s
    → Counts (set_timer s t n)
set_timer-Counts s t n eu er c = record {
  held = λ u e. ground (arith, ==_iff t u, c.held u);
  idle = λ u e. ground (arith, ==_iff t u, c.idle u);
  settled = λ u. ground (arith, ==_iff t u, c.settled u);
}
