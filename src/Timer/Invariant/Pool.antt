-- ===== src/Timer/Invariant/Pool.antt =====
-- Allocating and giving back timers keeps the lists.
use pc.Base.{
  ℕ, ◌<◌, ◌≡◌, ◌≢◌, arith, ==_iff, ==_refl, false, List, [], ◌∷◌, mem, remove, mem-append,
  mem-remove, remove-Distinct, snoc-Distinct,
}
use pc.Base.Int.{pos}
use pc.Timer.State.{State, free, in_use, deleted, timer_max}
use pc.Timer.Pool.{alloc_first, timer_dealloc}
use pc.Timer.Order.{remove-Sorted, Sorted-agree}
use pc.Timer.Invariant.{Lists, Counts}

-- A timer that is given back is at the end of the free list, and in no queue.
pub timer_dealloc-Lists : (s : State) (t : ℕ) → t < timer_max → Lists s → Lists (timer_dealloc s t)
unfolding timer_dealloc
timer_dealloc-Lists s t lt l = record {
  ready = l.ready;
  distinct =
      snoc-Distinct t (remove t s.timer_free_list) (remove-Distinct t s.timer_free_list l.distinct)
        (gone s.timer_free_list);
  free_unused = λ u m. ground (
    arith,
    ==_iff t u,
    ==_iff u t,
    mem-append u (remove t s.timer_free_list) (t ∷ []),
    mem-remove t u s.timer_free_list,
    l.free_unused u,
  );
  in_range = λ u m. ground (
    arith,
    ==_iff u t,
    mem-append u (remove t s.timer_free_list) (t ∷ []),
    mem-remove t u s.timer_free_list,
    l.in_range u,
  );
  none_lost = λ u ult e. ground (
    arith,
    ==_iff t u,
    ==_iff u t,
    mem-append u (remove t s.timer_free_list) (t ∷ []),
    mem-remove t u s.timer_free_list,
    l.none_lost u,
  );
  queue_used = λ k u m.
      ground (arith, ==_iff t u, mem-remove t u (s.thread k).timer_queue, l.queue_used k u);
  queue_armed = λ k u m.
      ground (arith, ==_iff t u, mem-remove t u (s.thread k).timer_queue, l.queue_armed k u);
  queue_owner = λ k u m.
      ground (arith, ==_iff t u, mem-remove t u (s.thread k).timer_queue, l.queue_owner k u);
  sorted = λ k.
      Sorted-agree _ _ (remove t (s.thread k).timer_queue) (λ u m. ground (arith, ==_iff t u))
        (remove-Sorted _ t (s.thread k).timer_queue (l.sorted k));
}
  where
    gone : (xs : List ℕ) → mem t (remove t xs) ≡ false
    gone xs = rw (mem-remove, ==_refl)

-- The first free timer is taken into use.
pub alloc_first-Lists :
    (s : State) (xs : List ℕ) → s.timer_free_list ≡ xs → Lists s → Lists (alloc_first s xs).0
unfolding alloc_first
alloc_first-Lists s [] e l = l
alloc_first-Lists s (t ∷ rest) e l = record {
  ready = l.ready;
  distinct = remove-Distinct t s.timer_free_list l.distinct;
  free_unused =
      λ u m. ground (arith, ==_iff t u, mem-remove t u s.timer_free_list, l.free_unused u);
  in_range = λ u m. ground (arith, mem-remove t u s.timer_free_list, l.in_range u);
  none_lost =
      λ u ult f. ground (arith, ==_iff t u, mem-remove t u s.timer_free_list, l.none_lost u);
  queue_used = λ k u m.
      ground (arith, ==_iff t u, mem-remove t u (s.thread k).timer_queue, l.queue_used k u);
  queue_armed = λ k u m.
      ground (arith, ==_iff t u, mem-remove t u (s.thread k).timer_queue, l.queue_armed k u);
  queue_owner = λ k u m.
      ground (arith, ==_iff t u, mem-remove t u (s.thread k).timer_queue, l.queue_owner k u);
  sorted = λ k.
      Sorted-agree _ _ (remove t (s.thread k).timer_queue) (λ u m. ground (arith, ==_iff t u))
        (remove-Sorted _ t (s.thread k).timer_queue (l.sorted k));
}

pub alloc_first-Counts : (s : State) (xs : List ℕ) → Counts s → Counts (alloc_first s xs).0
unfolding alloc_first
alloc_first-Counts s [] c = c
alloc_first-Counts s (t ∷ rest) c = record {
  held = λ u e. ground (arith, ==_iff t u, c.held u);
  idle = λ u e. ground (arith, ==_iff t u, c.idle u);
  settled = λ u. ground (arith, ==_iff t u, c.settled u);
}

-- A timer whose last reference goes is free, with no reference.
pub timer_dealloc-Counts :
    (s : State) (t : ℕ)
    → (s.timer t).refcount ≡ pos 0
    → ((u : ℕ) → u ≢ t → (s.timer u).inuse ≡ in_use → (s.timer u).refcount ≡ pos 1)
    → ((u : ℕ) → u ≢ t → (s.timer u).inuse ≡ free → (s.timer u).refcount ≡ pos 0)
    → ((u : ℕ) → u ≢ t → (s.timer u).inuse ≢ deleted)
    → Counts (timer_dealloc s t)
unfolding timer_dealloc
timer_dealloc-Counts s t z held idle settled = record {
  held = λ u e. ground (arith, ==_iff t u, held u);
  idle = λ u e. ground (arith, ==_iff t u, idle u);
  settled = λ u. ground (arith, ==_iff t u, settled u);
}
