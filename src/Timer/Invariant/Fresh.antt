-- ===== src/Timer/Invariant/Fresh.antt =====
-- A timer that `__timer_create` has taken and not yet handed out, and what becomes of it.
use pc.Base.{
  ℕ, ◌<◌, ◌≡◌, refl, arith, ==_iff, ==_refl, Bool, Option, some, none, List, [], ◌∷◌, mem-remove,
  Option-cases, inl, inr, ◌∙◌,
}
use pc.Base.Int.{pos}
use pc.Timer.State.{
  Errno, State, TimerNode, ThreadNode, in_use, timer_max, set_timer, set_thread, Os,
}
use pc.Timer.Pool.{alloc_first, timer_dealloc, timer_delref}
use pc.Timer.Threads.{thread_dealloc, thread_start}
use pc.Timer.Create.{create_bail}
use pc.Timer.Invariant.{Inv}
use pc.Timer.Invariant.Moves.{
  Unqueued, set_timer-Lists, set-Unqueued-Lists, set_thread-Lists, keep_queue-Lists, relabel-Lists,
  timers-Counts, set_timer-Counts,
}
use pc.Timer.Invariant.Pool.{
  timer_dealloc-Lists, timer_dealloc-Counts, alloc_first-Lists, alloc_first-Counts,
}
use pc.Timer.Invariant.Locked.{delref_last}

-- A timer that `__timer_create` has taken and not yet handed out.
pub record Fresh (s : State) (t : ℕ) : Type 0 where
  pub inv : Inv s
  pub used : (s.timer t).inuse ≡ in_use
  pub bound : t < timer_max
  pub out : Unqueued s t

pub set_timer-Fresh :
    (s : State) (t : ℕ) (n : TimerNode)
    → n.inuse ≡ (s.timer t).inuse
    → n.refcount ≡ (s.timer t).refcount
    → Fresh s t
    → Fresh (set_timer s t n) t
set_timer-Fresh s t n eu er f = record {
  inv = record {
    lists = set-Unqueued-Lists s t n eu f.out f.inv.lists;
    counts = set_timer-Counts s t n eu er f.inv.counts;
  };
  used = rw (==_refl t) (eu ∙ f.used);
  bound = f.bound;
  out = f.out;
}

pub relabel-Fresh :
    (s : State) (t : ℕ) (fs act : List ℕ) (i : Bool) (e : Errno) (bs : List ℕ) (b : Bool)
    → Fresh s t
    → Fresh
        (record s {
          thread_free_list = fs;
          thread_active_list = act;
          init_failed = i;
          errno = e;
          broadcasts = bs;
          fault = b;
        })
        t
relabel-Fresh s t fs act i e bs b f = record {
  inv = record {
    lists = relabel-Lists s fs act i e bs b f.inv.lists;
    counts = timers-Counts s _ refl f.inv.counts;
  };
  used = f.used;
  bound = f.bound;
  out = f.out;
}

pub keep_queue-Fresh :
    (s : State) (k t : ℕ) (n : ThreadNode)
    → n.timer_queue ≡ (s.thread k).timer_queue
    → Fresh s t
    → Fresh (set_thread s k n) t
keep_queue-Fresh s k t n e f = record {
  inv = record {
    lists = keep_queue-Lists s k n e f.inv.lists;
    counts = timers-Counts s _ refl f.inv.counts;
  };
  used = f.used;
  bound = f.bound;
  out = λ j. ground (arith, ==_iff k j, f.out j);
}

pub empty_queue-Fresh :
    (s : State) (k t : ℕ) (n : ThreadNode)
    → n.timer_queue ≡ []
    → Fresh s t
    → Fresh (set_thread s k n) t
empty_queue-Fresh s k t n e f = record {
  inv = record {
    lists =
        set_thread-Lists s k n (rw e tt) (λ u m. ground arith) (λ u m. ground arith)
          (λ u m. ground arith) f.inv.lists;
    counts = timers-Counts s _ refl f.inv.counts;
  };
  used = f.used;
  bound = f.bound;
  out = λ j. ground (arith, ==_iff k j, f.out j);
}

-- The first free timer is fresh.
pub alloc_first-Fresh :
    (s : State) (t : ℕ) (rest : List ℕ)
    → s.timer_free_list ≡ t ∷ rest
    → Inv s
    → Fresh (alloc_first s (t ∷ rest)).0 t
unfolding alloc_first
alloc_first-Fresh s t rest e v = record {
  inv = record {
    lists = alloc_first-Lists s (t ∷ rest) e v.lists;
    counts = alloc_first-Counts s (t ∷ rest) v.counts;
  };
  used = rw (==_refl t);
  bound = v.lists.in_range t (rw e (ground (arith, ==_refl t)));
  out = λ k. rw (mem-remove, ==_refl);
}

pub dealloc-refcount :
    (s : State) (t : ℕ) → ((timer_dealloc s t).timer t).refcount ≡ (s.timer t).refcount
unfolding timer_dealloc
dealloc-refcount s t = rw (==_refl t)

-- A timer with no reference may be given back twice.
pub dealloc_twice-Inv :
    (s : State) (t : ℕ)
    → Inv (timer_dealloc s t)
    → t < timer_max
    → (s.timer t).refcount ≡ pos 0
    → Inv (timer_dealloc (timer_dealloc s t) t)
dealloc_twice-Inv s t v lt z = record {
  lists = timer_dealloc-Lists _ t lt v.lists;
  counts =
      timer_dealloc-Counts _ t (dealloc-refcount s t ∙ z) (λ u _. v.counts.held u)
        (λ u _. v.counts.idle u) (λ u _. v.counts.settled u);
}

-- Giving up hands the timer back.
pub bail_timer-Inv : (s : State) (t : ℕ) → Fresh s t → Inv (timer_dealloc (timer_delref s t) t)
bail_timer-Inv s t f = rw (delref_last s t (f.inv.counts.held t f.used)) (
    dealloc_twice-Inv s0 t
      (record {
        lists =
            timer_dealloc-Lists s0 t f.bound
              (set_timer-Lists s t _ refl refl refl refl f.inv.lists);
        counts =
            timer_dealloc-Counts s0 t (rw (==_refl t))
              (λ u ne e. ground (arith, ==_iff t u, f.inv.counts.held u))
              (λ u ne e. ground (arith, ==_iff t u, f.inv.counts.idle u))
              (λ u ne. ground (arith, ==_iff t u, f.inv.counts.settled u));
      })
      f.bound (rw (==_refl t)))
  where
    s0 : State
    s0 = set_timer s t (record (s.timer t) { refcount = pos 0 })

pub thread_dealloc-Fresh : (s : State) (k t : ℕ) → Fresh s t → Fresh (thread_dealloc s k) t
unfolding thread_dealloc
thread_dealloc-Fresh s k t f = relabel-Fresh s t _ _ _ _ _ _ f

pub create_bail-Inv :
    (s : State) (thread : Option ℕ) (t : ℕ) → Fresh s t → Inv (create_bail s thread t)
create_bail-Inv s none t f = unfold create_bail in bail_timer-Inv s t f
create_bail-Inv s (some k) t f =
    unfold create_bail in bail_timer-Inv (thread_dealloc s k) t (thread_dealloc-Fresh s k t f)

pub thread_start-Fresh :
    (os : Os) (s : State) (k t : ℕ) → Fresh s t → Fresh (thread_start os s k).0 t
unfolding thread_start
thread_start-Fresh os s k t f = elim (Option-cases os.spawn) [
  | inl e ↦ rw e (keep_queue-Fresh _ k t _ refl (relabel-Fresh s t _ _ _ _ _ _ f))
  | inr (id, e) ↦ rw e (keep_queue-Fresh _ k t _ refl (relabel-Fresh s t _ _ _ _ _ _ f))
]
