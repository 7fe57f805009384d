-- ===== src/Timer/Invariant/Servers.antt =====
-- The invariant of the threads that serve timers: which list each thread is on.
use pc.Base.{
  ◌∙◌, ℕ, ◌≡◌, refl, sym, ap, subst, arith, ==_iff, ==_refl, Bool, true, false, some, none, List,
  [], ◌∷◌, ◌++◌, mem, mem-remove, mem-append, snoc-Distinct, Distinct,
}
use pc.Timer.State.{State, ThreadNode, Attr, ClockId, Os, Errno, in_use, set_errno}
use pc.Timer.Threads.{find_in, find_matching, alloc_thread, thread_start, thread_dealloc}
use pc.Timer.Invariant.{Inv}
use pc.Timer.Invariant.Framed.{Framed}

-- A free thread is listed once, and is not active; an active one runs; and no timer in use, but one that is
-- being made, is served by a free thread.
pub record ServersBut (but : ℕ → Bool) (s : State) : Type 0 where
  pub distinct : Distinct s.thread_free_list
  pub runs : (k : ℕ) → mem k s.thread_active_list ≡ true → (s.thread k).exists ≡ true
  pub apart : (k : ℕ) → mem k s.thread_active_list ≡ true → mem k s.thread_free_list ≡ false
  pub owned :
      (t k : ℕ)
      → but t ≡ false
      → (s.timer t).inuse ≡ in_use
      → (s.timer t).thread ≡ some k
      → mem k s.thread_free_list ≡ false

abbrev pub Servers : State → Type 0
Servers s = ServersBut (λ _. false) s

-- The lists are kept, and so are the threads of the timers that are looked at.
pub keep-ServersBut :
    {before after : ℕ → Bool} {s u : State}
    → u.thread_free_list ≡ s.thread_free_list
    → u.thread_active_list ≡ s.thread_active_list
    → ((k : ℕ) → (u.thread k).exists ≡ (s.thread k).exists)
    → ((t k : ℕ)
        → after t ≡ false
        → (u.timer t).inuse ≡ in_use
        → (u.timer t).thread ≡ some k
        → (before t ≡ false) × (((s.timer t).inuse ≡ in_use) × ((s.timer t).thread ≡ some k)))
    → ServersBut before s
    → ServersBut after u
keep-ServersBut f a r o v = record {
  distinct = subst Distinct (sym f) v.distinct;
  runs = λ k m. r k ∙ v.runs k (subst (λ x. mem k x ≡ true) a m);
  apart = λ k m. rw f (v.apart k (subst (λ x. mem k x ≡ true) a m));
  owned = λ t k b e h. let (c, (used, thread)) = o t k b e h in rw f (v.owned t k c used thread);
}

pub Framed-Servers : {s u : State} → Framed s u → Servers s → Servers u
Framed-Servers f v =
    keep-ServersBut f.free_list f.active_list f.running
      (λ t k b e h. (refl, ((f.owner t e).0, sym (f.owner t e).1 ∙ h))) v

-- A free thread has no timer to serve.
pub ServersBut-idle :
    (but : ℕ → Bool) (s : State) (k : ℕ)
    → Inv s
    → ServersBut but s
    → ((j t : ℕ) → mem t (s.thread j).timer_queue ≡ true → but t ≡ false)
    → mem k s.thread_free_list ≡ true
    → (s.thread k).timer_queue ≡ []
ServersBut-idle but s k v w made m = empty (s.thread k).timer_queue refl
  where
    empty : (q : List ℕ) → (s.thread k).timer_queue ≡ q → q ≡ []
    empty [] e = refl
    empty (t ∷ q) e =
        let on : mem t (s.thread k).timer_queue ≡ true = rw e (ground (arith, ==_refl t)) in
        let busy =
          w.owned t k (made k t on) (v.lists.queue_used k t on) (v.lists.queue_owner k t on) in
        absurd (ground arith)

-- A thread that is found is active.
find_in-mem :
    (attr : Attr) (clock : ClockId) (thread : ℕ → ThreadNode) (ks : List ℕ) (k : ℕ)
    → find_in attr clock thread ks ≡ some k
    → mem k ks ≡ true
unfolding find_in
find_in-mem attr clock thread [] k e = absurd (cc)
find_in-mem attr clock thread (j ∷ ks) k e =
    ground (arith, ==_refl k, find_in-mem attr clock thread ks k)

pub find_matching-mem :
    (attr : Attr) (clock : ClockId) (s : State) (k : ℕ)
    → find_matching attr clock s ≡ some k
    → mem k s.thread_active_list ≡ true
unfolding find_matching
find_matching-mem attr clock s k e = find_in-mem attr clock s.thread s.thread_active_list k e

-- The first free thread is taken and started.
pub started-Servers :
    (but : ℕ → Bool) (os : Os) (attr : Attr) (clock : ClockId) (s : State) (k id : ℕ)
    (rest : List ℕ)
    → s.thread_free_list ≡ k ∷ rest
    → os.spawn ≡ some id
    → ServersBut but s
    → ServersBut but (thread_start os (alloc_thread os attr clock s (k ∷ rest)).0 k).0
unfolding thread_start alloc_thread
started-Servers but os attr clock s k id rest e spawn w = rw spawn record {
  distinct = (subst Distinct e w.distinct).1;
  runs = λ j m.
      ground (arith, ==_iff k j, ==_iff j k, mem-append j s.thread_active_list (k ∷ []), w.runs j);
  apart = λ j m. ground (
    arith,
    ==_iff k j,
    ==_iff j k,
    ap (mem j) e,
    fresh.0,
    w.apart j,
    mem-append j s.thread_active_list (k ∷ []),
  );
  owned = λ t j b u h. ground (arith, ap (mem j) e, w.owned t j b u h);
}
  where
    fresh : Distinct (k ∷ rest)
    fresh = subst Distinct e w.distinct

-- The first free thread is taken, cannot be started, and is given back.
pub returned-Servers :
    (but : ℕ → Bool) (os : Os) (attr : Attr) (clock : ClockId) (s : State) (k : ℕ) (rest : List ℕ)
    (e : Errno)
    → s.thread_free_list ≡ k ∷ rest
    → os.spawn ≡ none
    → ServersBut but s
    → ServersBut but (
        thread_dealloc
          (set_errno (thread_start os (alloc_thread os attr clock s (k ∷ rest)).0 k).0 e)
          k)
unfolding thread_start alloc_thread thread_dealloc
returned-Servers but os attr clock s k rest errno e spawn w = rw spawn record {
  distinct = snoc-Distinct k rest fresh.1 fresh.0;
  runs = λ j m. ground (
    arith,
    ==_iff k j,
    ==_iff j k,
    w.runs j,
    mem-remove k j (s.thread_active_list ++ k ∷ []),
    mem-append j s.thread_active_list (k ∷ []),
    mem-append j rest (k ∷ []),
  );
  apart = λ j m. ground (
    arith,
    ==_iff k j,
    ==_iff j k,
    ap (mem j) e,
    w.apart j,
    mem-remove k j (s.thread_active_list ++ k ∷ []),
    mem-append j s.thread_active_list (k ∷ []),
    mem-append j rest (k ∷ []),
  );
  owned = λ t j b u h. ground (
    arith,
    ==_iff k j,
    ==_iff j k,
    ap (mem j) e,
    w.owned t j b u h,
    mem-remove k j (s.thread_active_list ++ k ∷ []),
    mem-append j s.thread_active_list (k ∷ []),
    mem-append j rest (k ∷ []),
  );
}
  where
    fresh : Distinct (k ∷ rest)
    fresh = subst Distinct e w.distinct
