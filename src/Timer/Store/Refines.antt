-- ===== src/Timer/Store/Refines.antt =====
-- The operations on the lists of the state, and those on the store of pointers, keep the store in step with the state.
use pc.Base.{
  ℕ, zero, suc, ◌+◌, ◌<◌, ◌==◌, ==_iff, ==_refl, ◌≡◌, refl, sym, subst, fun_ext, arith, Bool, true,
  false, some, List, [], ◌∷◌, ◌++◌, mem, remove, update, length, Bool-cases, inl, inr, ◌⊎◌,
  mem-remove, mem-append, mem-count_up, append_nil, append_assoc, count_up,
}
use pc.Timer.State.{State, Os, timer_max, unlink_timer}
use pc.Timer.Pool.{
  timer_alloc, alloc_first, timer_dealloc, timer_init_once, init_module, thread_init,
}
use pc.Timer.Threads.{queue_timer, insert_timer}
use pc.Timer.Links.{Links, list_init, list_append, list_unlink_ip}
use pc.Timer.Links.Ring.{Ring, list_init-Ring}
use pc.Timer.Links.Append.{list_append-Ring}
use pc.Timer.Links.Walk.{queue_on_links}
use pc.Timer.Links.Family.{
  Held, head_of, list_unlink_ip-Held, list_append-Held, queue_on_links-Held,
}
use pc.Timer.Invariant.Reach.{boot}
use pc.Timer.Store.{
  list_of, free_head, queue_head, Represents, append_all, init_on_links, alloc_on_links,
  dealloc_on_links,
}

-- The timer is on a list that is live, or on none.
abbrev pub OnOne : (ℕ → Bool) → State → ℕ → Type 0
OnOne live s t =
    ((j : ℕ) × (live j ≡ true) × (mem t (list_of s j) ≡ true))
    ⊎ ((j : ℕ) → mem t (list_of s j) ≡ false)

list_of-unlink : (s : State) (t : ℕ) → list_of (unlink_timer s t) ≡ (λ j. remove t (list_of s j))
unfolding unlink_timer
list_of-unlink s t = fun_ext (elim [ zero ↦ refl | suc k ↦ refl ])

-- When the store of pointers holds the lists of a state, and a timer is on one list that the store
-- holds, or on none: unlinking its node in place gives a store that holds the lists of the state
-- without the timer on any list.
pub unlink_timer-Represents :
    (live : ℕ → Bool) (m : Links) (s : State) (t : ℕ)
    → Represents live m s
    → t < timer_max
    → OnOne live s t
    → Represents live (list_unlink_ip m t) (unlink_timer s t)
unlink_timer-Represents live m s t r lt w =
    subst (Held timer_max (list_unlink_ip m t) live) (sym (list_of-unlink s t))
      (list_unlink_ip-Held r t lt w)

list_of-queue :
    (s : State) (k t : ℕ)
    → list_of (queue_timer s k t).0
      ≡ update
          (list_of s)
          (suc k)
          (insert_timer (λ u. (s.timer u).expirytime) t true (s.thread k).timer_queue).0
unfolding queue_timer
list_of-queue s k t = fun_ext (elim [ zero ↦ ground arith | suc j ↦ ground arith ])

-- When the store of pointers holds the lists of a state, a thread's queue among them, and a timer is on
-- no list: putting it into the queue on the pointers ends within the fuel given, with the flag that the
-- state's operation gives, and the store holds the lists of the new state.
pub queue_timer-Represents :
    (live : ℕ → Bool) (m : Links) (s : State) (k t : ℕ)
    → Represents live m s
    → live (suc k) ≡ true
    → t < timer_max
    → ((j : ℕ) → mem t (list_of s j) ≡ false)
    → (m' : Links) × (queue_on_links
          (suc (length (s.thread k).timer_queue))
          (λ u. (s.timer u).expirytime)
          m
          (queue_head k)
          t
        ≡ some (m', (queue_timer s k t).1))
      × Represents live m' (queue_timer s k t).0
unfolding queue_timer
queue_timer-Represents live m s k t r on lt out =
    let (m', run, held) =
      queue_on_links-Held r (suc (length (s.thread k).timer_queue)) (λ u. (s.timer u).expirytime)
        (suc k) t on lt out (omega arith) in
    (m', run, subst (Held timer_max m' live) (sym (list_of-queue s k t)) held)

list_of-alloc :
    (s : State) (t : ℕ) (rest : List ℕ)
    → s.timer_free_list ≡ t ∷ rest
    → list_of (timer_alloc s).0 ≡ (λ j. remove t (list_of s j))
unfolding timer_alloc alloc_first
list_of-alloc s t rest e = rw e (fun_ext (elim [ zero ↦ ground arith | suc k ↦ ground arith ]))

timer_alloc-some :
    (s : State) (t : ℕ) (rest : List ℕ) → s.timer_free_list ≡ t ∷ rest → (timer_alloc s).1 ≡ some t
unfolding timer_alloc alloc_first
timer_alloc-some s t rest e = rw e refl

first_node : (m : Links) (h t : ℕ) (rest : List ℕ) → Ring m h (t ∷ rest) → m.next h ≡ t
first_node m h t rest r = r.linked.0

alloc_store :
    (m : Links) (t : ℕ) → (alloc_on_links m).1 ≡ t → (alloc_on_links m).0 ≡ list_unlink_ip m t
unfolding alloc_on_links
alloc_store m t e = rw e refl

-- When the store of pointers holds the lists of a state, the free list among them, and the free list is
-- not empty: the allocation on the pointers takes the same timer as the allocation on the state, the
-- first free one, and leaves a store that holds the lists of the new state.
pub timer_alloc-Represents :
    (live : ℕ → Bool) (m : Links) (s : State) (t : ℕ) (rest : List ℕ)
    → Represents live m s
    → live 0 ≡ true
    → t < timer_max
    → s.timer_free_list ≡ t ∷ rest
    → ((timer_alloc s).1 ≡ some t)
      × (((alloc_on_links m).1 ≡ t) × Represents live (alloc_on_links m).0 (timer_alloc s).0)
timer_alloc-Represents live m s t rest r on lt e =
    (timer_alloc-some s t rest e, (first, rest_Represents))
  where
    first : (alloc_on_links m).1 ≡ t
    first =
        unfold alloc_on_links in
        first_node m free_head t rest (subst (Ring m free_head) e (r.rings 0 on))

    held : Held timer_max (list_unlink_ip m t) live (λ j. remove t (list_of s j))
    held = list_unlink_ip-Held r t lt (inl (0, on, rw e (ground (arith, ==_refl t))))

    rest_Represents : Represents live (alloc_on_links m).0 (timer_alloc s).0
    rest_Represents =
        subst (λ x. Represents live x (timer_alloc s).0) (sym (alloc_store m t first))
          (subst (Held timer_max (list_unlink_ip m t) live) (sym (list_of-alloc s t rest e)) held)

list_of-dealloc :
    (s : State) (t : ℕ)
    → list_of (timer_dealloc s t)
      ≡ update (λ j. remove t (list_of s j)) 0 (remove t s.timer_free_list ++ t ∷ [])
unfolding timer_dealloc unlink_timer
list_of-dealloc s t = fun_ext (elim [ zero ↦ refl | suc k ↦ ground arith ])

-- When the store of pointers holds the lists of a state, the free list among them, and a timer is on
-- one list that the store holds, or on none: giving the timer back on the pointers gives a store that
-- holds the lists of the state in which it is given back.
pub timer_dealloc-Represents :
    (live : ℕ → Bool) (m : Links) (s : State) (t : ℕ)
    → Represents live m s
    → live 0 ≡ true
    → t < timer_max
    → OnOne live s t
    → Represents live (dealloc_on_links m t) (timer_dealloc s t)
unfolding dealloc_on_links
timer_dealloc-Represents live m s t r on lt w =
    subst (Held timer_max _ live) (sym (list_of-dealloc s t)) (
      list_append-Held (list_unlink_ip-Held r t lt w) 0 t on lt
        (λ j. ground (arith, mem-remove t t (list_of s j), ==_refl t)))

fresh_node :
    (i h : ℕ) (xs : List ℕ) → i < h → ((u : ℕ) → mem u xs ≡ true → u < i) → mem i (h ∷ xs) ≡ false
fresh_node i h xs lt b = elim (Bool-cases (mem i xs)) [
  | inl e ↦ absurd (omega (arith, b i e))
  | inr e ↦ ground (arith, ==_iff i h)
]

append_all-Ring :
    (n i : ℕ) (m : Links) (h : ℕ) (xs : List ℕ)
    → Ring m h xs
    → i + n < suc h
    → ((u : ℕ) → mem u xs ≡ true → u < i)
    → Ring (append_all n i m h) h (xs ++ count_up n i)
unfolding append_all count_up
append_all-Ring zero i m h xs r lt b = rw (append_nil xs) r
append_all-Ring (suc n) i m h xs r lt b =
    subst (Ring _ h) (append_assoc xs i (count_up n (suc i))) (
      append_all-Ring n (suc i) (list_append m h i) h (xs ++ i ∷ [])
        (list_append-Ring m h i xs r (fresh_node i h xs (omega arith) b)) (omega arith)
        (λ u e. ground (arith, mem-append u xs (i ∷ []), ==_iff u i, b u)))

-- The one list that there is at first.
abbrev only : ℕ → ℕ → List ℕ
only n = update (λ _. []) 0 (count_up n 0)

init_all-Held :
    (n : ℕ) (m : Links)
    → Held n (append_all n 0 (list_init m (head_of n 0)) (head_of n 0)) (λ j. j == 0) (only n)
init_all-Held n m = record {
  rings = λ j e.
      subst
        (λ i.
          Ring (append_all n 0 (list_init m (head_of n 0)) (head_of n 0)) (head_of n i) (only n i))
        (sym ((==_iff j 0).0 e))
        (append_all-Ring n 0 (list_init m (head_of n 0)) (head_of n 0) []
          (list_init-Ring m (head_of n 0)) (omega arith) (λ u f. cc));
  dead = λ j e. ground (arith, ==_iff 0 j, ==_iff j 0);
  bound = λ j t e. ground (arith, mem-count_up n 0 t);
  once = λ i j t e f. ground (arith, ==_iff 0 i, ==_iff 0 j);
  alone = λ t lt off. absurd (ground (arith, off 0, mem-count_up n 0 t));
}

list_of-boot : (os : Os) → list_of (timer_init_once os boot) ≡ only timer_max
unfolding timer_init_once init_module thread_init
list_of-boot os = fun_ext (elim [ zero ↦ refl | suc k ↦ ground arith ])

-- Whatever the pointers are at first, the loop that puts all the timers on the free list leaves a store
-- that holds the free list of the state after the first call.
pub init_module-Represents :
    (os : Os) (m : Links) → Represents (λ j. j == 0) (init_on_links m) (timer_init_once os boot)
unfolding init_on_links
init_module-Represents os m =
    subst (Held timer_max (init_on_links m) (λ j. j == 0)) (sym (list_of-boot os))
      (init_all-Held timer_max m)
