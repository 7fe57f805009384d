-- ===== src/Timer/Spec/Granting.antt =====
-- A thread for the timer that `__timer_create` makes: one that is found, or one that is taken and started.
use pc.Base.{
  ◌∙◌, ℕ, ◌==◌, ==_iff, ==_refl, ◌≡◌, refl, sym, ap, subst, arith, if◌then◌else◌, Bool, true, false,
  Option, some, none, List, [], ◌∷◌, ◌++◌, Distinct, mem, inl, inr, Option-cases,
}
use pc.Timer.State.{State, Attr, ClockId, Os, Sigevent, set_thread, set_errno, eagain}
use pc.Timer.Pool.{thread_init}
use pc.Timer.Threads.{alloc_thread, thread_start, thread_dealloc}
use pc.Timer.Create.{create_bail, create_finish, create_on}
use pc.Timer.Invariant.Fresh.{Fresh, relabel-Fresh, thread_start-Fresh, thread_dealloc-Fresh}
use pc.Timer.Invariant.Create.{thread_alloc-Fresh}
use pc.Timer.Invariant.Servers.{
  ServersBut, ServersBut-idle, keep-ServersBut, started-Servers, returned-Servers,
}
use pc.Timer.Spec.{table}
use pc.Timer.Spec.Making.{
  Making, Made, Undone, finish-Made, bail-Undone, table-set_thread, table-relabel,
}

-- What the call leaves: a timer with its thread, or nothing but errors and references.
pub data Result (s0 : State) (event : Sigevent) : State × Option ℕ → Type 0 where
  made :
      {s : State} (t k : ℕ) → table s0 t ≡ none → Made s0 s t k event → Result s0 event (s, some t)
  undone : {s : State} → Undone s0 s → Result s0 event (s, none)

pub if-Result :
    (s : State) (event : Sigevent) (x y : State × Option ℕ) (b : Bool)
    → Result s event x
    → Result s event y
    → Result s event (if b then x else y)
if-Result s event x y true p q = p
if-Result s event x y false p q = q

pub errno-Making : (s0 s : State) (t : ℕ) → Making s0 s t → Making s0 (set_errno s eagain) t
errno-Making s0 s t m = record {
  servers = keep-ServersBut refl refl (λ k. refl) (λ u k b e h. (b, (e, h))) m.servers;
  others = λ u ne. ap (λ f. f u) (table-relabel s _ _ eagain _) ∙ m.others u ne;
  fresh = relabel-Fresh s t _ _ _ _ _ _ m.fresh;
}

-- A free thread is given to the timer.
grant-others :
    (os : Os) (attr : Attr) (clock : ClockId) (s : State) (k t : ℕ) (rest : List ℕ)
    → s.thread_free_list ≡ k ∷ rest
    → ServersBut (λ u. t == u) s
    → Fresh s t
    → table (alloc_thread os attr clock s (k ∷ rest)).0 ≡ table s
unfolding alloc_thread thread_init
grant-others os attr clock s k t rest e w f =
    let s1 : State = record s { thread_free_list = rest } in
    let n = thread_init os (some attr) clock (s1.thread k) in
    let s2 = set_thread s1 k n in
    table-relabel s2 rest (s2.thread_active_list ++ k ∷ []) s2.errno s2.fault
    ∙ table-set_thread s1 k n (sym idle)
    ∙ table-relabel s rest s.thread_active_list s.errno s.fault
  where
    idle : (s.thread k).timer_queue ≡ []
    idle =
        ServersBut-idle (λ u. t == u) s k f.inv w (λ j u m. ground (arith, ==_iff t u, f.out j))
          (rw e (ground (arith, ==_refl k)))

start-others : (os : Os) (s : State) (k : ℕ) → table (thread_start os s k).0 ≡ table s
unfolding thread_start
start-others os s k = elim (Option-cases os.spawn) [
  | inl e ↦ rw e (table-set_thread _ k _ refl ∙ table-relabel s _ _ _ _)
  | inr (id, e) ↦ rw e (table-set_thread _ k _ refl ∙ table-relabel s _ _ _ _)
]

-- A thread has been found: it runs.
pub found-Result :
    (s0 s : State) (os : Os) (clock : ClockId) (k t : ℕ) (event : Sigevent)
    → table s0 t ≡ none
    → (s.timer t).event ≡ event
    → mem k s.thread_active_list ≡ true
    → Making s0 s t
    → Result s0 event (create_on os s clock k t)
unfolding create_on create_finish
found-Result s0 s os clock k t event unused ev active m =
    rw (m.servers.runs k active)
      (made t k unused (finish-Made s0 s clock k t event (m.servers.apart k active) ev m))

alloc-exists :
    (os : Os) (attr : Attr) (clock : ClockId) (s : State) (k : ℕ) (rest : List ℕ)
    → ((alloc_thread os attr clock s (k ∷ rest)).0.thread k).exists ≡ false
unfolding alloc_thread thread_init
alloc-exists os attr clock s k rest = rw (==_refl k) refl

start-fails : (os : Os) (s : State) (k : ℕ) → os.spawn ≡ none → (thread_start os s k).1 ≡ false
unfolding thread_start
start-fails os s k e = rw e refl

start-succeeds :
    (os : Os) (s : State) (k id : ℕ) → os.spawn ≡ some id → (thread_start os s k).1 ≡ true
unfolding thread_start
start-succeeds os s k id e = rw e refl

start-free_list :
    (os : Os) (s : State) (k : ℕ) → (thread_start os s k).0.thread_free_list ≡ s.thread_free_list
unfolding thread_start
start-free_list os s k = elim (Option-cases os.spawn) [
  | inl e ↦ rw e refl
  | inr (id, e) ↦ rw e refl
]

start-timer : (os : Os) (s : State) (k : ℕ) → (thread_start os s k).0.timer ≡ s.timer
unfolding thread_start
start-timer os s k = elim (Option-cases os.spawn) [ inl e ↦ rw e refl | inr (id, e) ↦ rw e refl ]

alloc-timer :
    (os : Os) (attr : Attr) (clock : ClockId) (s : State) (k : ℕ) (rest : List ℕ)
    → (alloc_thread os attr clock s (k ∷ rest)).0.timer ≡ s.timer
unfolding alloc_thread
alloc-timer os attr clock s k rest = refl

table-thread_dealloc : (s : State) (k : ℕ) → table (thread_dealloc s k) ≡ table s
unfolding thread_dealloc
table-thread_dealloc s k = table-relabel s _ _ s.errno _

alloc-free_list :
    (os : Os) (attr : Attr) (clock : ClockId) (s : State) (k : ℕ) (rest : List ℕ)
    → (alloc_thread os attr clock s (k ∷ rest)).0.thread_free_list ≡ rest
unfolding alloc_thread
alloc-free_list os attr clock s k rest = refl

bail_with-Undone :
    (s0 s : State) (k t : ℕ)
    → table s0 t ≡ none
    → Making s0 (thread_dealloc s k) t
    → Undone s0 (create_bail s (some k) t)
unfolding create_bail
bail_with-Undone s0 s k t unused m = bail-Undone s0 (thread_dealloc s k) t unused m

pub bail_alone-Undone :
    (s0 s : State) (t : ℕ) → table s0 t ≡ none → Making s0 s t → Undone s0 (create_bail s none t)
unfolding create_bail
bail_alone-Undone s0 s t unused m = bail-Undone s0 s t unused m

-- A free thread is taken, and started.
pub taken-Result :
    (s0 s : State) (os : Os) (attr : Attr) (clock : ClockId) (k t : ℕ) (rest : List ℕ)
    (event : Sigevent)
    → table s0 t ≡ none
    → (s.timer t).event ≡ event
    → s.thread_free_list ≡ k ∷ rest
    → Making s0 s t
    → Result s0 event (create_on os (alloc_thread os attr clock s (k ∷ rest)).0 clock k t)
unfolding create_on create_finish
taken-Result s0 s os attr clock k t rest event unused ev e m =
    rw (alloc-exists os attr clock s k rest) (elim (Option-cases os.spawn) [
      | inl e2 ↦ rw (start-fails os s1 k e2) (
          undone (
            bail_with-Undone s0 (set_errno s2 eagain) k t unused record {
              servers = returned-Servers (λ u. t == u) os attr clock s k rest eagain e e2 m.servers;
              others = λ u ne.
                  ap (λ f. f u)
                    (table-thread_dealloc (set_errno s2 eagain) k
                      ∙ table-relabel s2 s2.thread_free_list s2.thread_active_list eagain s2.fault)
                  ∙ others u ne;
              fresh =
                  thread_dealloc-Fresh (set_errno s2 eagain) k t
                    (relabel-Fresh s2 t _ _ _ _ _ _ fresh);
            }))
      | inr (id, spawn) ↦ rw (start-succeeds os s1 k id spawn) (
          made t k unused (
            finish-Made s0 s2 clock k t event
              (rw (start-free_list os s1 k, alloc-free_list os attr clock s k rest)
                (subst Distinct e m.servers.distinct).0)
              (rw (start-timer os s1 k, alloc-timer os attr clock s k rest) ev)
              record {
                servers = started-Servers (λ u. t == u) os attr clock s k id rest e spawn m.servers;
                others = others;
                fresh = fresh;
              }))
    ])
  where
    s1 : State
    s1 = (alloc_thread os attr clock s (k ∷ rest)).0

    s2 : State
    s2 = (thread_start os s1 k).0

    others : (u : ℕ) → (t == u) ≡ false → table s2 u ≡ table s0 u
    others u ne =
        ap (λ f. f u)
          (start-others os s1 k ∙ grant-others os attr clock s k t rest e m.servers m.fresh)
        ∙ m.others u ne

    fresh : Fresh s2 t
    fresh = thread_start-Fresh os s1 k t (thread_alloc-Fresh os attr clock s (k ∷ rest) t m.fresh)
