-- ===== src/Timer/Spec/Creating.antt =====
-- `__timer_create` on each of its paths: a timer of the table is made, or nothing changes.
use pc.Base.{ℕ, ==_refl, ◌≡◌, refl, ap, arith, Option, some, none, List, [], ◌∷◌}
use pc.Timer.State.{
  State, Attr, Errno, own, ClockId, monotonic, Os, Sigevent, set_timer, set_errno, eagain, enomem,
  by_thread,
}
use pc.Timer.Pool.{alloc_first, timer_alloc}
use pc.Timer.Threads.{alloc_thread, thread_alloc, find_matching}
use pc.Timer.Create.{
  find_or_alloc, create_attach, create_thread, create_switch, create_with, create_next,
  timer_create,
}
use pc.Timer.Invariant.{Inv}
use pc.Timer.Invariant.Create.{init_once_ready}
use pc.Timer.Invariant.Servers.{Servers, keep-ServersBut, find_matching-mem}
use pc.Base.Int.{ℤ}
use pc.Timer.Api.{thread_event}
use pc.Timer.Spec.{table}
use pc.Timer.Spec.Calls.{table-unused}
use pc.Timer.Spec.Making.{Making, Undone, set_timer-Making, alloc_first-Making, table-relabel}
use pc.Timer.Spec.Granting.{
  Result, undone, if-Result, errno-Making, found-Result, taken-Result, bail_alone-Undone,
}

found_eq :
    (os : Os) (attr : Attr) (clock : ClockId) (s : State) (k : ℕ)
    → find_matching attr clock s ≡ some k
    → find_or_alloc os attr clock s ≡ (s, some k)
unfolding find_or_alloc
found_eq os attr clock s k e = rw (e, find_or_alloc) refl

alloc_eq :
    (os : Os) (attr : Attr) (clock : ClockId) (s : State) (ks : List ℕ)
    → find_matching attr clock s ≡ none
    → s.thread_free_list ≡ ks
    → find_or_alloc os attr clock s ≡ alloc_thread os attr clock s ks
unfolding find_or_alloc thread_alloc
alloc_eq os attr clock s ks e f = rw (e, find_or_alloc) (ap (alloc_thread os attr clock s) f)

-- With a thread or without, the timer is made or not.
attach-Result :
    (s0 s : State) (os : Os) (attr : Attr) (clock : ClockId) (t : ℕ) (event : Sigevent)
    (found : Option ℕ) (ks : List ℕ)
    → table s0 t ≡ none
    → (s.timer t).event ≡ event
    → find_matching attr clock s ≡ found
    → s.thread_free_list ≡ ks
    → Making s0 s t
    → Result s0 event (create_attach os clock t (find_or_alloc os attr clock s))
unfolding create_attach alloc_thread
attach-Result s0 s os attr clock t event (some k) ks unused ev e f m =
    rw (found_eq os attr clock s k e)
      (found-Result s0 s os clock k t event unused ev (find_matching-mem attr clock s k e) m)
attach-Result s0 s os attr clock t event none [] unused ev e f m =
    rw (alloc_eq os attr clock s [] e f)
      (undone (bail_alone-Undone s0 (set_errno s eagain) t unused (errno-Making s0 s t m)))
attach-Result s0 s os attr clock t event none (k ∷ rest) unused ev e f m =
    rw (alloc_eq os attr clock s (k ∷ rest) e f)
      (taken-Result s0 s os attr clock k t rest event unused ev f m)

-- The event of a timer of the API, as the timer keeps it.
abbrev pub kept_event : ℕ → ℕ → Sigevent
kept_event handler arg = record {
  notify = by_thread;
  function = handler;
  sival_ptr = arg;
  attributes = own;
}

create_with-Result :
    (s0 s : State) (os : Os) (prio : ℤ) (handler arg t : ℕ)
    → table s0 t ≡ none
    → Making s0 s t
    → Result s0
        (kept_event handler arg)
        (create_with os s monotonic (some (thread_event os prio handler arg)) t)
unfolding create_with create_switch create_thread
create_with-Result s0 s os prio handler arg t unused m =
    attach-Result s0 s2 os (os.attr_of prio) monotonic t (kept_event handler arg) _ _ unused
      (rw (==_refl t) refl) refl refl
      (set_timer-Making s0 s1 t _ refl refl (set_timer-Making s0 s t _ refl refl m))
  where
    s1 : State
    s1 = set_timer s t (record (s.timer t) { event = kept_event handler arg; creator_pid = os.pid })

    s2 : State
    s2 = set_timer s1 t (record (s1.timer t) { attr = os.attr_of prio })

errno-Undone : (s : State) (e : Errno) → Servers s → Undone s (set_errno s e)
errno-Undone s e w = record {
  servers = keep-ServersBut refl refl (λ k. refl) (λ u k b e h. (refl, (e, h))) w;
  same = table-relabel s s.thread_free_list s.thread_active_list e s.fault;
}

create_next-Result :
    (os : Os) (s : State) (prio : ℤ) (handler arg : ℕ) (ts : List ℕ)
    → Inv s
    → Servers s
    → s.timer_free_list ≡ ts
    → Result s
        (kept_event handler arg)
        (create_next os monotonic (some (thread_event os prio handler arg)) (alloc_first s ts))
unfolding create_next alloc_first
create_next-Result os s prio handler arg [] v w e = undone (errno-Undone s eagain w)
create_next-Result os s prio handler arg (t ∷ rest) v w e =
    create_with-Result s (alloc_first s (t ∷ rest)).0 os prio handler arg t
      (table-unused s t (v.lists.free_unused t (rw e (ground (arith, ==_refl t)))))
      (alloc_first-Making s t rest e v w)

-- The whole call, for the event of `os_timer_add`.
pub timer_create-Result :
    (os : Os) (s : State) (prio : ℤ) (handler arg : ℕ)
    → Inv s
    → Servers s
    → Result s
        (kept_event handler arg)
        (timer_create os s monotonic (some (thread_event os prio handler arg)))
unfolding timer_create timer_alloc
timer_create-Result os s prio handler arg v w = rw (init_once_ready os s v.lists.ready) (
    if-Result s (kept_event handler arg) _ _ s.init_failed (undone (errno-Undone s enomem w))
      (create_next-Result os s prio handler arg s.timer_free_list v w refl))
