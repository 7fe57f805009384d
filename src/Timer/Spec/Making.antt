-- ===== src/Timer/Spec/Making.antt =====
-- `__timer_create`, as it makes a timer of the table of timers.
use pc.Base.{
  ◌∙◌, ℕ, ◌==◌, ==_iff, ==_refl, ◌≡◌, refl, sym, ap, fun_ext, arith, Bool, false, Option, some,
  none, List, ◌∷◌, mem, Bool-cases, inl, inr,
}
use pc.Timer.State.{
  State, TimerNode, ThreadNode, ClockId, Errno, Sigevent, in_use, set_timer, set_thread,
  unlink_timer,
}
use pc.Timer.Pool.{alloc_first, timer_delref, timer_dealloc}
use pc.Timer.Create.{create_finish}
use pc.Timer.Invariant.{Inv}
use pc.Timer.Invariant.Fresh.{Fresh, set_timer-Fresh, alloc_first-Fresh}
use pc.Timer.Invariant.Framed.{Framed, Framed-trans, timer_dealloc-Framed, timer_delref-Framed}
use pc.Timer.Invariant.Servers.{keep-ServersBut, ServersBut, Servers}
use pc.Timer.Spec.{pending_on, table}
use pc.Timer.Spec.Calls.{
  table-dropped, table-timer_dealloc, table-set_timer_other, table-unlink_timer_other,
}

-- The timer has been taken from the free timers, and the others are as they were.
pub record Making (s0 s : State) (t : ℕ) : Type 0 where
  pub servers : ServersBut (λ u. t == u) s
  pub others : (u : ℕ) → (t == u) ≡ false → table s u ≡ table s0 u
  pub fresh : Fresh s t

-- It has its thread.
pub record Made (s0 s : State) (t k : ℕ) (event : Sigevent) : Type 0 where
  pub servers : Servers s
  pub others : (u : ℕ) → (t == u) ≡ false → table s u ≡ table s0 u
  pub used : (s.timer t).inuse ≡ in_use
  pub thread : (s.timer t).thread ≡ some k
  pub calls : (s.timer t).event ≡ event
  pub out : (j : ℕ) → mem t (s.thread j).timer_queue ≡ false

-- Nothing has changed, but errors and references.
pub record Undone (s0 s : State) : Type 0 where
  pub servers : Servers s
  pub same : table s ≡ table s0

-- What is in the table of a state whose thread lists have been changed.
pub table-set_thread :
    (s : State) (k : ℕ) (n : ThreadNode)
    → n.timer_queue ≡ (s.thread k).timer_queue
    → table (set_thread s k n) ≡ table s
unfolding table
table-set_thread s k n e = fun_ext λ u. rw (same u (s.timer u).thread) refl
  where
    same : (u : ℕ) (th : Option ℕ) → pending_on (set_thread s k n) u th ≡ pending_on s u th
    same u none = refl
    same u (some j) = ground (arith, ==_iff k j, ap (mem u) e)

pub table-relabel :
    (s : State) (fs act : List ℕ) (e : Errno) (f : Bool)
    → table (record s { thread_free_list = fs; thread_active_list = act; errno = e; fault = f })
      ≡ table s
unfolding table
table-relabel s fs act e f = refl

-- A node that is filled in.
pub set_timer-Making :
    (s0 s : State) (t : ℕ) (n : TimerNode)
    → n.inuse ≡ (s.timer t).inuse
    → n.refcount ≡ (s.timer t).refcount
    → Making s0 s t
    → Making s0 (set_timer s t n) t
set_timer-Making s0 s t n eu er m = record {
  servers = record {
    distinct = m.servers.distinct;
    runs = m.servers.runs;
    apart = m.servers.apart;
    owned = λ u k b e h. ground (arith, m.servers.owned u k);
  };
  others = λ u ne. table-set_timer_other s t u n ne ∙ m.others u ne;
  fresh = set_timer-Fresh s t n eu er m.fresh;
}

pub alloc_first-Making :
    (s : State) (t : ℕ) (rest : List ℕ)
    → s.timer_free_list ≡ t ∷ rest
    → Inv s
    → Servers s
    → Making s (alloc_first s (t ∷ rest)).0 t
unfolding alloc_first unlink_timer
alloc_first-Making s t rest e v w = record {
  servers = keep-ServersBut refl refl (λ k. refl) (λ u k b h g. (refl, (rw b at h, rw b at g))) w;
  others =
      λ u ne. table-set_timer_other (unlink_timer s t) t u _ ne ∙ table-unlink_timer_other s t u ne;
  fresh = alloc_first-Fresh s t rest e v;
}

-- The timer gets a thread that is not free.
pub finish-Made :
    (s0 s : State) (clock : ClockId) (k t : ℕ) (event : Sigevent)
    → mem k s.thread_free_list ≡ false
    → (s.timer t).event ≡ event
    → Making s0 s t
    → Made s0 (create_finish s clock k t).0 t k event
unfolding create_finish
finish-Made s0 s clock k t event busy ev m = record {
  servers = record {
    distinct = m.servers.distinct;
    runs = m.servers.runs;
    apart = m.servers.apart;
    owned = λ u j b e h. ground (arith, ==_iff t u, m.servers.owned u j);
  };
  others = λ u ne. table-set_timer_other s t u _ ne ∙ m.others u ne;
  used = rw (==_refl t) m.fresh.used;
  thread = rw (==_refl t) refl;
  calls = rw (==_refl t) ev;
  out = m.fresh.out;
}

dealloc_kept :
    (s : State) (t u : ℕ) → ((timer_dealloc s t).timer u).inuse ≡ in_use → (t == u) ≡ false
unfolding timer_dealloc
dealloc_kept s t u e = ground (arith, ==_iff t u)

-- The timer is given back.
pub bail-Undone :
    (s0 s : State) (t : ℕ)
    → table s0 t ≡ none
    → Making s0 s t
    → Undone s0 (timer_dealloc (timer_delref s t) t)
bail-Undone s0 s t unused m = record {
  servers =
      keep-ServersBut f.free_list f.active_list f.running
        (λ u k b e h. (kept u e, ((f.owner u e).0, sym (f.owner u e).1 ∙ h))) m.servers;
  same = fun_ext λ u. table-timer_dealloc (timer_delref s t) t u ∙ elim (Bool-cases (t == u)) [
    | inl e ↦ rw (e, sym ((==_iff t u).0 e)) (sym unused)
    | inr e ↦
        rw e (table-dropped s t u (m.fresh.inv.counts.held t m.fresh.used) ∙ rw e (m.others u e))
  ];
}
  where
    f : Framed s (timer_dealloc (timer_delref s t) t)
    f = Framed-trans (timer_delref-Framed s t) (timer_dealloc-Framed (timer_delref s t) t)

    kept :
        (u : ℕ) → ((timer_dealloc (timer_delref s t) t).timer u).inuse ≡ in_use → (t == u) ≡ false
    kept u e = dealloc_kept (timer_delref s t) t u e
