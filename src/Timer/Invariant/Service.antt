-- ===== src/Timer/Invariant/Service.antt =====
-- The thread that serves timers keeps the invariant, and so does its end.
use pc.Base.{
  ℕ, ◌≡◌, refl, arith, ==_refl, true, Option, some, none, List, [], ◌∷◌, mem, Bool-cases, inl, inr,
}
use pc.Timer.Timespec.{Timespec, is_before, is_set}
use pc.Timer.State.{State, TimerNode, in_use, set_timer, unlink_timer}
use pc.Timer.Threads.{queue_timer}
use pc.Timer.Service.{
  Pass, sleeps, sleeps_until, fires, diverges, expire_begin, requeue, expire, pass_on, thread_pass,
  expire_end, next_period,
}
use pc.Timer.Invariant.{Inv}
use pc.Timer.Invariant.Moves.{
  Unqueued, set-Unqueued-Lists, unlink-Unqueued, unlink_timer-Lists, queue_timer-Lists,
  keep_queue-Lists, relabel-Lists, timers-Counts, set_timer-Counts,
}

-- Where the mutex is released for the handler, the invariant holds.
abbrev pub PassInv : Pass → Type 0
PassInv sleeps = Unit {0}
PassInv (sleeps_until t) = Unit {0}
PassInv (fires s t call) = Inv s
PassInv diverges = Unit {0}

expire_begin-Inv : (s : State) (k t : ℕ) → Inv s → PassInv (expire_begin s k t)
expire_begin-Inv s k t v = record {
  lists = keep_queue-Lists s k _ refl v.lists;
  counts = timers-Counts s _ refl v.counts;
}

queue_timer-Inv :
    (s : State) (k t : ℕ)
    → (s.timer t).inuse ≡ in_use
    → (s.timer t).armed ≡ true
    → (s.timer t).thread ≡ some k
    → Inv s
    → Inv (queue_timer s k t).0
unfolding queue_timer
queue_timer-Inv s k t used armed owner v = record {
  lists = queue_timer-Lists s k t used armed owner v.lists;
  counts = timers-Counts s _ refl v.counts;
}

requeue-Inv :
    (s : State) (k t : ℕ) (next : Option (Timespec × ℕ))
    → (s.timer t).inuse ≡ in_use
    → (s.timer t).armed ≡ true
    → (s.timer t).thread ≡ some k
    → Unqueued s t
    → Inv s
    → PassInv (requeue s k t next)
unfolding requeue
requeue-Inv s k t none used armed owner out v = tt
requeue-Inv s k t (some (expiry, overrun)) used armed owner out v =
    expire_begin-Inv (queue_timer s1 k t).0 k t (
      queue_timer-Inv s1 k t (rw (==_refl t) used) (rw (==_refl t) armed) (rw (==_refl t) owner)
        (record {
          lists = set-Unqueued-Lists s t n refl out v.lists;
          counts = set_timer-Counts s t n refl refl v.counts;
        }))
  where
    n : TimerNode
    n = record (s.timer t) { expirytime = expiry; overrun_count = overrun }

    s1 : State
    s1 = set_timer s t n

expire-Inv :
    (s : State) (k t : ℕ) (now : Timespec)
    → Inv s
    → mem t (s.thread k).timer_queue ≡ true
    → PassInv (expire s k t now)
unfolding expire unlink_timer
expire-Inv s k t now v m = elim (Bool-cases (is_set (s.timer t).value.it_interval)) [
  | inl e ↦ rw e (
      requeue-Inv s1 k t (next_period now (s.timer t).value.it_interval (s.timer t).expirytime) used
        (v.lists.queue_armed k t m) (v.lists.queue_owner k t m) (unlink-Unqueued s t) v1)
  | inr e ↦ rw e (expire_begin-Inv s1 k t v1)
]
  where
    used : (s.timer t).inuse ≡ in_use
    used = v.lists.queue_used k t m

    s1 : State
    s1 = unlink_timer s t

    v1 : Inv s1
    v1 = record {
      lists = unlink_timer-Lists s t (λ e. ground (arith, used)) v.lists;
      counts = timers-Counts s _ refl v.counts;
    }

pass_on-Inv :
    (s : State) (k : ℕ) (now : Timespec) (queue : List ℕ)
    → (s.thread k).timer_queue ≡ queue
    → Inv s
    → PassInv (pass_on s k now queue)
unfolding pass_on
pass_on-Inv s k now [] e v = tt
pass_on-Inv s k now (t ∷ rest) e v = elim (Bool-cases (is_before now (s.timer t).expirytime)) [
  | inl h ↦ rw h tt
  | inr h ↦ rw h (expire-Inv s k t now v (rw e (ground (arith, ==_refl t))))
]

-- Each round of the loop keeps the invariant.
pub thread_pass-Inv : (s : State) (k : ℕ) (now : Timespec) → Inv s → PassInv (thread_pass s k now)
unfolding thread_pass
thread_pass-Inv s k now v = pass_on-Inv s k now (s.thread k).timer_queue refl v

pub expire_end-Inv : (s : State) (k : ℕ) → Inv s → Inv (expire_end s k)
unfolding expire_end
expire_end-Inv s k v = record {
  lists = relabel-Lists _ _ _ _ _ _ _ (keep_queue-Lists s k _ refl v.lists);
  counts = timers-Counts s _ refl v.counts;
}
