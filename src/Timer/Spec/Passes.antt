-- ===== src/Timer/Spec/Passes.antt =====
-- A round of the serving thread, as a change of the table of timers.
use pc.Base.{
  ◌∙◌, ℕ, ◌==◌, ==_refl, ◌≡◌, refl, sym, ap, subst, arith, Bool, true, false, Option, some, none,
  List, [], ◌∷◌, mem, update, Bool-cases, inl, inr, ==_iff, if◌then◌else◌,
}
use pc.Timer.Timespec.{Timespec, is_set, is_before}
use pc.Timer.Timespec.Clock.{earlier, is_before_eq, is_set_eq}
use pc.Timer.State.{State, TimerNode, is_in_use, unlink_timer}
use pc.Timer.Threads.{queue_timer}
use pc.Timer.Order.{NoneBefore, Sorted, earlier_irrefl}
use pc.Timer.Service.{
  next_period, Pass, sleeps, sleeps_until, fires, diverges, expire_begin, requeue, expire, pass_on,
  thread_pass, expire_end,
}
use pc.Timer.Invariant.{Inv}
use pc.Timer.Spec.{Timer, Table, pending_on, pending, table, timer_of}
use pc.Timer.Spec.Change.{Earliest, NextDue, Change, fired, ended, stays, never, fires}
use pc.Timer.Spec.Calls.{entry, table-used}
use pc.Timer.Spec.Steps.{to}
use pc.Timer.Spec.Expire.{
  next_period-NextDue, table-current, table-unlink_timer, table-requeued, requeued,
}

-- What a round does to the table when it lets a handler run.
abbrev pub PassChange : Timespec → Table → Pass → Type 0
PassChange now m sleeps = Unit {0}
PassChange now m (sleeps_until t) = Unit {0}
PassChange now m (fires s t call) = Change (fired t now) m (table s)
PassChange now m diverges = Unit {0}

-- The timer is due, and is the first of its thread.
abbrev FirstDue : State → ℕ → ℕ → Timespec → Type 0
FirstDue s k t now =
    ((entry s t).due ≡ some (s.timer t).expirytime)
    × ((earlier now (s.timer t).expirytime ≡ false) × Earliest (table s) k (s.timer t).expirytime)

begin-Change :
    (s a : State) (k t : ℕ) (now : Timespec) (due : Option Timespec)
    → Inv s
    → mem t (s.thread k).timer_queue ≡ true
    → FirstDue s k t now
    → NextDue now (s.timer t).value.it_interval (s.timer t).expirytime due
    → table a ≡ update (table s) t (some (record (entry s t) { due = due }))
    → PassChange now (table s) (expire_begin a k t)
begin-Change s a k t now due v m f next e = to (sym (table-current a k (some t) ∙ e)) (
    fires t k (entry s t) now (s.timer t).expirytime due (table-used s t (v.lists.queue_used k t m))
      (v.lists.queue_owner k t m) f.0 f.1.0 f.1.1 next)

requeue-Change :
    (s : State) (k t : ℕ) (now : Timespec)
    → Inv s
    → mem t (s.thread k).timer_queue ≡ true
    → FirstDue s k t now
    → is_set (s.timer t).value.it_interval ≡ true
    → (next : Option (Timespec × ℕ))
    → next_period now (s.timer t).value.it_interval (s.timer t).expirytime ≡ next
    → PassChange now (table s) (requeue (unlink_timer s t) k t next)
unfolding requeue
requeue-Change s k t now v m f on none e = tt
requeue-Change s k t now v m f on (some (at, overrun)) e =
    begin-Change s (queue_timer (requeued s t at overrun) k t).0 k t now (some at) v m f
      (next_period-NextDue now _ _ (at, overrun) on e)
      (table-requeued s k t overrun at (v.lists.queue_used k t m) (v.lists.queue_owner k t m))

expire-Change :
    (s : State) (k t : ℕ) (now : Timespec)
    → Inv s
    → mem t (s.thread k).timer_queue ≡ true
    → FirstDue s k t now
    → PassChange now (table s) (expire s k t now)
unfolding expire unlink_timer
expire-Change s k t now v m f = elim (Bool-cases (is_set (s.timer t).value.it_interval)) [
  | inl on ↦ rw on (
      requeue-Change s k t now v m f on
        (next_period now (s.timer t).value.it_interval (s.timer t).expirytime) refl)
  | inr off ↦ rw off (
      begin-Change s (unlink_timer s t) k t now none v m f
        (never (sym (is_set_eq (s.timer t).value.it_interval) ∙ off))
        (table-unlink_timer s t (v.lists.queue_used k t m)))
]

-- Every timer of a queue is due no earlier than the first.
pub NoneBefore-mem :
    (expiry : ℕ → Timespec) (e : Timespec) (ts : List ℕ) (u : ℕ)
    → NoneBefore expiry e ts
    → mem u ts ≡ true
    → earlier (expiry u) e ≡ false
NoneBefore-mem expiry e [] u n m = absurd (ground arith)
NoneBefore-mem expiry e (t ∷ ts) u n m = elim (Bool-cases (t == u)) [
  | inl q ↦ subst (λ x. earlier (expiry x) e ≡ false) ((==_iff t u).0 q) n.0
  | inr q ↦ NoneBefore-mem expiry e ts u n.1 (ground (arith, ==_iff t u, ==_iff u t))
]

-- What a timer of the table that is due tells of its node.
due_node :
    (used waits : Bool) (x : TimerNode) (n : Timer) (other : Timespec)
    → (if used then some (timer_of x (if waits then some x.expirytime else none)) else none)
      ≡ some n
    → n.due ≡ some other
    → (waits ≡ true) × ((x.thread ≡ n.thread) × (x.expirytime ≡ other))
due_node false waits x n other e d = absurd (cc)
due_node true waits x n other e d = known waits same refl
  where
    same : timer_of x (if waits then some x.expirytime else none) ≡ n
    same = cc

    known :
        (w : Bool)
        → timer_of x (if w then some x.expirytime else none) ≡ n
        → w ≡ waits
        → (waits ≡ true) × ((x.thread ≡ n.thread) × (x.expirytime ≡ other))
    known true q h = (sym h, (ap (λ (y : Timer). y.thread) q, at))
      where
        at : x.expirytime ≡ other
        at = let z : some x.expirytime ≡ some other = ap (λ (y : Timer). y.due) q ∙ d in cc
    known false q h = let z : none ≡ some other = ap (λ (y : Timer). y.due) q ∙ d in absurd (cc)

-- What is waiting, in the table, is in the queue.
waiting-queued :
    (s : State) (u k : ℕ) (n : Timer) (other : Timespec)
    → table s u ≡ some n
    → n.thread ≡ some k
    → n.due ≡ some other
    → (mem u (s.thread k).timer_queue ≡ true) × ((s.timer u).expirytime ≡ other)
unfolding table
waiting-queued s u k n other e th d =
    let (w, (owner, at)) =
      due_node (is_in_use (s.timer u).inuse) (pending s u) (s.timer u) n other e d in
    (subst (λ x. pending_on s u x ≡ true) (owner ∙ th) w, at)

pass_on-Change :
    (s : State) (k : ℕ) (now : Timespec) (queue : List ℕ)
    → (s.thread k).timer_queue ≡ queue
    → Inv s
    → PassChange now (table s) (pass_on s k now queue)
unfolding pass_on
pass_on-Change s k now [] e v = tt
pass_on-Change s k now (t ∷ rest) e v = elim (Bool-cases (is_before now (s.timer t).expirytime)) [
  | inl h ↦ rw h tt
  | inr h ↦ rw h (
      expire-Change s k t now v waits
        (due, (sym (is_before_eq now (s.timer t).expirytime) ∙ h, earliest)))
]
  where
    waits : mem t (s.thread k).timer_queue ≡ true
    waits = rw e (ground (arith, ==_refl t))

    due : (entry s t).due ≡ some (s.timer t).expirytime
    due = rw (v.lists.queue_owner k t waits, waits) refl

    order : Sorted (λ u. (s.timer u).expirytime) (t ∷ rest)
    order = subst (Sorted (λ u. (s.timer u).expirytime)) e (v.lists.sorted k)

    earliest : Earliest (table s) k (s.timer t).expirytime
    earliest u n other m th d =
        let (q, x) = waiting-queued s u k n other m th d in
        subst (λ y. earlier y (s.timer t).expirytime ≡ false) x
          (NoneBefore-mem (λ u. (s.timer u).expirytime) (s.timer t).expirytime (t ∷ rest) u
            (earlier_irrefl (s.timer t).expirytime, order.0) (subst (λ y. mem u y ≡ true) e q))

pub thread_pass-Change :
    (s : State) (k : ℕ) (now : Timespec) → Inv s → PassChange now (table s) (thread_pass s k now)
unfolding thread_pass
thread_pass-Change s k now v = pass_on-Change s k now (s.thread k).timer_queue refl v

pub expire_end-Change : (s : State) (k : ℕ) → Change ended (table s) (table (expire_end s k))
unfolding expire_end table
expire_end-Change s k = to (sym (table-current s k none)) (stays tt)
