-- ===== src/Timer/Spec/Serves.antt =====
-- The round of a serving thread of osal/linux/os_timer.c when a timer of its queue is due.
use pc.Base.{
  ℕ, ◌≡◌, ◌∙◌, refl, subst, arith, ==_refl, true, false, some, List, [], ◌∷◌, mem, Bool-cases, inl,
  inr,
}
use pc.Base.Int.{pos, ltb_ℤ}
use pc.Timer.Timespec.{Timespec, is_set}
use pc.Timer.Timespec.Clock.{earlier, is_before_eq}
use pc.Timer.Timespec.Laws.{to_ns, IsNormal}
use pc.Timer.State.{State, by_thread, unlink_timer}
use pc.Timer.Threads.{queue_timer}
use pc.Timer.Service.{Pass, fires, requeue, expire, pass_on, thread_pass}
use pc.Timer.Period.{next_period_total}
use pc.Timer.Order.{NoneBefore, Sorted, earlier_irrefl}
use pc.Timer.Order.Picked.{not_before_trans}
use pc.Timer.Invariant.{Inv}
use pc.Timer.Spec.Passes.{NoneBefore-mem}

-- The timer's handler is called by a thread, its times are normal, and its period, if it has one, is longer than zero.
pub record Timely (s : State) (t : ℕ) : Type 0 where
  pub handled : (s.timer t).event.notify ≡ by_thread
  pub expiry : IsNormal (s.timer t).expirytime
  pub interval : IsNormal (s.timer t).value.it_interval
  pub positive :
      is_set (s.timer t).value.it_interval ≡ true
      → ltb_ℤ (pos 0) (to_ns (s.timer t).value.it_interval) ≡ true

-- A round that calls the handler of the timer with its argument.
pub record Lets (s : State) (p : Pass) (t : ℕ) : Type 0 where
  pub after : State
  pub calls : p ≡ fires after t (some ((s.timer t).event.function, (s.timer t).event.sival_ptr))

expire-Lets :
    (s : State) (k t : ℕ) (now : Timespec) → IsNormal now → Timely s t → Lets s (expire s k t now) t
unfolding expire requeue unlink_timer queue_timer
expire-Lets s k t now nn w = elim (Bool-cases (is_set (s.timer t).value.it_interval)) [
  | inr off ↦ rw (off, w.handled) record { after = _; calls = refl }
  | inl on ↦
      let (r, e, _) =
        next_period_total now (s.timer t).value.it_interval (s.timer t).expirytime nn w.interval
          w.expiry (w.positive on) in
      rw (on, e, ==_refl t, w.handled) record { after = _; calls = refl }
]

-- A round lets a timer run that is due, and that none of the queue comes before.
pub record Serves (s : State) (k : ℕ) (now : Timespec) (p : Pass) : Type 0 where
  pub timer : ℕ
  pub lets : Lets s p timer
  pub waiting : mem timer (s.thread k).timer_queue ≡ true
  pub due : earlier now (s.timer timer).expirytime ≡ false
  pub first :
      (u : ℕ)
      → mem u (s.thread k).timer_queue ≡ true
      → earlier (s.timer u).expirytime (s.timer timer).expirytime ≡ false

pass_on-Serves :
    (s : State) (k t : ℕ) (now : Timespec) (queue : List ℕ)
    → (s.thread k).timer_queue ≡ queue
    → Inv s
    → IsNormal now
    → ((u : ℕ) → mem u queue ≡ true → Timely s u)
    → mem t queue ≡ true
    → earlier now (s.timer t).expirytime ≡ false
    → Serves s k now (pass_on s k now queue)
unfolding pass_on
pass_on-Serves s k t now [] e v nn w m b = absurd (cc)
pass_on-Serves s k t now (h ∷ rest) e v nn w m b =
    rw (is_before_eq now (expiries h) ∙ is_due) record {
      timer = h;
      lets = expire-Lets s k h now nn (w h here);
      waiting = rw e here;
      due = is_due;
      first = λ u q.
          NoneBefore-mem expiries (expiries h) (h ∷ rest) u in_order
            (subst (λ l. mem u l ≡ true) e q);
    }
  where
    expiries : ℕ → Timespec
    expiries u = (s.timer u).expirytime

    here : mem h (h ∷ rest) ≡ true
    here = ground (arith, ==_refl h)

    order : Sorted expiries (h ∷ rest)
    order = subst (Sorted expiries) e (v.lists.sorted k)

    in_order : NoneBefore expiries (expiries h) (h ∷ rest)
    in_order = (earlier_irrefl (expiries h), order.0)

    is_due : earlier now (expiries h) ≡ false
    is_due =
        not_before_trans now (expiries t) (expiries h) b
          (NoneBefore-mem expiries (expiries h) (h ∷ rest) t in_order m)

-- In a state with the invariant, with normal times in the queue, a timer of which is due, a round of the thread
-- lets the first timer of the queue run.
pub thread_pass-Serves :
    (s : State) (k t : ℕ) (now : Timespec)
    → Inv s
    → IsNormal now
    → ((u : ℕ) → mem u (s.thread k).timer_queue ≡ true → Timely s u)
    → mem t (s.thread k).timer_queue ≡ true
    → earlier now (s.timer t).expirytime ≡ false
    → Serves s k now (thread_pass s k now)
unfolding thread_pass
thread_pass-Serves s k t now v nn w m b =
    pass_on-Serves s k t now (s.thread k).timer_queue refl v nn w m b
