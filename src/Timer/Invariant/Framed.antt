-- ===== src/Timer/Invariant/Framed.antt =====
-- A relation between states: the lists of threads are kept, and the threads of the timers in use. The parts that the
-- calls are made of are in it.
pub mod Calls
use pc.Base.{
  ◌∙◌, ℕ, ◌||◌, ◌≡◌, refl, arith, if◌then◌else◌, ==_iff, Bool, true, false, Option, some, none,
  List, [], ◌∷◌, Bool-cases, inl, inr,
}
use pc.Base.Int.{ℤ}
use pc.Timer.Timespec.{Timespec, Itimerspec, is_set, is_before, bad_nsec, zero_itimerspec}
use pc.Timer.State.{
  State, TimerNode, ThreadNode, Errno, in_use, deleted, einval, set_timer, set_thread, set_errno,
  unlink_timer, is_zero, decrement, is_in_use,
}
use pc.Timer.Pool.{timer_addref, timer_delref, timer_dealloc}
use pc.Timer.Threads.{queue_timer}
use pc.Timer.Settime.{
  enqueue, enqueue_armed, disarm, set_expiry, arm, wake, settime_locked, timer_settime,
}
use pc.Timer.Delete.{
  Outcome, returns, waits, delete_finish, delete_resume, delete_valid, timer_delete, must_wait,
}
use pc.Timer.Service.{
  Pass, sleeps, sleeps_until, fires, diverges, expire_begin, requeue, expire, pass_on, thread_pass,
  expire_end,
}
use pc.Timer.Api.{os_timer_del, os_timer_start, os_timer_stop, os_timer_settime, start_value}

pub record Framed (s u : State) : Type 0 where
  pub free_list : u.thread_free_list ≡ s.thread_free_list
  pub active_list : u.thread_active_list ≡ s.thread_active_list
  pub running : (k : ℕ) → (u.thread k).exists ≡ (s.thread k).exists
  pub owner :
      (t : ℕ)
      → (u.timer t).inuse ≡ in_use
      → ((s.timer t).inuse ≡ in_use) × ((u.timer t).thread ≡ (s.timer t).thread)

pub Framed-refl : (s : State) → Framed s s
Framed-refl s = record {
  free_list = refl;
  active_list = refl;
  running = λ k. refl;
  owner = λ t e. (e, refl);
}

pub Framed-trans : {s u w : State} → Framed s u → Framed u w → Framed s w
Framed-trans a b = record {
  free_list = b.free_list ∙ a.free_list;
  active_list = b.active_list ∙ a.active_list;
  running = λ k. b.running k ∙ a.running k;
  owner = λ t e. ((a.owner t (b.owner t e).0).0, (b.owner t e).1 ∙ (a.owner t (b.owner t e).0).1);
}

pub set_timer-Framed :
    (s : State) (t : ℕ) (n : TimerNode)
    → (n.inuse ≡ in_use → ((s.timer t).inuse ≡ in_use) × (n.thread ≡ (s.timer t).thread))
    → Framed s (set_timer s t n)
set_timer-Framed s t n h = record {
  free_list = refl;
  active_list = refl;
  running = λ k. refl;
  owner = λ u e. ground (arith, ==_iff t u);
}

pub set_thread-Framed :
    (s : State) (k : ℕ) (n : ThreadNode)
    → n.exists ≡ (s.thread k).exists
    → Framed s (set_thread s k n)
set_thread-Framed s k n h = record {
  free_list = refl;
  active_list = refl;
  running = λ j. ground (arith, ==_iff k j);
  owner = λ u e. (e, refl);
}

pub unlink_timer-Framed : (s : State) (t : ℕ) → Framed s (unlink_timer s t)
unfolding unlink_timer
unlink_timer-Framed s t = record {
  free_list = refl;
  active_list = refl;
  running = λ k. refl;
  owner = λ t e. (e, refl);
}

pub errno-Framed : (s : State) (e : Errno) → Framed s (set_errno s e)
errno-Framed s e = record {
  free_list = refl;
  active_list = refl;
  running = λ k. refl;
  owner = λ t e. (e, refl);
}

pub queue_timer-Framed : (s : State) (k t : ℕ) → Framed s (queue_timer s k t).0
unfolding queue_timer
queue_timer-Framed s k t = set_thread-Framed s k _ refl

pub wake-Framed : (s : State) (th : Option ℕ) (need : Bool) → Framed s (wake s th need)
wake-Framed s none need = Framed-refl s
wake-Framed s (some k) true = record {
  free_list = refl;
  active_list = refl;
  running = λ k. refl;
  owner = λ t e. (e, refl);
}
wake-Framed s (some k) false = Framed-refl s

pub timer_dealloc-Framed : (s : State) (t : ℕ) → Framed s (timer_dealloc s t)
unfolding timer_dealloc unlink_timer
timer_dealloc-Framed s t = record {
  free_list = refl;
  active_list = refl;
  running = λ k. refl;
  owner = λ u e. ground (arith, ==_iff t u);
}

pub timer_addref-Framed : (s : State) (t : ℕ) → Framed s (timer_addref s t)
unfolding timer_addref
timer_addref-Framed s t = set_timer-Framed s t _ (λ e. (e, refl))

if-Framed : (s x y : State) (b : Bool) → Framed s x → Framed s y → Framed s (if b then x else y)
if-Framed s x y true f g = f
if-Framed s x y false f g = g

pub timer_delref-Framed : (s : State) (t : ℕ) → Framed s (timer_delref s t)
unfolding timer_delref
timer_delref-Framed s t =
    if-Framed s (timer_dealloc dropped t) dropped (is_zero (dropped.timer t).refcount)
      (Framed-trans same (timer_dealloc-Framed dropped t)) same
  where
    dropped : State
    dropped = set_timer s t (record (s.timer t) { refcount = decrement (s.timer t).refcount })

    same : Framed s dropped
    same = set_timer-Framed s t _ (λ e. (e, refl))
