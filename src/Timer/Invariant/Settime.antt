-- ===== src/Timer/Invariant/Settime.antt =====
-- `__timer_settime` keeps the invariant.
use pc.Base.{
  ◌∙◌, subst, mem-remove, fun_ext, ap, ℕ, ◌≡◌, refl, arith, ==_iff, ==_refl, true, Option, some,
  none, Bool-cases, inl, inr,
}
use pc.Timer.Timespec.{Timespec, Itimerspec, is_set}
use pc.Timer.State.{State, TimerNode, in_use, set_timer, set_thread, unlink_timer}
use pc.Timer.Threads.{queue_timer, insert_timer}
use pc.Timer.Settime.{arm, enqueue, disarm, set_expiry, enqueue_armed}
use pc.Timer.Invariant.{Lists}
use pc.Timer.Invariant.Moves.{
  Unqueued, set_timer-Lists, set-Unqueued-Lists, unlink-Unqueued, unlink_timer-Lists,
  queue_timer-Lists,
}

-- A change that keeps the expiry time may be made before the timer is queued or after.
queue_timer-set_timer :
    (s : State) (k t : ℕ) (n : TimerNode)
    → n.expirytime ≡ (s.timer t).expirytime
    → (queue_timer (set_timer s t n) k t).0 ≡ set_timer (queue_timer s k t).0 t n
unfolding queue_timer
queue_timer-set_timer s k t n e =
    ap
      (λ (f : ℕ → Timespec).
        set_thread (set_timer s t n) k (record (s.thread k) {
          timer_queue = (insert_timer f t true (s.thread k).timer_queue).0;
        }))
      (fun_ext λ u. ground (arith, ==_iff t u))

-- The timer that is armed joins the queue of its thread.
enqueue_on-Lists :
    (s : State) (t : ℕ) (th : Option ℕ)
    → (s.timer t).inuse ≡ in_use
    → (s.timer t).thread ≡ th
    → Unqueued s t
    → Lists s
    → Lists (set_timer (enqueue s t th).0 t (record ((enqueue s t th).0.timer t) { armed = true }))
unfolding enqueue
enqueue_on-Lists s t none used e out l = set-Unqueued-Lists s t _ refl out l
enqueue_on-Lists s t (some k) used e out l = subst Lists (queue_timer-set_timer s k t n refl) (
    queue_timer-Lists (set_timer s t n) k t (rw (==_refl t) used) (rw (==_refl t))
      (rw (==_refl t) e) (set-Unqueued-Lists s t n refl out l))
  where
    n : TimerNode
    n = record (s.timer t) { armed = true }

disarm-Lists :
    (s : State) (t : ℕ) (value : Itimerspec)
    → (s.timer t).inuse ≡ in_use
    → Lists s
    → Lists (disarm s t value)
unfolding disarm
disarm-Lists s t value used l = set-Unqueued-Lists _ t _ refl (unlink-Unqueued s0 t) (
    unlink_timer-Lists s0 t (rw (==_refl t) (λ e. cc))
      (set_timer-Lists s t _ refl refl refl refl l))
  where
    s0 : State
    s0 = set_timer s t (record (s.timer t) { value = value })

disarm-Unqueued : (s : State) (t : ℕ) (value : Itimerspec) → Unqueued (disarm s t value) t
unfolding disarm unlink_timer
disarm-Unqueued s t value k = rw (mem-remove, ==_refl)

-- Arming keeps what counts: whether each timer is in use, its references and its thread.
disarm-fields :
    (s : State) (t u : ℕ) (value : Itimerspec)
    → let n = (disarm s t value).timer u in
      (n.inuse ≡ (s.timer u).inuse)
      × (n.refcount ≡ (s.timer u).refcount)
      × (n.thread ≡ (s.timer u).thread)
unfolding disarm unlink_timer
disarm-fields s t u value = ground (arith, ==_iff t u)

set_expiry-fields :
    (s : State) (t u flags : ℕ) (value : Itimerspec) (now : Timespec)
    → let n = (set_expiry s t flags value now).timer u in
      (n.inuse ≡ (s.timer u).inuse)
      × (n.refcount ≡ (s.timer u).refcount)
      × (n.thread ≡ (s.timer u).thread)
unfolding set_expiry
set_expiry-fields s t u flags value now = ground (arith, ==_iff t u)

pub timer-enqueue : (s : State) (t : ℕ) (th : Option ℕ) → (enqueue s t th).0.timer ≡ s.timer
unfolding enqueue queue_timer
timer-enqueue s t none = refl
timer-enqueue s t (some k) = refl

enqueue_armed-fields :
    (s : State) (t u : ℕ)
    → let n = (enqueue_armed s t).0.timer u in
      (n.inuse ≡ (s.timer u).inuse)
      × (n.refcount ≡ (s.timer u).refcount)
      × (n.thread ≡ (s.timer u).thread)
unfolding enqueue_armed
enqueue_armed-fields s t u = rw (timer-enqueue s t (s.timer t).thread) (ground (arith, ==_iff t u))

pub arm-fields :
    (s : State) (t u flags : ℕ) (value : Itimerspec) (now : Timespec)
    → let n = (arm s t flags value now).0.timer u in
      (n.inuse ≡ (s.timer u).inuse)
      × (n.refcount ≡ (s.timer u).refcount)
      × (n.thread ≡ (s.timer u).thread)
unfolding arm
arm-fields s t u flags value now =
    let s2 = disarm s t value in
    let s3 = set_expiry s2 t flags value now in
    ground (
      arith,
      disarm-fields s t u value,
      set_expiry-fields s2 t u flags value now,
      enqueue_armed-fields s3 t u,
    )

set_expiry-Lists :
    (s : State) (t flags : ℕ) (value : Itimerspec) (now : Timespec)
    → Unqueued s t
    → Lists s
    → Lists (set_expiry s t flags value now)
unfolding set_expiry
set_expiry-Lists s t flags value now out l = set-Unqueued-Lists s t _ refl out l

set_expiry-Unqueued :
    (s : State) (t flags : ℕ) (value : Itimerspec) (now : Timespec)
    → Unqueued s t
    → Unqueued (set_expiry s t flags value now) t
unfolding set_expiry
set_expiry-Unqueued s t flags value now out = out

enqueue_armed-Lists :
    (s : State) (t : ℕ)
    → (s.timer t).inuse ≡ in_use
    → Unqueued s t
    → Lists s
    → Lists (enqueue_armed s t).0
unfolding enqueue_armed
enqueue_armed-Lists s t used out l = enqueue_on-Lists s t (s.timer t).thread used refl out l

pub arm-Lists :
    (s : State) (t flags : ℕ) (value : Itimerspec) (now : Timespec)
    → (s.timer t).inuse ≡ in_use
    → Lists s
    → Lists (arm s t flags value now).0
unfolding arm
arm-Lists s t flags value now used l = elim (Bool-cases (is_set value.it_value)) [
  | inl e ↦
      rw e (enqueue_armed-Lists s3 t used3 out3 (set_expiry-Lists s2 t flags value now out2 l2))
  | inr e ↦ rw e l2
]
  where
    s2 : State
    s2 = disarm s t value

    s3 : State
    s3 = set_expiry s2 t flags value now

    l2 : Lists s2
    l2 = disarm-Lists s t value used l

    out2 : Unqueued s2 t
    out2 = disarm-Unqueued s t value

    out3 : Unqueued s3 t
    out3 = set_expiry-Unqueued s2 t flags value now out2

    used3 : (s3.timer t).inuse ≡ in_use
    used3 = (set_expiry-fields s2 t t flags value now).0 ∙ ((disarm-fields s t t value).0 ∙ used)
