-- ===== src/Timer/Spec/Moves.antt =====
-- What the parts of `__timer_settime` do to the table of timers.
use pc.Base.{
  ◌∙◌, ℕ, ◌==◌, ==_iff, ==_refl, ◌≡◌, refl, sym, arith, if◌then◌else◌, Bool, true, false, Option,
  some, none, mem, update, Bool-cases, inl, inr, mem-remove,
}
use pc.Timer.Timespec.{Timespec, Itimerspec, timespec_add, is_set}
use pc.Timer.Timespec.Clock.{is_set_eq}
use pc.Timer.State.{State, TimerNode, in_use, increment, unlink_timer}
use pc.Timer.Pool.{timer_addref}
use pc.Timer.Threads.{queue_timer}
use pc.Timer.Order.{mem-insert}
use pc.Timer.Settime.{arm, disarm, set_expiry, enqueue_armed, enqueue, is_abstime}
use pc.Timer.Behaviour.{settled}
use pc.Base.Int.{pos}
use pc.Timer.Invariant.Settime.{timer-enqueue}
use pc.Timer.Spec.{pending_on, table, due_at, set_by, timer_of}

-- The place of timer `u` after timer `t` has been queued with thread `th`.
pending-enqueue :
    (s : State) (t u : ℕ) (th to : Option ℕ)
    → ((k : ℕ) → mem t (s.thread k).timer_queue ≡ false)
    → pending_on (enqueue s t th).0 u to ≡ (
        if t == u
        then (elim th [
          | none ↦ pending_on s u to
          | some k ↦ elim to [ none ↦ false | some j ↦ k == j ]
        ])
        else pending_on s u to)
unfolding enqueue queue_timer
pending-enqueue s t u none to out = ground arith
pending-enqueue s t u (some k) none out = ground arith
pending-enqueue s t u (some k) (some j) out = ground (
  arith,
  ==_iff t u,
  ==_iff u t,
  ==_iff k j,
  out k,
  out j,
  mem-insert (λ v. (s.timer v).expirytime) t true (s.thread k).timer_queue u,
)

-- The node after it has left its queue, with its new value.
abbrev disarmed : TimerNode → Itimerspec → TimerNode
disarmed n value = record n { refcount = increment n.refcount; value = value; armed = false }

timer-disarm :
    (s : State) (t u : ℕ) (value : Itimerspec)
    → (disarm (timer_addref s t) t value).timer u
      ≡ (if t == u then disarmed (s.timer t) value else s.timer u)
unfolding disarm unlink_timer timer_addref
timer-disarm s t u value = ground (arith, ==_refl t)

pending-disarm :
    (s : State) (t u : ℕ) (value : Itimerspec) (to : Option ℕ)
    → pending_on (disarm (timer_addref s t) t value) u to
      ≡ (if t == u then false else pending_on s u to)
unfolding disarm unlink_timer timer_addref
pending-disarm s t u value none = ground arith
pending-disarm s t u value (some k) = ground (arith, mem-remove t u (s.thread k).timer_queue)

-- The time that the timer is set to.
abbrev pub time_of : ℕ → Itimerspec → Timespec → Timespec
time_of flags value now =
    if is_abstime flags then value.it_value else timespec_add now value.it_value

timer-set_expiry :
    (s : State) (t u flags : ℕ) (value : Itimerspec) (now : Timespec)
    → (set_expiry s t flags value now).timer u
      ≡ (if t == u then record (s.timer t) { expirytime = time_of flags value now } else s.timer u)
unfolding set_expiry
timer-set_expiry s t u flags value now = refl

abbrev due_state : State → ℕ → ℕ → Itimerspec → Timespec → State
due_state s t flags value now = set_expiry (disarm (timer_addref s t) t value) t flags value now

-- The node of a timer that is set to a time.
abbrev armed_node : TimerNode → Itimerspec → Timespec → TimerNode
armed_node n value at = record n { refcount = pos 1; value = value; armed = true; expirytime = at }

timer-armed :
    (s : State) (t u flags : ℕ) (value : Itimerspec) (now : Timespec)
    → is_set value.it_value ≡ true
    → (settled s t flags value now).timer u
      ≡ (if t == u then armed_node (s.timer t) value (time_of flags value now) else s.timer u)
unfolding arm enqueue_armed
timer-armed s t u flags value now on = ground (
  arith,
  ==_refl t,
  timer-enqueue (due_state s t flags value now) t ((due_state s t flags value now).timer t).thread,
  timer-set_expiry (disarm (timer_addref s t) t value) t u flags value now,
  timer-set_expiry (disarm (timer_addref s t) t value) t t flags value now,
  timer-disarm s t u value,
  timer-disarm s t t value,
)

timer-idle :
    (s : State) (t u flags : ℕ) (value : Itimerspec) (now : Timespec)
    → is_set value.it_value ≡ false
    → (settled s t flags value now).timer u ≡ (
        if t == u
        then record (s.timer t) { refcount = pos 1; value = value; armed = false }
        else s.timer u)
unfolding arm
timer-idle s t u flags value now on =
    ground (arith, ==_refl t, timer-disarm s t u value, timer-disarm s t t value)

abbrev pub queued_by : Option ℕ → Option ℕ → Bool
queued_by none to = false
queued_by (some k) none = false
queued_by (some k) (some j) = k == j

queued_by_self :
    (th : Option ℕ) (at : Timespec) → (if queued_by th th then some at else none) ≡ due_at th at
queued_by_self none at = refl
queued_by_self (some k) at = rw (==_refl k) refl

thread-due :
    (s : State) (t flags : ℕ) (value : Itimerspec) (now : Timespec)
    → ((due_state s t flags value now).timer t).thread ≡ (s.timer t).thread
thread-due s t flags value now = ground (
  arith,
  ==_refl t,
  timer-set_expiry (disarm (timer_addref s t) t value) t t flags value now,
  timer-disarm s t t value,
)

pending-idle :
    (s : State) (t u flags : ℕ) (value : Itimerspec) (now : Timespec) (to : Option ℕ)
    → is_set value.it_value ≡ false
    → pending_on (settled s t flags value now) u to ≡ (if t == u then false else pending_on s u to)
unfolding arm
pending-idle s t u flags value now none on = ground arith
pending-idle s t u flags value now (some k) on = rw on (pending-disarm s t u value (some k))

not_pending :
    (s : State) (t : ℕ) (to : Option ℕ)
    → ((k : ℕ) → mem t (s.thread k).timer_queue ≡ false)
    → pending_on s t to ≡ false
not_pending s t none out = refl
not_pending s t (some k) out = out k

pub pending-queue :
    (s : State) (t u : ℕ) (th to : Option ℕ)
    → ((k : ℕ) → mem t (s.thread k).timer_queue ≡ false)
    → pending_on (enqueue s t th).0 u to ≡ (if t == u then queued_by th to else pending_on s u to)
pending-queue s t u none to out =
    ground (arith, pending-enqueue s t u none to out, ==_iff t u, not_pending s t to out)
pending-queue s t u (some k) none out = pending-enqueue s t u (some k) none out
pending-queue s t u (some k) (some j) out = pending-enqueue s t u (some k) (some j) out

out_of_queues :
    (s : State) (t : ℕ) (flags : ℕ) (value : Itimerspec) (now : Timespec) (k : ℕ)
    → mem t ((due_state s t flags value now).thread k).timer_queue ≡ false
unfolding set_expiry
out_of_queues s t flags value now k = pending-disarm s t t value (some k) ∙ rw (==_refl t) refl

pending-set_expiry :
    (s : State) (t u flags : ℕ) (value : Itimerspec) (now : Timespec) (to : Option ℕ)
    → pending_on (due_state s t flags value now) u to
      ≡ pending_on (disarm (timer_addref s t) t value) u to
unfolding set_expiry
pending-set_expiry s t u flags value now none = refl
pending-set_expiry s t u flags value now (some k) = refl

none_left : (b : Bool) (th : Option ℕ) → false ≡ (if b then queued_by th none else false)
none_left true none = refl
none_left true (some k) = refl
none_left false th = refl

twice : (b x y : Bool) → (if b then x else if b then false else y) ≡ (if b then x else y)
twice true x y = refl
twice false x y = refl

pending-armed :
    (s : State) (t u flags : ℕ) (value : Itimerspec) (now : Timespec) (to : Option ℕ)
    → is_set value.it_value ≡ true
    → pending_on (settled s t flags value now) u to
      ≡ (if t == u then queued_by (s.timer t).thread to else pending_on s u to)
unfolding arm enqueue_armed
pending-armed s t u flags value now none on = none_left (t == u) (s.timer t).thread
pending-armed s t u flags value now (some k) on =
    let d = due_state s t flags value now in
    rw
      (
        on,
        pending-queue d t u (d.timer t).thread (some k) (out_of_queues s t flags value now),
        thread-due s t flags value now,
        pending-set_expiry s t u flags value now (some k),
        pending-disarm s t u value (some k),
      )
      (twice (t == u) _ _)

pub table-settled :
    (s : State) (t u flags : ℕ) (value : Itimerspec) (now : Timespec)
    → (s.timer t).inuse ≡ in_use
    → table (settled s t flags value now) u
      ≡ update
          (table s)
          t
          (some (set_by (timer_of (s.timer t) none) value (time_of flags value now)))
          u
unfolding table
table-settled s t u flags value now used = elim (Bool-cases (is_set value.it_value)) [
  | inl on ↦ rw (timer-armed s t u flags value now on) (elim (Bool-cases (t == u)) [
    | inl e ↦ rw (e) (
        rw
          (
            used,
            pending-armed s t u flags value now (s.timer t).thread on,
            e,
            sym (is_set_eq value.it_value) ∙ on,
            queued_by_self (s.timer t).thread (time_of flags value now),
          )
          refl)
    | inr e ↦ rw (e) (rw (pending-armed s t u flags value now (s.timer u).thread on, e) refl)
  ])
  | inr on ↦ rw (timer-idle s t u flags value now on) (elim (Bool-cases (t == u)) [
    | inl e ↦ rw (e) (
        rw
          (
            used,
            pending-idle s t u flags value now (s.timer t).thread on,
            e,
            sym (is_set_eq value.it_value) ∙ on,
          )
          refl)
    | inr e ↦ rw (e) (rw (pending-idle s t u flags value now (s.timer u).thread on, e) refl)
  ])
]
