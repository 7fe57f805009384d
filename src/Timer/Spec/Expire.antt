-- ===== src/Timer/Spec/Expire.antt =====
-- The expiration of a timer, as a change of the table of timers.
use pc.Base.{
  ◌∙◌, ℕ, zero, suc, ◌<◌, ◌+◌, ltb, ◌==◌, ==_iff, ==_refl, ◌≡◌, refl, sym, ap, fun_ext, subst,
  arith, if◌then◌else◌, true, false, Option, some, none, mem, update, Bool-cases, inl, inr,
}
use pc.Timer.Timespec.{Timespec, is_set, is_before}
use pc.Timer.Timespec.Clock.{earlier, plus, is_before_eq, timespec_add_eq, is_set_eq}
use pc.Timer.State.{State, in_use, set_timer, set_thread, unlink_timer, delaytimer_max}
use pc.Timer.Threads.{queue_timer}
use pc.Timer.Service.{catch_up, next_period}
use pc.Timer.Period.{periods, catch_up-due, catch_up-over}
use pc.Timer.Spec.{pending_on, table}
use pc.Timer.Spec.Change.{NextDue, again}
use pc.Timer.Spec.Calls.{entry, pending-unlink_timer, table-unlink_timer_other}
use pc.Timer.Settime.{enqueue}
use pc.Timer.Spec.Moves.{queued_by, pending-queue}

-- Where the loop that skips periods ends.
record Lands (now interval expiry : Timespec) (r : Timespec) : Type 0 where
  count : ℕ
  lands : r ≡ periods count expiry interval
  due : earlier r now ≡ false
  over : (m : ℕ) → m < count → earlier (periods m expiry interval) now ≡ true

catch_up-Lands :
    (fuel : ℕ) (now interval expiry : Timespec) (overrun : ℕ) (r : Timespec × ℕ)
    → catch_up fuel now interval expiry overrun ≡ some r
    → Lands now interval expiry r.0
unfolding catch_up
catch_up-Lands zero now interval expiry overrun r e = absurd (cc)
catch_up-Lands (suc fuel) now interval expiry overrun r e =
    elim (Bool-cases (is_before expiry now)) [
      | inr b ↦
          let landed : expiry ≡ r.0 =
            found (sym (catch_up-due fuel now interval expiry overrun b) ∙ e) in
          record {
            count = 0;
            lands = sym landed;
            due = subst (λ x. earlier x now ≡ false) landed (sym (is_before_eq expiry now) ∙ b);
            over = λ m h. absurd (omega arith);
          }
      | inl b ↦
          let l =
            catch_up-Lands fuel now interval (plus expiry interval)
              (if ltb overrun delaytimer_max then overrun + 1 else overrun) r
              (sym (catch_up-over fuel now interval expiry overrun b) ∙ e) in
          record {
            count = suc l.count;
            lands = l.lands;
            due = l.due;
            over = elim [
              | zero ↦ λ h. sym (is_before_eq expiry now) ∙ b
              | suc m ↦ λ h. l.over m (omega arith)
            ];
          }
    ]
  where
    pair : some (expiry, overrun) ≡ some r → (expiry, overrun) ≡ r
    pair q = cc

    found : some (expiry, overrun) ≡ some r → expiry ≡ r.0
    found q = ap (λ (x : Timespec × ℕ). x.0) (pair q)

pub next_period-NextDue :
    (now interval at : Timespec) (r : Timespec × ℕ)
    → is_set interval ≡ true
    → next_period now interval at ≡ some r
    → NextDue now interval at (some r.0)
unfolding next_period
next_period-NextDue now interval at r on e =
    let l =
      catch_up-Lands _ now interval (plus at interval) 0 r
        (rw (timespec_add_eq at interval) at e) in
    subst (λ x. NextDue now interval at (some x)) (sym l.lands)
      (again l.count (sym (is_set_eq interval) ∙ on)
        (subst (λ x. earlier x now ≡ false) l.lands l.due) l.over)

-- Noting the timer that runs does not change the table.
pending-current :
    (s : State) (k u : ℕ) (c : Option ℕ) (th : Option ℕ)
    → pending_on (set_thread s k (record (s.thread k) { current_timer = c })) u th
      ≡ pending_on s u th
pending-current s k u c none = refl
pending-current s k u c (some j) = ground (arith, ==_iff k j)

pub table-current :
    (s : State) (k : ℕ) (c : Option ℕ)
    → table (set_thread s k (record (s.thread k) { current_timer = c })) ≡ table s
unfolding table
table-current s k c = fun_ext λ u. rw (pending-current s k u c (s.timer u).thread) refl

-- A timer that leaves its queue for good.
pub table-unlink_timer :
    (s : State) (t : ℕ)
    → (s.timer t).inuse ≡ in_use
    → table (unlink_timer s t) ≡ update (table s) t (some (record (entry s t) { due = none }))
unfolding table unlink_timer
table-unlink_timer s t used = fun_ext λ u. elim (Bool-cases (t == u)) [
  | inl e ↦
      rw
        (
          sym ((==_iff t u).0 e),
          ==_refl t,
          used,
          pending-unlink_timer s t t (s.timer t).thread,
          ==_refl t,
        )
        refl
  | inr e ↦ rw e (table-unlink_timer_other s t u e)
]

pending-queue_timer :
    (s : State) (t u k : ℕ) (th : Option ℕ)
    → ((j : ℕ) → mem t (s.thread j).timer_queue ≡ false)
    → pending_on (queue_timer s k t).0 u th
      ≡ (if t == u then queued_by (some k) th else pending_on s u th)
unfolding enqueue
pending-queue_timer s t u k th out = pending-queue s t u (some k) th out

-- The timer as it is queued again.
abbrev pub requeued : State → ℕ → Timespec → ℕ → State
requeued s t at overrun =
    let s1 = unlink_timer s t in
    set_timer s1 t (record (s1.timer t) { expirytime = at; overrun_count = overrun })

requeued-out :
    (s : State) (t overrun : ℕ) (at : Timespec) (j : ℕ)
    → mem t ((requeued s t at overrun).thread j).timer_queue ≡ false
requeued-out s t overrun at j = pending-unlink_timer s t t (some j) ∙ rw (==_refl t) refl

pending-requeued :
    (s : State) (t u overrun : ℕ) (at : Timespec) (th : Option ℕ)
    → (t == u) ≡ false
    → pending_on (requeued s t at overrun) u th ≡ pending_on s u th
pending-requeued s t u overrun at none ne = refl
pending-requeued s t u overrun at (some j) ne = pending-unlink_timer s t u (some j) ∙ rw ne refl

queue_timer-timer : (s : State) (k t : ℕ) → (queue_timer s k t).0.timer ≡ s.timer
unfolding queue_timer
queue_timer-timer s k t = refl

requeued-timer :
    (s : State) (t overrun : ℕ) (at : Timespec) (u : ℕ)
    → (requeued s t at overrun).timer u ≡ (
        if t == u
        then record (s.timer t) { expirytime = at; overrun_count = overrun }
        else s.timer u)
unfolding unlink_timer
requeued-timer s t overrun at u = refl

-- A timer that is queued again.
pub table-requeued :
    (s : State) (k t overrun : ℕ) (at : Timespec)
    → (s.timer t).inuse ≡ in_use
    → (s.timer t).thread ≡ some k
    → table (queue_timer (requeued s t at overrun) k t).0
      ≡ update (table s) t (some (record (entry s t) { due = some at }))
unfolding table
table-requeued s k t overrun at used owner = fun_ext λ u.
    rw (queue_timer-timer (requeued s t at overrun) k t, requeued-timer s t overrun at u)
      (elim (Bool-cases (t == u)) [
        | inl e ↦
            rw (sym ((==_iff t u).0 e), ==_refl t)
              (rw
                (
                  used,
                  owner,
                  pending-queue_timer (requeued s t at overrun) t t k (some k)
                      (requeued-out s t overrun at),
                  ==_refl t,
                  ==_refl k,
                )
                refl)
        | inr e ↦ rw e (
            rw
              (
                pending-queue_timer (requeued s t at overrun) t u k (s.timer u).thread
                    (requeued-out s t overrun at),
                e,
                pending-requeued s t u overrun at (s.timer u).thread e,
              )
              refl)
      ])
