-- ===== src/Osal/Timers/Change.antt =====
-- What `osal_timer_change` comes to on a running timer.
use pc.Base.{◌∙◌, ap, subst, ℕ, ◌<◌, ◌≡◌, refl, ==_refl, true, some}
use pc.Base.Int.{ℤ, pos, ltb_ℤ}
use pc.Timer.Timespec.{Timespec}
use pc.Timer.Timespec.Clock.{millis, plus}
use pc.Timer.State.{State, in_use, timer_max, set_timer}
use pc.Timer.Api.{os_timer_stop, os_timer_settime}
use pc.Timer.Invariant.{Inv}
use pc.Timer.Invariant.Api.{os_timer_stop-Inv, os_timer_settime-Inv}
use pc.Timer.Behaviour.Calls.{os_timer_start-arms, os_timer_stop-disarms, os_timer_stop-keeps}
use pc.Osal.Status.{success}
use pc.Osal.Timers.{osal_timer_change}

-- The state after the stop and the new period.
abbrev changed : State → ℕ → ℤ → Timespec → State
changed s t millisec now = (os_timer_settime (os_timer_stop s (some t) now).0 (some t) millisec).0

changed-eq :
    (s : State) (t : ℕ) (millisec : ℤ) (now : Timespec)
    → Inv s
    → (s.timer t).inuse ≡ in_use
    → ltb_ℤ (pos 0) millisec ≡ true
    → os_timer_settime (os_timer_stop s (some t) now).0 (some t) millisec ≡ (
      set_timer
          (os_timer_stop s (some t) now).0
          t
          (record ((os_timer_stop s (some t) now).0.timer t) { millisec = millisec }),
      true,
    )
unfolding os_timer_settime
changed-eq s t millisec now v used h = rw (h, (os_timer_stop-keeps s t now v used).0) refl

-- In a state with the invariant, changing a timer in use, one of the 256, served by a thread, to a
-- positive period succeeds, and the timer is armed to expire the new period after the later of the two
-- clock readings of the call.
pub osal_timer_change-arms :
    (s : State) (t k : ℕ) (millisec : ℤ) (now later : Timespec)
    → Inv s
    → t < timer_max
    → (s.timer t).inuse ≡ in_use
    → (s.timer t).thread ≡ some k
    → ltb_ℤ (pos 0) millisec ≡ true
    → let r = osal_timer_change s t millisec now later in
      (r.1 ≡ success)
      × (((r.0.timer t).armed ≡ true) × ((r.0.timer t).expirytime ≡ plus later (millis millisec)))
unfolding osal_timer_change
osal_timer_change-arms s t k millisec now later v lt used e h =
    let stopped = (os_timer_stop s (some t) now).0 in
    let next = set_timer stopped t (record (stopped.timer t) { millisec = millisec }) in
    let keeps = os_timer_stop-keeps s t now v used in
    let eq = changed-eq s t millisec now v used h in
    let inv =
      subst Inv (ap (λ p. p.0) eq)
        (os_timer_settime-Inv stopped t millisec (os_timer_stop-Inv s t now v lt)) in
    let armed =
      os_timer_start-arms next t k later inv (rw (==_refl t) keeps.0) (rw (==_refl t) (keeps.1 ∙ e))
        (rw (==_refl t) h) in
    rw ((os_timer_stop-disarms s t now v used).0.0, eq, armed.0.0.0)
      (refl, (armed.0.0.1, ap (λ (f : ℕ → Timespec). f t) armed.1.0 ∙ rw (==_refl t) refl))
