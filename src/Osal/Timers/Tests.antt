-- ===== src/Osal/Timers/Tests.antt =====
-- A running timer is changed.
use pc.Base.{◌≡◌, refl, arith, true}
use pc.Base.Int.{pos}
use pc.Timer.Timespec.Clock.{millis, plus}
use pc.Timer.Tests.{added, at, added-Inv, added-in_use, added-thread}
use pc.Osal.Status.{success}
use pc.Osal.Timers.{osal_timer_change}
use pc.Osal.Timers.Change.{osal_timer_change-arms}

osal_timer_change-arms_example :
    let r = osal_timer_change added 0 (pos 250) (at 7 0) (at 7 1000) in
    (r.1 ≡ success)
    × (((r.0.timer 0).armed ≡ true)
        × ((r.0.timer 0).expirytime ≡ plus (at 7 1000) (millis (pos 250))))
osal_timer_change-arms_example =
    osal_timer_change-arms added 0 0 (pos 250) (at 7 0) (at 7 1000) added-Inv (omega arith)
      added-in_use added-thread refl
