-- ===== src/Osal/Timers.antt =====
-- Timers: osal/osal_timer.c over the timer module. A handle is the identifier of a timer in a block of its
-- own; `none` is NULL.
mod Tests
pub mod Change
use pc.Base.{ℕ, ◌⊎◌, inl, inr, if◌then◌else◌, Bool, true, false, ◌&&◌, Option, some, none}
use pc.Base.Int.{ℤ}
use pc.Timer.Timespec.{Timespec}
use pc.Timer.State.{State, Os}
use pc.Timer.Delete.{Outcome, returns, waits}
use pc.Timer.Api.{os_timer_add, os_timer_del, os_timer_start, os_timer_stop, os_timer_settime}
use pc.Osal.Status.{OsalStatus, success, empty, undefined}

abbrev pub status_of : Bool → OsalStatus
status_of done = if done then success else undefined

-- `osal_timer_create`; `memory` is whether `malloc` succeeds, which is not looked at before the block is
-- written: the last part is whether NULL was written through.
unfoldable pub osal_timer_create :
    Os → State → Bool → ℕ → ℕ → ℤ → ℕ → ℤ → Timespec → State × Option ℕ × Bool
osal_timer_create os s memory handler arg millisec flag prio now =
    let added = os_timer_add os s prio millisec flag handler arg true now in
    elim added.1 [
      | none ↦ (added.0, none, false)
      | some t ↦ if memory then (added.0, some t, false) else (added.0, none, true)
    ]

-- `osal_timer_delete`: `os_timer_del` may wait, and the rest of the call follows it.
unfoldable pub osal_timer_delete : State → ℕ → Option ℕ → Outcome ⊎ OsalStatus
osal_timer_delete s self none = inr empty
osal_timer_delete s self (some t) = inl (os_timer_del s self (some t))

-- The status after `os_timer_del` has returned
abbrev pub delete_status : Outcome → Option (State × OsalStatus)
delete_status (returns u done) = some (u, status_of done)
delete_status (waits u k) = none

unfoldable pub osal_timer_start : State → Option ℕ → Timespec → State × OsalStatus
osal_timer_start s none now = (s, empty)
osal_timer_start s (some t) now =
    let started = os_timer_start s (some t) now in (started.0, status_of started.1)

unfoldable pub osal_timer_stop : State → Option ℕ → Timespec → State × OsalStatus
osal_timer_stop s none now = (s, empty)
osal_timer_stop s (some t) now =
    let stopped = os_timer_stop s (some t) now in (stopped.0, status_of stopped.1)

unfoldable pub osal_timer_reset : State → Option ℕ → Timespec → State × OsalStatus
osal_timer_reset s none now = (s, empty)
osal_timer_reset s (some t) now =
    let started = os_timer_start s (some t) now in (started.0, status_of started.1)

-- `osal_timer_change` of a handle that is not NULL, which the code does not test: the three calls, each made
-- whatever the others return. Both clock readings are given.
unfoldable pub osal_timer_change : State → ℕ → ℤ → Timespec → Timespec → State × OsalStatus
osal_timer_change s t millisec now later =
    let stopped = os_timer_stop s (some t) now in
    let changed = os_timer_settime stopped.0 (some t) millisec in
    let started = os_timer_start changed.0 (some t) later in
    (started.0, status_of (stopped.1 && (changed.1 && started.1)))
