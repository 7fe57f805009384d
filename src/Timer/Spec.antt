-- ===== src/Timer/Spec.antt =====
-- What the timer module promises, without lists, references and threads' states: a table of timers, each with
-- what it calls, its period, its type and the time when it is due, if it is.
pub mod Moves
pub mod Calls
pub mod Change
pub mod Steps
pub mod Expire
pub mod Passes
pub mod Making
pub mod Granting
pub mod Creating
pub mod Adding
mod Tests
pub mod Refines
pub mod Sections
pub mod Limits
pub mod Serves
pub mod Normal
pub mod Served
pub mod Armed
pub mod Plan
pub mod Planned
pub mod OnTime
pub mod Oneshot
use pc.Base.{ℕ, ◌==◌, if◌then◌else◌, Bool, true, false, ◌&&◌, Option, some, none, mem}
use pc.Base.Int.{ℤ}
use pc.Timer.Timespec.Clock.{lasting}
use pc.Timer.Timespec.{Timespec, Itimerspec, zero_timespec, ms2ts, timespec_add}
use pc.Timer.State.{State, TimerNode, Notify, is_in_use}
use pc.Timer.Api.{timer_oneshot}

pub record Timer : Type 0 where
  pub notify : Notify
  pub function : ℕ
  pub argument : ℕ
  pub millisec : ℤ
  pub type : ℕ
  -- the time between expirations, zero for none
  pub interval : Timespec
  -- the thread that serves it
  pub thread : Option ℕ
  pub due : Option Timespec

abbrev pub Table : Type 0
Table = ℕ → Option Timer

-- The timer waits in the queue of its thread.
abbrev pub pending_on : State → ℕ → Option ℕ → Bool
pending_on s t none = false
pending_on s t (some k) = mem t (s.thread k).timer_queue

abbrev pub pending : State → ℕ → Bool
pending s t = pending_on s t (s.timer t).thread

-- What a node means, with the time when it is due.
abbrev pub timer_of : TimerNode → Option Timespec → Timer
timer_of n due = record {
  notify = n.event.notify;
  function = n.event.function;
  argument = n.event.sival_ptr;
  millisec = n.millisec;
  type = n.type;
  interval = n.value.it_interval;
  thread = n.thread;
  due = due;
}

abbrev pub meaning : TimerNode → Bool → Option Timer
meaning n waits =
    if is_in_use n.inuse
    then some (timer_of n (if waits then some n.expirytime else none))
    else none

unfoldable pub table : State → Table
table s t = meaning (s.timer t) (pending s t)

-- Setting a timer.
abbrev pub due_at : Option ℕ → Timespec → Option Timespec
due_at none at = none
due_at (some k) at = some at

abbrev pub set_by : Timer → Itimerspec → Timespec → Timer
set_by n value at = record n {
  interval = value.it_interval;
  due = if lasting value.it_value then due_at n.thread at else none;
}
