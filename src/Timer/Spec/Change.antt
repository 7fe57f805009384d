-- ===== src/Timer/Spec/Change.antt =====
-- What may happen to the table of timers: the contract of osal/linux/os_timer.c, in which there are no lists,
-- no references, no threads' states and no fuel.
use pc.Base.{ℕ, ◌<◌, ◌≡◌, ◌==◌, if◌then◌else◌, true, false, Option, some, none, update}
use pc.Base.Int.{ℤ, pos, ltb_ℤ}
use pc.Timer.Timespec.{Timespec, Itimerspec, zero_timespec}
use pc.Timer.Timespec.Clock.{earlier, millis, plus, lasting}
use pc.Timer.Api.{timer_oneshot, timer_interval, timer_stopped, has_flag}
use pc.Timer.Period.{periods}
use pc.Timer.Spec.{Timer, Table, set_by}
use pc.Timer.Settime.{is_abstime}
use pc.Timer.State.{by_thread}

-- No timer of the thread is due before the time.
abbrev pub Earliest : Table → ℕ → Timespec → Type 0
Earliest m k at =
    (u : ℕ) (n : Timer) (other : Timespec)
    → m u ≡ some n
    → n.thread ≡ some k
    → n.due ≡ some other
    → earlier other at ≡ false

-- When a timer that has expired is due again: never, or at the first of the times whole periods after the old
-- one that is not over.
pub data NextDue (now interval at : Timespec) : Option Timespec → Type 0 where
  never : lasting interval ≡ false → NextDue now interval at none
  again :
      (n : ℕ)
      → lasting interval ≡ true
      → earlier (periods n (plus at interval) interval) now ≡ false
      → ((m : ℕ) → m < n → earlier (periods m (plus at interval) interval) now ≡ true)
      → NextDue now interval at (some (periods n (plus at interval) interval))

-- The value that starting the timer sets.
abbrev pub start_of : Timer → Itimerspec
start_of n = record {
  it_value = millis n.millisec;
  it_interval = if n.type == timer_oneshot then zero_timespec else millis n.millisec;
}

-- A timer that has just been added, served by the thread `k`: it calls the handler in a thread; it is due a
-- period from now, or with TIMER_ABSTIME at the period as a time, and again every period unless it is a
-- one-shot timer; with TIMER_STOPPED it is not due.
abbrev pub new_timer : ℤ → ℕ → ℕ → ℕ → Timespec → ℕ → Timer
new_timer millisec flag handler arg now k = record {
  notify = by_thread;
  function = handler;
  argument = arg;
  millisec = millisec;
  type = if has_flag flag timer_oneshot then timer_oneshot else timer_interval;
  interval =
      if has_flag flag timer_oneshot
      then zero_timespec
      else if has_flag flag timer_stopped
      then zero_timespec
      else millis millisec;
  thread = some k;
  due =
      if has_flag flag timer_stopped
      then none
      else some (if is_abstime flag then millis millisec else plus now (millis millisec));
}

-- What is called, or done by a serving thread, and with what result, where the result tells a timer.
pub data Event : Type 0 where
  -- `os_timer_add`, with its flag and period, at a time, and the new timer, if there is one
  added : ℕ → ℤ → Timespec → Option ℕ → Event
  -- `os_timer_start`, at a time
  started : ℕ → Timespec → Event
  stopped : ℕ → Event
  -- `os_timer_settime`, with a period
  changed : ℕ → ℤ → Event
  -- `os_timer_del`, to its end
  deleted : ℕ → Event
  -- a thread lets the timer's handler run, at a time
  fired : ℕ → Timespec → Event
  -- a handler has come to its end
  ended : Event

-- When an event may leave the table as it is. Stopping and deleting have no effect only on what is no timer,
-- nor has a change to a positive period; a start has none only on a timer without a positive period, too; an
-- addition that gives a timer and an expiration always have one.
abbrev pub Quiet : Table → Event → Type 0
Quiet m (added flag millisec now none) = Unit
Quiet m (added flag millisec now (some t)) = ⊥
Quiet m (started t now) = (n : Timer) → m t ≡ some n → ltb_ℤ (pos 0) n.millisec ≡ false
Quiet m (stopped t) = m t ≡ none
Quiet m (changed t millisec) = ltb_ℤ (pos 0) millisec ≡ true → m t ≡ none
Quiet m (deleted t) = m t ≡ none
Quiet m (fired t now) = ⊥
Quiet m ended = Unit

pub data Change : Event → Table → Table → Type 0 where
  stays : {e : Event} {m : Table} → Quiet m e → Change e m m
  adds :
      {m : Table} (t k : ℕ) (millisec : ℤ) (flag handler arg : ℕ) (now : Timespec)
      → m t ≡ none
      → ltb_ℤ (pos 0) millisec ≡ true
      → Change
          (added flag millisec now (some t))
          m
          (update m t (some (new_timer millisec flag handler arg now k)))
  starts :
      {m : Table} (t : ℕ) (n : Timer) (now : Timespec)
      → m t ≡ some n
      → Change
          (started t now)
          m
          (update m t (some (set_by n (start_of n) (plus now (start_of n).it_value))))
  stops :
      {m : Table} (t : ℕ) (n : Timer)
      → m t ≡ some n
      → Change (stopped t) m (update m t (some (record n { interval = zero_timespec; due = none })))
  changes :
      {m : Table} (t : ℕ) (n : Timer) (millisec : ℤ)
      → m t ≡ some n
      → ltb_ℤ (pos 0) millisec ≡ true
      → Change (changed t millisec) m (update m t (some (record n { millisec = millisec })))
  deletes : {m : Table} (t : ℕ) (n : Timer) → m t ≡ some n → Change (deleted t) m (update m t none)
  fires :
      {m : Table} (t k : ℕ) (n : Timer) (now at : Timespec) (due : Option Timespec)
      → m t ≡ some n
      → n.thread ≡ some k
      → n.due ≡ some at
      → earlier now at ≡ false
      → Earliest m k at
      → NextDue now n.interval at due
      → Change (fired t now) m (update m t (some (record n { due = due })))
