-- ===== src/Timer/Spec/Served.antt =====
-- No timer that is due is left waiting by the thread of osal/linux/os_timer.c that serves it, when the clock's
-- readings are normal.
use pc.Base.{
  ℕ, ◌≡◌, ◌∙◌, sym, refl, subst, ◌==◌, true, false, Option, some, none, List, ◌∷◌, mem, update,
  Bool-cases, inl, inr,
}
use pc.Timer.State.{State}
use pc.Timer.Timespec.{Timespec}
use pc.Timer.Timespec.Clock.{earlier, plus, plus-IsNormal, is_set_eq}
use pc.Timer.Timespec.Laws.{IsNormal}
use pc.Timer.Service.{thread_pass}
use pc.Timer.Invariant.{Inv}
use pc.Timer.Invariant.Reach.{Reach, Reach-Inv}
use pc.Timer.Spec.{Timer, Table, table}
use pc.Timer.Spec.Calls.{entry, table-used}
use pc.Timer.Spec.Change.{
  Event, added, started, stopped, changed, deleted, fired, ended, NextDue, never, again, Change,
  stays, adds, starts, stops, changes, deletes, fires,
}
use pc.Timer.Spec.Refines.{Runs, empty, goes_on, history, Reach-Runs}
use pc.Timer.Spec.Serves.{Timely, Serves, thread_pass-Serves}
use pc.Timer.Spec.Normal.{
  NormalClock, NormalDue, NormalTimer, NormalEntry, zero-Sound, periods-IsNormal, added-NormalTimer,
  started-NormalTimer,
}

-- The clock reading of an event is normal.
abbrev NormalNow : Event → Type 0
NormalNow (added flag millisec now t) = IsNormal now
NormalNow (started t now) = IsNormal now
NormalNow (fired t now) = IsNormal now
NormalNow (stopped t) = Unit
NormalNow (changed t millisec) = Unit
NormalNow (deleted t) = Unit
NormalNow ended = Unit

clock_split : (e : Event) (es : List Event) → NormalClock (e ∷ es) → NormalNow e × NormalClock es
clock_split (added flag millisec now t) es h = h
clock_split (started t now) es h = h
clock_split (fired t now) es h = h
clock_split (stopped t) es h = (tt, h)
clock_split (changed t millisec) es h = (tt, h)
clock_split (deleted t) es h = (tt, h)
clock_split ended es h = (tt, h)

-- A table with one entry written.
update-NormalEntry :
    (m : Table) (u t : ℕ) (a : Option Timer)
    → NormalEntry a
    → NormalEntry (m t)
    → NormalEntry (update m u a t)
update-NormalEntry m u t a h k = elim (Bool-cases (u == t)) [ inl e ↦ rw e h | inr e ↦ rw e k ]

known-NormalTimer : (a : Option Timer) (n : Timer) → a ≡ some n → NormalEntry a → NormalTimer n
known-NormalTimer a n e h = subst NormalEntry e h

next-NormalDue :
    (now interval at : Timespec) (due : Option Timespec)
    → IsNormal at
    → IsNormal interval
    → NextDue now interval at due
    → NormalDue due
next-NormalDue now interval at due h k (never off) = tt
next-NormalDue now interval at due h k (again n on later over) =
    periods-IsNormal n (plus at interval) interval (plus-IsNormal at interval h k) k

due-IsNormal : (n : Timer) (at : Timespec) → n.due ≡ some at → NormalTimer n → IsNormal at
due-IsNormal n at d w = subst NormalDue d w.due

Change-NormalEntry :
    {e : Event} {m n : Table} (t : ℕ)
    → Change e m n
    → NormalNow e
    → ((u : ℕ) → NormalEntry (m u))
    → NormalEntry (n t)
Change-NormalEntry t (stays q) nn h = h t
Change-NormalEntry {e} {m} t (adds u k millisec flag handler arg now free p) nn h =
    update-NormalEntry m u t _ (added-NormalTimer millisec flag handler arg now k p nn) (h t)
Change-NormalEntry {e} {m} t (starts u n now known) nn h =
    update-NormalEntry m u t _
      (started-NormalTimer n now (known-NormalTimer (m u) n known (h u)) nn) (h t)
Change-NormalEntry {e} {m} t (stops u n known) nn h =
    let w = known-NormalTimer (m u) n known (h u) in
    update-NormalEntry m u t _
      (record { handled = w.handled; millisec = w.millisec; interval = zero-Sound; due = tt }) (h t)
Change-NormalEntry {e} {m} t (changes u n millisec known p) nn h =
    let w = known-NormalTimer (m u) n known (h u) in
    update-NormalEntry m u t _
      (record { handled = w.handled; millisec = p; interval = w.interval; due = w.due }) (h t)
Change-NormalEntry {e} {m} t (deletes u n known) nn h = update-NormalEntry m u t none tt (h t)
Change-NormalEntry {e} {m} t (fires u k n now at due known th d b first next) nn h =
    let w = known-NormalTimer (m u) n known (h u) in
    update-NormalEntry m u t _
      (record {
        handled = w.handled;
        millisec = w.millisec;
        interval = w.interval;
        due = next-NormalDue now n.interval at due (due-IsNormal n at d w) w.interval.normal next;
      })
      (h t)

Runs-NormalEntry :
    {es : List Event} {m : Table} (t : ℕ) → Runs es m → NormalClock es → NormalEntry (m t)
Runs-NormalEntry t empty h = tt
Runs-NormalEntry t (goes_on {es} {e} r c) h =
    let (now, before) = clock_split e es h in
    Change-NormalEntry t c now (λ u. Runs-NormalEntry u r before)

-- A timer of a queue, whose times are those of its entry.
queued-Timely :
    (s : State) (k t : ℕ)
    → Inv s
    → NormalEntry (table s t)
    → mem t (s.thread k).timer_queue ≡ true
    → Timely s t
queued-Timely s k t v w m = record {
  handled = normal.handled;
  expiry = due-IsNormal (entry s t) (s.timer t).expirytime due normal;
  interval = normal.interval.normal;
  positive = λ h. normal.interval.positive (sym (is_set_eq (s.timer t).value.it_interval) ∙ h);
}
  where
    normal : NormalTimer (entry s t)
    normal = known-NormalTimer (table s t) (entry s t) (table-used s t (v.lists.queue_used k t m)) w

    due : (entry s t).due ≡ some (s.timer t).expirytime
    due = rw (v.lists.queue_owner k t m, m) refl

-- When the timer module reaches a state from its first call by calls of the API and steps of the
-- serving threads, in any order, with normal clock readings, and a timer in the queue of a thread is
-- due at a normal time: the next round of the thread at this time does not sleep, and its loops end; it
-- calls the function of a timer with the timer's argument, and the timer is in the queue and due, and
-- no timer of the queue comes before it. Each call has its own answers of the system and its own
-- calling thread; an addition and a start are each taken as one step, with no other call between their
-- parts. A deletion that goes on after a wait is taken to find its timer still in use.
pub Reach-Serves :
    {s : State} (r : Reach s) (k t : ℕ) (now : Timespec)
    → NormalClock (history r)
    → IsNormal now
    → mem t (s.thread k).timer_queue ≡ true
    → earlier now (s.timer t).expirytime ≡ false
    → Serves s k now (thread_pass s k now)
Reach-Serves {s} r k t now clock nn m b =
    thread_pass-Serves s k t now (Reach-Inv r) nn
      (λ u q. queued-Timely s k u (Reach-Inv r) (Runs-NormalEntry u (Reach-Runs r) clock) q) m b
