-- ===== src/Timer/Spec/Refines.antt =====
-- The timer module of osal/linux/os_timer.c does what its contract says: every step of it is a change that the
-- table of timers allows.
use pc.Base.{List, [], ◌∷◌, ◌≡◌, refl, sym, subst, arith, none, count_up-Distinct}
use pc.Timer.State.{State, Os, thread_maxnodes}
use pc.Timer.Api.{os_timer_add}
use pc.Timer.Pool.{timer_init_once}
use pc.Timer.Invariant.{Inv}
use pc.Timer.Invariant.Framed.Calls.{
  os_timer_start-Framed, os_timer_stop-Framed, os_timer_settime-Framed, os_timer_del-Framed,
  delete_resume-Framed, thread_pass-Framed, expire_end-Framed,
}
use pc.Timer.Invariant.Servers.{Servers, Framed-Servers}
use pc.Timer.Invariant.Reach.{
  Step, Reach, start, next, adds, starts, stops, changes, deletes, resumes, serves, ends, boot,
  Reach-Inv,
}
use pc.Timer.Spec.{Table, table}
use pc.Timer.Spec.Change.{Event, added, started, stopped, changed, deleted, fired, ended, Change}
use pc.Timer.Spec.Steps.{
  os_timer_start-Change, os_timer_stop-Change, os_timer_settime-Change, os_timer_del-Change,
  delete_resume-Change,
}
use pc.Timer.Spec.Passes.{thread_pass-Change, expire_end-Change}
use pc.Timer.Spec.Adding.{os_timer_add-Kept}

-- The event that a step is.
unfoldable pub event : {s u : State} → Step s u → Event
event {s} (adds os prio millisec flag handler arg has_id now) =
    added flag millisec now (os_timer_add os s prio millisec flag handler arg has_id now).1
event (starts t now lt) = started t now
event (stops t now lt) = stopped t
event (changes t millisec) = changed t millisec
event (deletes self t done lt e) = deleted t
event (resumes self k t done lt used e) = deleted t
event (serves k t now call e) = fired t now
event (ends k) = ended

-- What has happened since the first call, the last event first.
unfoldable pub history : {s : State} → Reach s → List Event
unfolding event
history (start os) = []
history (next r st) = event st ∷ history r

-- In a state with the invariants of timers and of threads, every call of the API and every step of a
-- serving thread keeps the invariant of threads, and is a change of the table of timers that the
-- contract allows for the event that it is. So a call names one timer and leaves the others alone; a
-- new timer is not due with TIMER_STOPPED, and otherwise due one period from now, or with TIMER_ABSTIME
-- at the period as a time, and again every period unless it is a one-shot timer; starting sets the due
-- time one period from now, of a million nanoseconds for each millisecond; and a timer fires only when
-- it is due and none of its thread is due earlier, by seconds and then by nanoseconds, after which it
-- is never due again if it has no interval, and otherwise at the first time, whole intervals after the
-- old one, that is not over.
pub Step-Change :
    {s u : State}
    → (st : Step s u) → Inv s
    → Servers s
    → Servers u × Change (event st) (table s) (table u)
unfolding event
Step-Change (adds os prio millisec flag handler arg has_id now) v w =
    let r = os_timer_add-Kept os _ prio millisec flag handler arg has_id now v w in
    (r.servers, r.change)
Step-Change (starts t now lt) v w =
    (Framed-Servers (os_timer_start-Framed _ t now) w, os_timer_start-Change _ t now v)
Step-Change (stops t now lt) v w =
    (Framed-Servers (os_timer_stop-Framed _ t now) w, os_timer_stop-Change _ t now v)
Step-Change (changes t millisec) v w = (
  Framed-Servers (os_timer_settime-Framed _ t millisec) w,
  os_timer_settime-Change _ t millisec v,
)
Step-Change {s} {u} (deletes self t done lt e) v w = (
  Framed-Servers (rw e at (os_timer_del-Framed s self t)) w,
  rw e at (os_timer_del-Change s self t v),
)
Step-Change {s} {u} (resumes self k t done lt used e) v w = (
  Framed-Servers (rw e at (delete_resume-Framed s self k t)) w,
  rw e at (delete_resume-Change s self k t v used),
)
Step-Change {s} {u} (serves k t now call e) v w = (
  Framed-Servers (rw e at (thread_pass-Framed s k now)) w,
  rw e at (thread_pass-Change s k now v),
)
Step-Change (ends k) v w = (Framed-Servers (expire_end-Framed _ k) w, expire_end-Change _ k)

-- The tables that changes lead to, from the empty one, by the events in the list, the last one first.
pub data Runs : List Event → Table → Type 0 where
  empty : Runs [] (λ _. none)
  goes_on : {es : List Event} {e : Event} {m n : Table} → Runs es m → Change e m n → Runs (e ∷ es) n

-- The first call leaves no timer, and all the threads free.
pub init_once-Servers : (os : Os) → Servers (timer_init_once os boot)
unfolding timer_init_once
init_once-Servers os = record {
  distinct = count_up-Distinct thread_maxnodes 0;
  runs = λ k m. ground arith;
  apart = λ k m. ground arith;
  owned = λ t k b e h. cc;
}

init_once-table : (os : Os) → table (timer_init_once os boot) ≡ (λ _. none)
unfolding timer_init_once table
init_once-table os = refl

reached : {s : State} → (r : Reach s) → Servers s × Runs (history r) (table s)
unfolding history
reached (start os) = (init_once-Servers os, subst (Runs []) (sym (init_once-table os)) empty)
reached (next r st) =
    let (w, runs) = reached r in
    let (w', change) = Step-Change st (Reach-Inv r) w in (w', goes_on runs change)

-- In every state that the timer module reaches from its first call by calls of the API and steps of the
-- serving threads: a free thread is on the free list once and is not active; every active thread runs;
-- and no timer in use is served by a free thread. A deletion that goes on after a wait is taken to find
-- its timer still in use.
pub Reach-Servers : {s : State} → Reach s → Servers s
Reach-Servers r = (reached r).0

-- The timer module implements its contract: whenever it reaches a state from its first call by calls of
-- the API and steps of the serving threads, in any order, the table of timers that the state means is
-- reached from the empty table by changes that the contract allows for the same events, in the same
-- order. In the changes there are no lists, references or states of threads; an addition that gives a
-- timer gives one that was not in use, a stop and a deletion have no effect only on what is not in use,
-- and a timer fires no earlier than it is due and as the first of its thread's timers. Each call has
-- its own answers of the system and its own calling thread; an addition and a start are each taken as
-- one step, with no other call between their parts. A deletion that goes on after a wait is taken to
-- find its timer still in use.
pub Reach-Runs : {s : State} → (r : Reach s) → Runs (history r) (table s)
Reach-Runs r = (reached r).1
