-- ===== src/Timer/Spec/Plan.antt =====
-- What the calls of the API ask of a timer: when it is to fire for the first time since it was last started, and
-- how much later each time after that. It is told from the calls alone.
use pc.Base.{ℕ, ◌+◌, ◌≤◌, ◌≡◌, if◌then◌else◌, ◌==◌, Bool, false, Option, some, none, List, [], ◌∷◌}
use pc.Base.Int.{ℤ, pos, ltb_ℤ}
use pc.Timer.Timespec.{Timespec, zero_timespec}
use pc.Timer.Timespec.Clock.{earlier, millis, plus}
use pc.Timer.Settime.{is_abstime}
use pc.Timer.Api.{has_flag, timer_stopped, timer_oneshot}
use pc.Timer.Period.{periods}
use pc.Timer.Spec.Change.{Event, added, started, stopped, changed, deleted, fired, ended}

pub record Plan : Type 0 where
  pub oneshot : Bool
  pub millisec : ℤ
  -- when it was first due, since it was last started; `none` when it is stopped
  pub first : Option Timespec
  -- the period then
  pub step : Timespec
  -- how often it has fired since
  pub fires : ℕ

abbrev pub period : Bool → ℤ → Timespec
period oneshot millisec = if oneshot then zero_timespec else millis millisec

-- What `os_timer_add` asks.
abbrev pub plan_added : ℕ → ℤ → Timespec → Plan
plan_added flag millisec now = record {
  oneshot = has_flag flag timer_oneshot;
  millisec = millisec;
  first =
      if has_flag flag timer_stopped
      then none
      else some (if is_abstime flag then millis millisec else plus now (millis millisec));
  step = period (has_flag flag timer_oneshot) millisec;
  fires = 0;
}

-- What `os_timer_start` asks.
abbrev pub plan_started : Timespec → Plan → Plan
plan_started now p = record p {
  first = some (plus now (millis p.millisec));
  step = period p.oneshot p.millisec;
  fires = 0;
}

abbrev pub on_plan : (Plan → Plan) → Option Plan → Option Plan
on_plan f none = none
on_plan f (some p) = some (f p)

abbrev pub replan : ℕ → Event → Option Plan → Option Plan
replan t (added flag millisec now none) p = p
replan t (added flag millisec now (some u)) p =
    if u == t then some (plan_added flag millisec now) else p
replan t (started u now) p = if u == t then on_plan (plan_started now) p else p
replan t (stopped u) p = if u == t then on_plan (λ q. record q { first = none }) p else p
replan t (changed u millisec) p =
    if u == t
    then if ltb_ℤ (pos 0) millisec then on_plan (λ q. record q { millisec = millisec }) p else p
    else p
replan t (deleted u) p = if u == t then none else p
replan t (fired u now) p = if u == t then on_plan (λ q. record q { fires = q.fires + 1 }) p else p
replan t ended p = p

-- The plan of the timer after some events, the last one first.
abbrev pub plan : ℕ → List Event → Option Plan
plan t [] = none
plan t (e ∷ es) = replan t e (plan t es)

-- The timer is due after a number of periods, no less than it has fired.
pub record OnPlan (q : Plan) (at : Timespec) : Type 0 where
  pub from : Timespec
  pub first : q.first ≡ some from
  pub count : ℕ
  pub lands : at ≡ periods count from q.step
  pub enough : q.fires ≤ count

-- There is a plan, and a time on it that the given time is not before.
pub record Due (now : Timespec) (p : Option Plan) : Type 0 where
  pub asked : Plan
  pub known : p ≡ some asked
  pub at : Timespec
  pub on_plan : OnPlan asked at
  pub reached : earlier now at ≡ false

-- Each expiration is due.
abbrev pub FiresDue : List Event → Type 0
FiresDue [] = Unit {0}
FiresDue (fired t now ∷ es) = Due now (plan t es) × FiresDue es
FiresDue (added flag millisec now t ∷ es) = FiresDue es
FiresDue (started t now ∷ es) = FiresDue es
FiresDue (stopped t ∷ es) = FiresDue es
FiresDue (changed t millisec ∷ es) = FiresDue es
FiresDue (deleted t ∷ es) = FiresDue es
FiresDue (ended ∷ es) = FiresDue es
