-- ===== src/Timer/Spec/Planned.antt =====
-- The entries of the table of timers against the plan that the calls of the API make.
use pc.Base.{
  ℕ, zero, suc, ◌+◌, ◌≡◌, refl, ap, ◌∙◌, arith, if◌then◌else◌, ◌==◌, Bool, true, false, Option,
  some, none, Bool-cases, inl, inr,
}
use pc.Base.Int.{ℤ, pos, ltb_ℤ}
use pc.Timer.Timespec.{Timespec}
use pc.Timer.Timespec.Clock.{millis, plus}
use pc.Timer.Settime.{is_abstime}
use pc.Timer.Api.{has_flag, timer_stopped, timer_oneshot}
use pc.Timer.Period.{periods}
use pc.Timer.Spec.{Timer, set_by, due_at}
use pc.Timer.Spec.Change.{NextDue, never, again, new_timer, start_of}
use pc.Timer.Spec.Plan.{Plan, plan_added, plan_started, OnPlan}

-- An entry that is due is on the plan, with its period.
abbrev pub Planned : Plan → Timespec → Option Timespec → Type 0
Planned q interval none = Unit {0}
Planned q interval (some at) = OnPlan q at × (interval ≡ q.step)

pub record Entry (q : Plan) (n : Timer) : Type 0 where
  pub type : (n.type == timer_oneshot) ≡ q.oneshot
  pub millisec : n.millisec ≡ q.millisec
  pub positive : ltb_ℤ (pos 0) q.millisec ≡ true
  pub planned : Planned q n.interval n.due

-- The entry of the table is as planned.
abbrev pub Follows : Option Plan → Option Timer → Type 0
Follows none none = Unit {0}
Follows (some q) (some n) = Entry q n
Follows _ _ = ⊥

periods-more :
    (n k : ℕ) (at interval : Timespec)
    → periods n (plus (periods k at interval) interval) interval ≡ periods (suc (k + n)) at interval
periods-more n zero at interval =
    let e : n ≡ 0 + n = omega arith in ap (λ c. periods (suc c) at interval) e
periods-more n (suc k) at interval =
    let e : suc (suc (k + n)) ≡ suc (suc k + n) = omega arith in
    periods-more n k (plus at interval) interval ∙ ap (λ c. periods c at interval) e

-- A time that may be left out.
Planned-if :
    (q : Plan) (interval : Timespec) (b : Bool) (due : Option Timespec)
    → Planned q interval due
    → Planned q interval (if b then due else none)
Planned-if q interval true due h = h
Planned-if q interval false due h = tt

Planned-due_at :
    (q : Plan) (interval : Timespec) (th : Option ℕ) (at : Timespec)
    → Planned q interval (some at)
    → Planned q interval (due_at th at)
Planned-due_at q interval none at h = tt
Planned-due_at q interval (some k) at h = h

-- A plan begins at its first time.
begins :
    (q : Plan) (interval from : Timespec)
    → q.first ≡ some from
    → interval ≡ q.step
    → q.fires ≡ 0
    → Planned q interval (some from)
begins q interval from h e z =
    (record { from = from; first = h; count = 0; lands = refl; enough = omega (arith, z) }, e)

added-Planned :
    (millisec : ℤ) (flag handler arg : ℕ) (now : Timespec) (k : ℕ)
    → let n = new_timer millisec flag handler arg now k in
      Planned (plan_added flag millisec now) n.interval n.due
added-Planned millisec flag handler arg now k = elim (Bool-cases (has_flag flag timer_stopped)) [
  | inl z ↦ rw z tt
  | inr z ↦ rw z (
      let at = if is_abstime flag then millis millisec else plus now (millis millisec) in
      let q = record (plan_added flag millisec now) { first = some at } in
      begins q q.step at refl refl refl)
]

pub added-Entry :
    (millisec : ℤ) (flag handler arg : ℕ) (now : Timespec) (k : ℕ)
    → ltb_ℤ (pos 0) millisec ≡ true
    → Entry (plan_added flag millisec now) (new_timer millisec flag handler arg now k)
added-Entry millisec flag handler arg now k p = record {
  type = ground arith;
  millisec = refl;
  positive = p;
  planned = added-Planned millisec flag handler arg now k;
}

pub started-Entry :
    (q : Plan) (n : Timer) (now : Timespec)
    → Entry q n
    → Entry (plan_started now q) (set_by n (start_of n) (plus now (start_of n).it_value))
started-Entry q n now f = record {
  type = f.type;
  millisec = f.millisec;
  positive = f.positive;
  planned = Planned-if _ _ _ _ (
      Planned-due_at _ _ n.thread _
        (begins _ _ _ (rw f.millisec refl) (rw (f.type, f.millisec) refl) refl));
}

pub on_plan_at :
    (q : Plan) (n : Timer) (at : Timespec)
    → n.due ≡ some at
    → Entry q n
    → OnPlan q at × (n.interval ≡ q.step)
on_plan_at q n at d f = rw d at f.planned

pub fired-Entry :
    (q : Plan) (n : Timer) (now at : Timespec) (due : Option Timespec)
    → n.due ≡ some at
    → NextDue now n.interval at due
    → Entry q n
    → Entry (record q { fires = q.fires + 1 }) (record n { due = due })
fired-Entry q n now at due d (never off) f = record {
  type = f.type;
  millisec = f.millisec;
  positive = f.positive;
  planned = tt;
}
fired-Entry q n now at due d (again j on h over) f =
    let (o, e) = on_plan_at q n at d f in
    record {
      type = f.type;
      millisec = f.millisec;
      positive = f.positive;
      planned = (
        record {
          from = o.from;
          first = o.first;
          count = suc (o.count + j);
          lands = rw (o.lands, e) (periods-more j o.count o.from q.step);
          enough = omega (arith, o.enough);
        },
        e,
      );
    }

changed-Planned :
    (q : Plan) (millisec : ℤ) (interval : Timespec) (due : Option Timespec)
    → Planned q interval due
    → Planned (record q { millisec = millisec }) interval due
changed-Planned q millisec interval none h = tt
changed-Planned q millisec interval (some at) (o, e) = (
  record { from = o.from; first = o.first; count = o.count; lands = o.lands; enough = o.enough },
  e,
)

pub changed-Entry :
    (q : Plan) (n : Timer) (millisec : ℤ)
    → ltb_ℤ (pos 0) millisec ≡ true
    → Entry q n
    → Entry (record q { millisec = millisec }) (record n { millisec = millisec })
changed-Entry q n millisec ok f = record {
  type = f.type;
  millisec = refl;
  positive = ok;
  planned = changed-Planned q millisec n.interval n.due f.planned;
}
