-- ===== src/Timer/Period.antt =====
-- The inner loop of `thread_func` that moves a periodic timer past the present: it ends, and skips as many
-- periods as are over.
use pc.Base.{
  ◌∙◌, ℕ, zero, suc, ◌+◌, ◌<◌, ◌≤◌, ◌≡◌, refl, sym, subst, arith, min, ltb, if◌then◌else◌, true,
  false, some, Bool-cases, inl, inr,
}
use pc.Base.Int.{pos, pos_part, ltb_ℤ, ◌+ℤ◌, ◌-ℤ◌, +ℤ_parts, -ℤ_parts}
use pc.Timer.Timespec.{Timespec, is_before}
use pc.Timer.Timespec.Clock.{
  earlier, plus, is_before_eq, timespec_add_eq, plus-IsNormal, to_ns-plus,
}
use pc.Timer.Timespec.Laws.{to_ns, IsNormal, is_before_iff}
use pc.Timer.State.{delaytimer_max}
use pc.Timer.Service.{catch_up, catch_up_fuel, next_period}

-- The expiry time after `n` more periods.
abbrev pub periods : ℕ → Timespec → Timespec → Timespec
periods zero expiry interval = expiry
periods (suc n) expiry interval = periods n (plus expiry interval) interval

-- What the loop finds: the first of the periods that is not over, and how many it has skipped.
pub record CaughtUp (now interval expiry : Timespec) (overrun : ℕ) (r : Timespec × ℕ) : Type 0 where
  pub count : ℕ
  pub lands : r.0 ≡ periods count expiry interval
  pub due : earlier r.0 now ≡ false
  pub over : (m : ℕ) → m < count → earlier (periods m expiry interval) now ≡ true
  pub counted : r.1 ≡ min (overrun + count) delaytimer_max

-- A period of at least a nanosecond brings the expiry time nearer to the present.
period_shrinks :
    (now interval expiry : Timespec)
    → IsNormal now
    → IsNormal expiry
    → ltb_ℤ (pos 0) (to_ns interval) ≡ true
    → is_before expiry now ≡ true
    → pos_part (to_ns now -ℤ to_ns (plus expiry interval)) < pos_part (to_ns now -ℤ to_ns expiry)
period_shrinks now interval expiry nn ne pi h = rw (to_ns-plus expiry interval) (
    ground (
      arith,
      (is_before_iff expiry now ne nn).0 h,
      -ℤ_parts (to_ns now) (to_ns expiry),
      -ℤ_parts (to_ns now) (to_ns expiry +ℤ to_ns interval),
      +ℤ_parts (to_ns expiry) (to_ns interval),
    ))

pub catch_up-due :
    (fuel : ℕ) (now interval expiry : Timespec) (overrun : ℕ)
    → is_before expiry now ≡ false
    → catch_up (suc fuel) now interval expiry overrun ≡ some (expiry, overrun)
unfolding catch_up
catch_up-due fuel now interval expiry overrun e = rw (e, catch_up)

pub catch_up-over :
    (fuel : ℕ) (now interval expiry : Timespec) (overrun : ℕ)
    → is_before expiry now ≡ true
    → catch_up (suc fuel) now interval expiry overrun
      ≡ catch_up fuel now interval
          (plus expiry interval)
          (if ltb overrun delaytimer_max then overrun + 1 else overrun)
unfolding catch_up
catch_up-over fuel now interval expiry overrun e =
    subst
      (λ x.
        catch_up (suc fuel) now interval expiry overrun
        ≡ catch_up fuel now interval x
            (if ltb overrun delaytimer_max then overrun + 1 else overrun))
      (timespec_add_eq expiry interval) (rw (e, catch_up) refl)

-- With enough fuel the loop ends.
pub catch_up_total :
    (fuel : ℕ) (now interval expiry : Timespec) (overrun : ℕ)
    → IsNormal now
    → IsNormal interval
    → IsNormal expiry
    → ltb_ℤ (pos 0) (to_ns interval) ≡ true
    → overrun ≤ delaytimer_max
    → pos_part (to_ns now -ℤ to_ns expiry) < fuel
    → (r : Timespec × ℕ) × (catch_up fuel now interval expiry overrun ≡ some r)
      × CaughtUp now interval expiry overrun r
catch_up_total zero now interval expiry overrun nn ni ne pi lo lt = absurd (omega arith)
catch_up_total (suc fuel) now interval expiry overrun nn ni ne pi lo lt =
    elim (Bool-cases (is_before expiry now)) [
      | inr e ↦ (
        (expiry, overrun),
        catch_up-due fuel now interval expiry overrun e,
        record {
          count = 0;
          lands = refl;
          due = sym (is_before_eq expiry now) ∙ e;
          over = λ m h. absurd (omega arith);
          counted = omega arith;
        },
      )
      | inl e ↦
          let bumped = if ltb overrun delaytimer_max then overrun + 1 else overrun in
          let (r, run, c) =
            catch_up_total fuel now interval (plus expiry interval) bumped nn ni
              (plus-IsNormal expiry interval ne ni) pi (ground arith)
              (omega (arith, period_shrinks now interval expiry nn ne pi e)) in
          (r, catch_up-over fuel now interval expiry overrun e ∙ run, later e r c)
    ]
  where
    later :
        is_before expiry now ≡ true
        → (r : Timespec × ℕ)
        → CaughtUp now interval
            (plus expiry interval)
            (if ltb overrun delaytimer_max then overrun + 1 else overrun)
            r
        → CaughtUp now interval expiry overrun r
    later e r c = record {
      count = suc c.count;
      lands = c.lands;
      due = c.due;
      over = elim [
        | zero ↦ λ h. sym (is_before_eq expiry now) ∙ e
        | suc m ↦ λ h. c.over m (omega arith)
      ];
      counted = ground (arith, c.counted);
    }

-- For normal times and a period longer than zero, the loop that catches up with a periodic timer ends
-- within the fuel it is given, and its result is the first of the times one, two, three, … periods
-- after the old expiry time that is not before now; the overrun count is the number of the periods that
-- were passed over, up to DELAYTIMER_MAX.
pub next_period_total :
    (now interval expiry : Timespec)
    → IsNormal now
    → IsNormal interval
    → IsNormal expiry
    → ltb_ℤ (pos 0) (to_ns interval) ≡ true
    → (r : Timespec × ℕ) × (next_period now interval expiry ≡ some r)
      × CaughtUp now interval (plus expiry interval) 0 r
unfolding next_period catch_up_fuel
next_period_total now interval expiry nn ni ne pi = rw (timespec_add_eq expiry interval) (
    catch_up_total _ now interval (plus expiry interval) 0 nn ni
      (plus-IsNormal expiry interval ne ni) pi (omega arith) (omega arith))
