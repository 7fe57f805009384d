-- ===== src/Timer/Spec/Normal.antt =====
-- The times that the module of osal/linux/os_timer.c makes are normal when the clock's are.
use pc.Base.{
  ℕ, zero, suc, ◌≡◌, ◌∙◌, sym, refl, arith, if◌then◌else◌, ◌==◌, Bool, true, false, Option, some,
  none, List, [], ◌∷◌,
}
use pc.Base.Int.{ℤ, pos, ltb_ℤ}
use pc.Timer.Timespec.{Timespec, zero_timespec}
use pc.Timer.Timespec.Clock.{millis, plus, plus-IsNormal, lasting, zero-lasting}
use pc.Timer.Timespec.Laws.{to_ns, IsNormal}
use pc.Timer.State.{by_thread}
use pc.Timer.Settime.{is_abstime}
use pc.Timer.Api.{has_flag, timer_stopped, timer_oneshot}
use pc.Timer.Period.{periods}
use pc.Timer.Behaviour.Calls.{positive}
use pc.Timer.Spec.{Timer, set_by, due_at}
use pc.Timer.Spec.Change.{
  Event, added, started, stopped, changed, deleted, fired, ended, new_timer, start_of,
}

-- The clock readings of the events are normal.
abbrev pub NormalClock : List Event → Type 0
NormalClock [] = Unit {0}
NormalClock (added flag millisec now t ∷ es) = IsNormal now × NormalClock es
NormalClock (started t now ∷ es) = IsNormal now × NormalClock es
NormalClock (fired t now ∷ es) = IsNormal now × NormalClock es
NormalClock (stopped t ∷ es) = NormalClock es
NormalClock (changed t millisec ∷ es) = NormalClock es
NormalClock (deleted t ∷ es) = NormalClock es
NormalClock (ended ∷ es) = NormalClock es

-- An interval that is zero or longer.
pub record Sound (interval : Timespec) : Type 0 where
  pub normal : IsNormal interval
  pub positive : lasting interval ≡ true → ltb_ℤ (pos 0) (to_ns interval) ≡ true

abbrev pub NormalDue : Option Timespec → Type 0
NormalDue none = Unit {0}
NormalDue (some at) = IsNormal at

-- Its handler is called by a thread, and its times are normal.
pub record NormalTimer (n : Timer) : Type 0 where
  pub handled : n.notify ≡ by_thread
  pub millisec : ltb_ℤ (pos 0) n.millisec ≡ true
  pub interval : Sound n.interval
  pub due : NormalDue n.due

abbrev pub NormalEntry : Option Timer → Type 0
NormalEntry none = Unit {0}
NormalEntry (some n) = NormalTimer n

pub zero-Sound : Sound zero_timespec
unfolding to_ns
zero-Sound = record {
  normal = record { nonneg = omega arith; below = omega arith };
  positive = λ h. let z : false ≡ true = sym zero-lasting ∙ h in absurd (cc);
}

millis-Sound : (z : ℤ) → ltb_ℤ (pos 0) z ≡ true → Sound (millis z)
unfolding millis to_ns
millis-Sound z h =
    let (m, e) = positive z h in
    rw e record {
      normal = record { nonneg = ground arith; below = ground arith };
      positive = λ s. ground arith;
    }

if-Sound : (b : Bool) (x y : Timespec) → Sound x → Sound y → Sound (if b then x else y)
if-Sound true x y h k = h
if-Sound false x y h k = k

pub periods-IsNormal :
    (n : ℕ) (at interval : Timespec)
    → IsNormal at
    → IsNormal interval
    → IsNormal (periods n at interval)
periods-IsNormal zero at interval h k = h
periods-IsNormal (suc n) at interval h k =
    periods-IsNormal n (plus at interval) interval (plus-IsNormal at interval h k) k

unless-NormalDue :
    (b : Bool) (d : Option Timespec) → NormalDue d → NormalDue (if b then none else d)
unless-NormalDue true d h = tt
unless-NormalDue false d h = h

if-NormalDue : (b : Bool) (d : Option Timespec) → NormalDue d → NormalDue (if b then d else none)
if-NormalDue true d h = h
if-NormalDue false d h = tt

due_at-NormalDue : (th : Option ℕ) (at : Timespec) → IsNormal at → NormalDue (due_at th at)
due_at-NormalDue none at h = tt
due_at-NormalDue (some k) at h = h

if-IsNormal : (b : Bool) (x y : Timespec) → IsNormal x → IsNormal y → IsNormal (if b then x else y)
if-IsNormal true x y h k = h
if-IsNormal false x y h k = k

pub added-NormalTimer :
    (millisec : ℤ) (flag handler arg : ℕ) (now : Timespec) (k : ℕ)
    → ltb_ℤ (pos 0) millisec ≡ true
    → IsNormal now
    → NormalTimer (new_timer millisec flag handler arg now k)
added-NormalTimer millisec flag handler arg now k p nn =
    let value = if has_flag flag timer_stopped then zero_timespec else millis millisec in
    let v = millis-Sound millisec p in
    let w : Sound value =
      if-Sound (has_flag flag timer_stopped) zero_timespec (millis millisec) zero-Sound v in
    record {
      handled = refl;
      millisec = p;
      interval = if-Sound (has_flag flag timer_oneshot) zero_timespec value zero-Sound w;
      due =
          unless-NormalDue (has_flag flag timer_stopped)
            (some (if is_abstime flag then millis millisec else plus now (millis millisec)))
            (if-IsNormal (is_abstime flag) (millis millisec) (plus now (millis millisec)) v.normal
              (plus-IsNormal now (millis millisec) nn v.normal));
    }

pub started-NormalTimer :
    (n : Timer) (now : Timespec)
    → NormalTimer n
    → IsNormal now
    → NormalTimer (set_by n (start_of n) (plus now (start_of n).it_value))
started-NormalTimer n now w nn =
    let value = millis n.millisec in
    let v = millis-Sound n.millisec w.millisec in
    record {
      handled = w.handled;
      millisec = w.millisec;
      interval = if-Sound (n.type == timer_oneshot) zero_timespec value zero-Sound v;
      due =
          if-NormalDue (lasting value) (due_at n.thread (plus now value))
            (due_at-NormalDue n.thread (plus now value) (plus-IsNormal now value nn v.normal));
    }
