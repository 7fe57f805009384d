-- ===== src/Timer/Behaviour/Calls.antt =====
-- What `os_timer_start`, `os_timer_stop` and `os_timer_del` come to.
use pc.Base.{
  zero, suc, ℕ, ◌≡◌, refl, sym, subst, arith, ==_refl, if◌then◌else◌, Bool, true, false, ◌||◌,
  Option, some, none, ◌∷◌, Bool-cases, inl, inr, ◌==◌, update, remove,
}
use pc.Base.Int.{ℤ, pos, negsuc, ltb_ℤ}
use pc.Timer.Timespec.Clock.{millis, plus, ms2ts_eq, timespec_add_eq}
use pc.Timer.Timespec.{Timespec, zero_itimerspec, zero_timespec, ms2ts, is_set, bad_nsec}
use pc.Timer.State.{State, TimerNode, in_use, unlink_timer}
use pc.Timer.Pool.{timer_addref, timer_delref, timer_dealloc, timer_valid}
use pc.Timer.Threads.{insert_timer}
use pc.Timer.Settime.{arm, disarm, wake}
use pc.Timer.Delete.{returns, delete_finish, delete_resume, delete_valid, timer_delete}
use pc.Timer.Api.{os_timer_start, os_timer_stop, os_timer_del, start_value, timer_oneshot}
use pc.Timer.Invariant.{Inv}
use pc.Timer.Behaviour.{expiries, timer_settime-used, timer_settime-arms}

pub ms2ts-ok :
    (m : ℕ) → (bad_nsec (ms2ts (pos (suc m))) ≡ false) × (is_set (ms2ts (pos (suc m))) ≡ true)
unfolding ms2ts
ms2ts-ok m = ground arith

pub millis-ok :
    (m : ℕ) → (bad_nsec (millis (pos (suc m))) ≡ false) × (is_set (millis (pos (suc m))) ≡ true)
millis-ok m =
    subst (λ x. (bad_nsec x ≡ false) × (is_set x ≡ true)) (ms2ts_eq (pos (suc m))) (ms2ts-ok m)

-- The times of `os_timer_start` are well formed.
pub positive : (z : ℤ) → ltb_ℤ (pos 0) z ≡ true → (m : ℕ) × (z ≡ pos (suc m))
positive (pos zero) h = absurd (ground arith)
positive (pos (suc m)) h = (m, refl)
positive (negsuc m) h = absurd (ground arith)

start_value-ok :
    (n : TimerNode)
    → ltb_ℤ (pos 0) n.millisec ≡ true
    → ((bad_nsec (start_value n).it_interval || bad_nsec (start_value n).it_value) ≡ false)
      × (is_set (start_value n).it_value ≡ true)
start_value-ok n h =
    let (m, e) = positive n.millisec h in
    elim (Bool-cases (n.type == timer_oneshot)) [
      | inl b ↦ rw (b, e) (ms2ts-ok m)
      | inr b ↦ rw (b, e, (ms2ts-ok m).0) (refl, (ms2ts-ok m).1)
    ]

-- In a state with the invariant, starting a timer in use, served by a thread, with a positive period
-- succeeds: the timer is armed to expire its period, of a million nanoseconds for each millisecond,
-- from now, and again every period unless it is a one-shot timer; it is inserted at its place in its
-- thread's queue, from which it is taken out before; no other timer's expiry time changes; and the
-- thread is woken exactly when the insertion reports that the timer is now the first.
pub os_timer_start-arms :
    (s : State) (t k : ℕ) (now : Timespec)
    → Inv s
    → (s.timer t).inuse ≡ in_use
    → (s.timer t).thread ≡ some k
    → ltb_ℤ (pos 0) (s.timer t).millisec ≡ true
    → let r = os_timer_start s (some t) now in
      let after = update (expiries s) t (plus now (millis (s.timer t).millisec)) in
      let put = insert_timer after t true (remove t (s.thread k).timer_queue) in
      (((r.1 ≡ true) × ((r.0.timer t).armed ≡ true))
        × ((r.0.timer t).value ≡ record {
          it_value = millis (s.timer t).millisec;
          it_interval =
              if (s.timer t).type == timer_oneshot
              then zero_timespec
              else millis (s.timer t).millisec;
        }))
      × ((expiries r.0 ≡ after)
          × (((r.0.thread k).timer_queue ≡ put.0)
              × (r.0.broadcasts ≡ (if put.1 then k ∷ s.broadcasts else s.broadcasts))))
unfolding os_timer_start
os_timer_start-arms s t k now v used e h =
    rw
      (
        used,
        sym (ms2ts_eq (s.timer t).millisec),
        sym (timespec_add_eq now (ms2ts (s.timer t).millisec)),
      )
      (timer_settime-arms s t 0 k (start_value (s.timer t)) now v used e
        (start_value-ok (s.timer t) h).0 (start_value-ok (s.timer t) h).1)

wake-timer : (s : State) (th : Option ℕ) (need : Bool) → (wake s th need).timer ≡ s.timer
wake-timer s none need = refl
wake-timer s (some k) true = refl
wake-timer s (some k) false = refl

wake-thread : (s : State) (th : Option ℕ) (need : Bool) → (wake s th need).thread ≡ s.thread
wake-thread s none need = refl
wake-thread s (some k) true = refl
wake-thread s (some k) false = refl

-- In a state with the invariant, stopping a timer in use succeeds: the timer is disarmed and leaves
-- every queue, and the other timers stay in their queues in the old order.
pub os_timer_stop-disarms :
    (s : State) (t : ℕ) (now : Timespec)
    → Inv s
    → (s.timer t).inuse ≡ in_use
    → let r = os_timer_stop s (some t) now in
      ((r.1 ≡ true) × ((r.0.timer t).armed ≡ false))
      × ((k : ℕ) → (r.0.thread k).timer_queue ≡ remove t (s.thread k).timer_queue)
unfolding os_timer_stop arm disarm unlink_timer timer_addref
os_timer_stop-disarms s t now v used =
    rw
      (
        timer_settime-used s t 0 zero_itimerspec now v used refl,
        wake-timer _ (s.timer t).thread false,
        wake-thread _ (s.timer t).thread false,
      )
      ((refl, rw (==_refl t) refl), λ k. refl)

-- It stays in use, served by its thread.
pub os_timer_stop-keeps :
    (s : State) (t : ℕ) (now : Timespec)
    → Inv s
    → (s.timer t).inuse ≡ in_use
    → let n = (os_timer_stop s (some t) now).0.timer t in
      (n.inuse ≡ in_use) × (n.thread ≡ (s.timer t).thread)
unfolding os_timer_stop arm disarm unlink_timer timer_addref
os_timer_stop-keeps s t now v used =
    rw
      (
        timer_settime-used s t 0 zero_itimerspec now v used refl,
        wake-timer _ (s.timer t).thread false,
        ==_refl t,
      )
      (used, refl)

delete_finish-invalid : (s : State) (t : ℕ) → timer_valid (delete_finish s t) (some t) ≡ false
unfolding delete_finish timer_delref timer_dealloc unlink_timer
delete_finish-invalid s t = ground (arith, ==_refl t)

-- When deleting a timer returns 0 without a wait, the timer is not valid afterwards.
pub os_timer_del-invalid :
    (s u : State) (t self : ℕ)
    → os_timer_del s self (some t) ≡ returns u true
    → timer_valid u (some t) ≡ false
unfolding os_timer_del timer_delete delete_valid delete_resume
os_timer_del-invalid s u t self e = ground (arith, delete_finish-invalid s t)
