-- ===== src/Timer/Behaviour/Left.antt =====
-- What `__timer_gettime` reads of a timer that `__timer_settime` has armed.
use pc.Base.{◌∙◌, ap, ℕ, ◌≡◌, refl, ◌||◌, ==_refl, true, false, some}
use pc.Base.Int.{◌+ℤ◌, ◌-ℤ◌}
use pc.Timer.Timespec.{Timespec, Itimerspec, timespec_add, is_set, bad_nsec, is_before}
use pc.Timer.Timespec.Laws.{to_ns, to_ns-timespec_add, to_ns-timespec_sub}
use pc.Timer.State.{State, TimerNode, in_use}
use pc.Timer.Settime.{timer_settime}
use pc.Timer.Gettime.{timer_gettime, time_left}
use pc.Timer.Invariant.{Inv}
use pc.Timer.Behaviour.{timer_settime-arms, timer_settime-inuse}

-- The time left of a timer that expires a given time after `now`.
time_left-lem :
    (n : TimerNode) (now later value : Timespec)
    → n.armed ≡ true
    → n.expirytime ≡ timespec_add now value
    → is_before later (timespec_add now value) ≡ true
    → to_ns (time_left n later) ≡ (to_ns now +ℤ to_ns value) -ℤ to_ns later
unfolding time_left
time_left-lem n now later value a e b =
    rw (a, e, b)
      (to_ns-timespec_sub (timespec_add now value) later
        ∙ ap (λ x. x -ℤ to_ns later) (to_ns-timespec_add now value))

-- In a state with the invariant, a timer in use, served by a thread, that is set to a well-formed
-- relative time other than zero and read before it is due: the read succeeds, leaves the state as it
-- is, and gives the interval that was set and, to the nanosecond, the time that was set less the time
-- gone by. The reading is code that is left out of the build by #if (0).
pub timer_gettime-timer_settime :
    (s : State) (t k : ℕ) (value : Itimerspec) (now later : Timespec)
    → Inv s
    → (s.timer t).inuse ≡ in_use
    → (s.timer t).thread ≡ some k
    → (bad_nsec value.it_interval || bad_nsec value.it_value) ≡ false
    → is_set value.it_value ≡ true
    → is_before later (timespec_add now value.it_value) ≡ true
    → let u = (timer_settime s (some t) 0 value now false).0 in
      (left : Timespec) × ((timer_gettime u (some t) later
          ≡ (u, some (record { it_interval = value.it_interval; it_value = left })))
        × (to_ns left ≡ (to_ns now +ℤ to_ns value.it_value) -ℤ to_ns later))
unfolding timer_gettime
timer_gettime-timer_settime s t k value now later v used e ok on b =
    let u = (timer_settime s (some t) 0 value now false).0 in
    let armed = timer_settime-arms s t 0 k value now v used e ok on in
    let valid = timer_settime-inuse s t 0 value now v used ok in
    (
      time_left (u.timer t) later,
      (
        rw (valid, armed.0.1) refl,
        time_left-lem (u.timer t) now later value.it_value armed.0.0.1
            (ap (λ (f : ℕ → Timespec). f t) armed.1.0 ∙ rw (==_refl t) refl) b,
      ),
    )
