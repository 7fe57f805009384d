-- ===== src/Timer/Behaviour.antt =====
-- What the calls of osal/linux/os_timer.c do to the timer they are given.
pub mod Twice
pub mod Calls
pub mod Left
use pc.Base.{
  ◌∙◌, subst, ap, fun_ext, ℕ, ◌<◌, ◌≡◌, ◌≢◌, ◌↔◌, refl, sym, arith, ==_iff, ==_refl, if◌then◌else◌,
  Bool, true, false, not, ◌||◌, Option, some, none, List, [], ◌∷◌, Bool-cases, inl, inr, ◌==◌, ◌⊎◌,
  update, mem, remove,
}
use pc.Base.Int.{ℤ, pos}
use pc.Timer.Timespec.{Timespec, Itimerspec, timespec_add, is_set, bad_nsec, is_before}
use pc.Timer.State.{
  State, TimerNode, in_use, set_timer, set_thread, unlink_timer, broadcast, is_in_use,
}
use pc.Timer.Pool.{timer_addref, timer_delref, timer_valid}
use pc.Timer.Threads.{queue_timer, insert_timer}
use pc.Timer.Settime.{
  arm, enqueue, disarm, set_expiry, enqueue_armed, wake, settime_locked, timer_settime, is_abstime,
}
use pc.Timer.Invariant.{Lists, Counts, Inv}
use pc.Timer.Invariant.Locked.{delref_more, addref-refcount, settime_locked-used}
use pc.Timer.Invariant.Settime.{arm-fields}

-- The state when the mutex is released, before the wake-up.
abbrev pub settled : State → ℕ → ℕ → Itimerspec → Timespec → State
settled s t flags value now =
    let a = (arm (timer_addref s t) t flags value now).0 in
    set_timer a t (record (a.timer t) { refcount = pos 1 })

-- The call on a timer in use.
pub timer_settime-used :
    (s : State) (t flags : ℕ) (value : Itimerspec) (now : Timespec)
    → Inv s
    → (s.timer t).inuse ≡ in_use
    → (bad_nsec value.it_interval || bad_nsec value.it_value) ≡ false
    → timer_settime s (some t) flags value now false ≡ (
      wake
          (settled s t flags value now)
          (s.timer t).thread
          (arm (timer_addref s t) t flags value now).1,
      true,
      none,
    )
timer_settime-used s t flags value now v used ok =
    unfold timer_settime in
    rw
      (
        ok,
        settime_locked-used s t flags value now used,
        delref_more (arm (timer_addref s t) t flags value now).0 t (
            (arm-fields (timer_addref s t) t t flags value now).1
            ∙ addref-refcount s t 1 (v.counts.held t used)),
      )
      refl

abbrev pub expiries : State → ℕ → Timespec
expiries s u = (s.timer u).expirytime

-- The expiry times after the call.
abbrev pub expiry_after : State → ℕ → ℕ → Itimerspec → Timespec → ℕ → Timespec
expiry_after s t flags value now =
    update (expiries s) t
      (if is_abstime flags then value.it_value else timespec_add now value.it_value)

-- The state in which the timer is queued.
abbrev due : State → ℕ → ℕ → Itimerspec → Timespec → State
due s t flags value now = set_expiry (disarm (timer_addref s t) t value) t flags value now

due-expiry :
    (s : State) (t flags : ℕ) (value : Itimerspec) (now : Timespec)
    → expiries (due s t flags value now) ≡ expiry_after s t flags value now
unfolding disarm set_expiry unlink_timer timer_addref
due-expiry s t flags value now = fun_ext λ u. ground (arith, ==_iff t u)

due-thread :
    (s : State) (t flags : ℕ) (value : Itimerspec) (now : Timespec)
    → ((due s t flags value now).timer t).thread ≡ (s.timer t).thread
unfolding disarm set_expiry unlink_timer timer_addref
due-thread s t flags value now = ground (arith, ==_refl t)

due-value :
    (s : State) (t flags : ℕ) (value : Itimerspec) (now : Timespec)
    → ((due s t flags value now).timer t).value ≡ value
unfolding disarm set_expiry unlink_timer timer_addref
due-value s t flags value now = ground (arith, ==_refl t)

due-queue :
    (s : State) (t flags k : ℕ) (value : Itimerspec) (now : Timespec)
    → ((due s t flags value now).thread k).timer_queue ≡ remove t (s.thread k).timer_queue
unfolding disarm set_expiry unlink_timer timer_addref
due-queue s t flags k value now = refl

-- What a timer that is set to a time other than zero comes to.
arm-armed :
    (s : State) (t flags : ℕ) (value : Itimerspec) (now : Timespec)
    → is_set value.it_value ≡ true
    → arm (timer_addref s t) t flags value now ≡ enqueue_armed (due s t flags value now) t
unfolding arm
arm-armed s t flags value now on = rw on refl

enqueue_armed-lem :
    (s : State) (t k : ℕ)
    → (s.timer t).thread ≡ some k
    → let a = enqueue_armed s t in
      (((a.0.timer t).armed ≡ true) × ((a.0.timer t).value ≡ (s.timer t).value))
      × ((expiries a.0 ≡ expiries s)
          × (((a.0.thread k).timer_queue
                ≡ (insert_timer (expiries s) t true (s.thread k).timer_queue).0)
              × (a.1 ≡ (insert_timer (expiries s) t true (s.thread k).timer_queue).1)))
unfolding enqueue_armed enqueue queue_timer
enqueue_armed-lem s t k e =
    rw (e, ==_refl t, ==_refl k)
      ((refl, refl), (fun_ext λ u. ground (arith, ==_iff t u), (refl, refl)))

enqueue_armed-broadcasts :
    (s : State) (t k : ℕ)
    → (s.timer t).thread ≡ some k
    → (enqueue_armed s t).0.broadcasts ≡ s.broadcasts
unfolding enqueue_armed enqueue queue_timer
enqueue_armed-broadcasts s t k e = rw e refl

due-broadcasts :
    (s : State) (t flags : ℕ) (value : Itimerspec) (now : Timespec)
    → (due s t flags value now).broadcasts ≡ s.broadcasts
unfolding disarm set_expiry unlink_timer timer_addref
due-broadcasts s t flags value now = refl

put-eq :
    (s : State) (t flags k : ℕ) (value : Itimerspec) (now : Timespec)
    → let d = due s t flags value now in
      insert_timer (expiries d) t true (d.thread k).timer_queue
      ≡ insert_timer (expiry_after s t flags value now) t true (remove t (s.thread k).timer_queue)
put-eq s t flags k value now =
    let d = due s t flags value now in
    ap (λ (f : ℕ → Timespec). insert_timer f t true (d.thread k).timer_queue)
      (due-expiry s t flags value now)
    ∙ ap (insert_timer (expiry_after s t flags value now) t true) (due-queue s t flags k value now)

-- Giving the reference back and waking the thread change nothing else.
woken :
    (a : State) (need : Bool) (t k : ℕ)
    → let w = wake (set_timer a t (record (a.timer t) { refcount = pos 1 })) (some k) need in
      (((w.timer t).armed ≡ (a.timer t).armed) × ((w.timer t).value ≡ (a.timer t).value))
      × ((expiries w ≡ expiries a)
          × (((w.thread k).timer_queue ≡ (a.thread k).timer_queue)
              × (w.broadcasts ≡ (if need then k ∷ a.broadcasts else a.broadcasts))))
woken a true t k = (
  (rw (==_refl t) refl, rw (==_refl t) refl),
  (fun_ext λ u. ground (arith, ==_iff t u), (refl, refl)),
)
woken a false t k = (
  (rw (==_refl t) refl, rw (==_refl t) refl),
  (fun_ext λ u. ground (arith, ==_iff t u), (refl, refl)),
)

-- In a state with the invariant, a timer in use, served by a thread, that is set to a well-formed time
-- other than zero, with no old value asked for: the call succeeds; the timer is armed with the new
-- value; its expiry time is the given one for TIMER_ABSTIME and the time from now otherwise, and no
-- other timer's changes; in its thread's queue it is taken out and inserted at its place; and the
-- thread is woken exactly when the insertion reports that the timer is now the first.
pub timer_settime-arms :
    (s : State) (t flags k : ℕ) (value : Itimerspec) (now : Timespec)
    → Inv s
    → (s.timer t).inuse ≡ in_use
    → (s.timer t).thread ≡ some k
    → (bad_nsec value.it_interval || bad_nsec value.it_value) ≡ false
    → is_set value.it_value ≡ true
    → let r = timer_settime s (some t) flags value now false in
      let put =
        insert_timer
          (expiry_after s t flags value now)
          t
          true
          (remove t (s.thread k).timer_queue) in
      (((r.1 ≡ true) × ((r.0.timer t).armed ≡ true)) × ((r.0.timer t).value ≡ value))
      × ((expiries r.0 ≡ expiry_after s t flags value now)
          × (((r.0.thread k).timer_queue ≡ put.0)
              × (r.0.broadcasts ≡ (if put.1 then k ∷ s.broadcasts else s.broadcasts))))
timer_settime-arms s t flags k value now v used e ok on =
    let d = due s t flags value now in
    let lem = enqueue_armed-lem d t k (due-thread s t flags value now ∙ e) in
    let a = enqueue_armed d t in
    let w = woken a.0 a.1 t k in
    let put = put-eq s t flags k value now in
    rw (timer_settime-used s t flags value now v used ok, e, arm-armed s t flags value now on)
      (
        ((refl, w.0.0 ∙ lem.0.0), w.0.1 ∙ lem.0.1 ∙ due-value s t flags value now),
        (
          w.1.0 ∙ lem.1.0 ∙ due-expiry s t flags value now,
          (
            w.1.1.0 ∙ lem.1.1.0 ∙ ap (λ p. p.0) put,
            w.1.1.1
                ∙ ap (λ b. if b then k ∷ a.0.broadcasts else a.0.broadcasts)
                    (lem.1.1.1 ∙ ap (λ p. p.1) put)
                ∙ ap
                    (λ (bs : List ℕ).
                      if (insert_timer (expiry_after s t flags value now) t true
                        (remove t (s.thread k).timer_queue)).1
                      then k ∷ bs
                      else bs)
                    (enqueue_armed-broadcasts d t k (due-thread s t flags value now ∙ e)
                      ∙ due-broadcasts s t flags value now),
          ),
        ),
      )

wake-timer : (s : State) (th : Option ℕ) (need : Bool) → (wake s th need).timer ≡ s.timer
wake-timer s none need = refl
wake-timer s (some k) true = refl
wake-timer s (some k) false = refl

addref-inuse :
    (s : State) (t : ℕ) → (s.timer t).inuse ≡ in_use → ((timer_addref s t).timer t).inuse ≡ in_use
unfolding timer_addref
addref-inuse s t e = rw (==_refl t) e

-- The timer stays in use.
pub timer_settime-inuse :
    (s : State) (t flags : ℕ) (value : Itimerspec) (now : Timespec)
    → Inv s
    → (s.timer t).inuse ≡ in_use
    → (bad_nsec value.it_interval || bad_nsec value.it_value) ≡ false
    → ((timer_settime s (some t) flags value now false).0.timer t).inuse ≡ in_use
timer_settime-inuse s t flags value now v used ok =
    rw
      (
        timer_settime-used s t flags value now v used ok,
        wake-timer _ (s.timer t).thread (arm (timer_addref s t) t flags value now).1,
        ==_refl t,
      )
      ((arm-fields (timer_addref s t) t t flags value now).0 ∙ addref-inuse s t used)
