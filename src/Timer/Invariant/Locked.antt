-- ===== src/Timer/Invariant/Locked.antt =====
-- The critical sections of `__timer_settime` and `__timer_delete` keep the invariant.
use pc.Base.{
  suc, ◌∙◌, ℕ, ◌<◌, ◌≡◌, ◌≢◌, ◌⊎◌, refl, arith, ==_iff, ==_refl, Bool, true, false, ◌||◌, Option,
  some, none, Bool-cases, inl, inr,
}
use pc.Base.Int.{pos}
use pc.Timer.Timespec.{Timespec, Itimerspec, bad_nsec}
use pc.Timer.State.{
  Errno, State, free, in_use, deleted, timer_max, set_timer, set_errno, einval, unlink_timer,
}
use pc.Timer.Pool.{timer_dealloc, timer_addref, timer_delref}
use pc.Timer.Settime.{arm, wake, settime_locked, timer_settime}
use pc.Timer.Delete.{delete_finish}
use pc.Timer.Invariant.{Lists, Counts, Inv}
use pc.Timer.Invariant.Moves.{
  set_timer-Lists, set_used-Lists, unlink-Unqueued, unlink_timer-Lists, relabel-Lists,
  timers-Counts,
}
use pc.Timer.Invariant.Pool.{timer_dealloc-Lists, timer_dealloc-Counts}
use pc.Timer.Invariant.Settime.{arm-Lists, arm-fields}

-- The three states of a timer, and what the invariant rules out.
pub inuse_cases :
    (s : State) (t : ℕ) → Counts s → ((s.timer t).inuse ≡ in_use) ⊎ ((s.timer t).inuse ≡ free)
inuse_cases s t c = ground (arith, c.settled t)

-- A reference that is not the last is dropped with no other effect.
pub delref_more :
    (s : State) (t : ℕ)
    → (s.timer t).refcount ≡ pos 2
    → timer_delref s t ≡ set_timer s t (record (s.timer t) { refcount = pos 1 })
unfolding timer_delref
delref_more s t e = rw (e, ==_refl t)

-- The last one gives the timer back.
pub delref_last :
    (s : State) (t : ℕ)
    → (s.timer t).refcount ≡ pos 1
    → timer_delref s t ≡ timer_dealloc (set_timer s t (record (s.timer t) { refcount = pos 0 })) t
delref_last s t e = unfold timer_delref in rw (e, ==_refl t)

pub wake-Inv : (s : State) (th : Option ℕ) (need : Bool) → Inv s → Inv (wake s th need)
wake-Inv s none need v = v
wake-Inv s (some k) true v = record {
  lists = relabel-Lists s _ _ _ _ _ _ v.lists;
  counts = timers-Counts s _ refl v.counts;
}
wake-Inv s (some k) false v = v

addref-fields :
    (s : State) (t u : ℕ)
    → (((timer_addref s t).timer u).inuse ≡ (s.timer u).inuse)
      × (u ≢ t → ((timer_addref s t).timer u).refcount ≡ (s.timer u).refcount)
unfolding timer_addref
addref-fields s t u = ground (arith, ==_iff t u)

pub addref-refcount :
    (s : State) (t n : ℕ)
    → (s.timer t).refcount ≡ pos n
    → ((timer_addref s t).timer t).refcount ≡ pos (suc n)
unfolding timer_addref
addref-refcount s t n e = rw (==_refl t, e)

addref-Lists : (s : State) (t : ℕ) → Lists s → Lists (timer_addref s t)
unfolding timer_addref
addref-Lists s t l = set_timer-Lists s t _ refl refl refl refl l

-- The reference that the call took is dropped again.
dropped-Inv :
    (s x : State) (t : ℕ)
    → Counts s
    → Lists x
    → (s.timer t).inuse ≡ in_use
    → ((u : ℕ) → (x.timer u).inuse ≡ (s.timer u).inuse)
    → ((u : ℕ) → u ≢ t → (x.timer u).refcount ≡ (s.timer u).refcount)
    → (x.timer t).refcount ≡ pos 2
    → Inv (timer_delref x t)
dropped-Inv s x t c l used same others two = rw (delref_more x t two) (record {
  lists = set_timer-Lists x t _ refl refl refl refl l;
  counts = record {
    held = λ u e. ground (arith, ==_iff t u, same u, others u, c.held u);
    idle = λ u e. ground (arith, ==_iff t u, same u, others u, c.idle u);
    settled = λ u. ground (arith, ==_iff t u, same u, c.settled u);
  };
})

-- The call on a timer in use.
settime_used-Inv :
    (s : State) (t flags : ℕ) (value : Itimerspec) (now : Timespec)
    → Inv s
    → (s.timer t).inuse ≡ in_use
    → Inv (timer_delref (arm (timer_addref s t) t flags value now).0 t)
settime_used-Inv s t flags value now v used =
    dropped-Inv s _ t v.counts
      (arm-Lists s1 t flags value now ((addref-fields s t t).0 ∙ used) (addref-Lists s t v.lists))
      used (λ u. (arm-fields s1 t u flags value now).0 ∙ (addref-fields s t u).0)
      (λ u ne. (arm-fields s1 t u flags value now).1 ∙ (addref-fields s t u).1 ne)
      ((arm-fields s1 t t flags value now).1 ∙ addref-refcount s t 1 (v.counts.held t used))
  where
    s1 : State
    s1 = timer_addref s t

-- The call on a free timer gives it back once more.
settime_free-Inv :
    (s : State) (t : ℕ)
    → Inv s
    → t < timer_max
    → (s.timer t).inuse ≡ free
    → Inv (timer_delref (set_errno (timer_addref s t) einval) t)
settime_free-Inv s t v lt unused =
    rw (delref_last (set_errno s1 einval) t (addref-refcount s t 0 (v.counts.idle t unused)))
      (record {
        lists = timer_dealloc-Lists s2 t lt (
            set_timer-Lists _ t _ refl refl refl refl
              (relabel-Lists s1 _ _ _ _ _ _ (addref-Lists s t v.lists)));
        counts =
            timer_dealloc-Counts s2 t (rw (==_refl t))
              (λ u ne e. ground (arith, ==_iff t u, addref-fields s t u, v.counts.held u))
              (λ u ne e. ground (arith, ==_iff t u, addref-fields s t u, v.counts.idle u))
              (λ u ne. ground (arith, ==_iff t u, addref-fields s t u, v.counts.settled u));
      })
  where
    s1 : State
    s1 = timer_addref s t

    s2 : State
    s2 = set_timer (set_errno s1 einval) t (record (s1.timer t) { refcount = pos 0 })

-- What the call comes to, on a timer in use and on one that is not.
pub settime_locked-used :
    (s : State) (t flags : ℕ) (value : Itimerspec) (now : Timespec)
    → (s.timer t).inuse ≡ in_use
    → settime_locked s t flags value now false ≡ (
      wake
          (timer_delref (arm (timer_addref s t) t flags value now).0 t)
          (s.timer t).thread
          (arm (timer_addref s t) t flags value now).1,
      true,
      none,
    )
unfolding settime_locked
settime_locked-used s t flags value now used = rw (==_refl t, used)

pub settime_locked-unused :
    (s : State) (t flags : ℕ) (value : Itimerspec) (now : Timespec) (want_old : Bool)
    → (s.timer t).inuse ≡ free
    → settime_locked s t flags value now want_old
      ≡ (timer_delref (set_errno (timer_addref s t) einval) t, false, none)
unfolding settime_locked
settime_locked-unused s t flags value now want_old unused = rw (==_refl t, unused)

settime_locked-Inv :
    (s : State) (t flags : ℕ) (value : Itimerspec) (now : Timespec)
    → Inv s
    → t < timer_max
    → Inv (settime_locked s t flags value now false).0
settime_locked-Inv s t flags value now v lt = elim (inuse_cases s t v.counts) [
  | inl e ↦
      rw (settime_locked-used s t flags value now e)
        (wake-Inv _ (s.timer t).thread _ (settime_used-Inv s t flags value now v e))
  | inr e ↦ rw (settime_locked-unused s t flags value now false e) (settime_free-Inv s t v lt e)
]

pub errno-Inv : (s : State) (e : Errno) → Inv s → Inv (set_errno s e)
errno-Inv s e v = record {
  lists = relabel-Lists s _ _ _ _ _ _ v.lists;
  counts = timers-Counts s _ refl v.counts;
}

-- `__timer_settime`, called with no `ovalue` as all of the API does, keeps the invariant.
pub timer_settime-Inv :
    (s : State) (t flags : ℕ) (value : Itimerspec) (now : Timespec)
    → Inv s
    → t < timer_max
    → Inv (timer_settime s (some t) flags value now false).0
timer_settime-Inv s t flags value now v lt =
    elim (Bool-cases (bad_nsec value.it_interval || bad_nsec value.it_value)) [
      | inl e ↦ unfold timer_settime in rw e (errno-Inv s einval v)
      | inr e ↦ unfold timer_settime in rw e (settime_locked-Inv s t flags value now v lt)
    ]

-- The end of `__timer_delete` keeps the invariant, and gives the timer back.
pub delete_finish-Inv :
    (s : State) (t : ℕ)
    → Inv s
    → t < timer_max
    → (s.timer t).inuse ≡ in_use
    → Inv (delete_finish s t)
unfolding delete_finish unlink_timer
delete_finish-Inv s t v lt used =
    rw (delref_last s1 t (rw (==_refl t) (v.counts.held t used))) (record {
      lists = timer_dealloc-Lists s2 t lt (
          set_timer-Lists s1 t _ refl refl refl refl (
            set_used-Lists (unlink_timer s t) t (record (s.timer t) { inuse = deleted }) (λ e. cc)
              (λ e. ground arith) (unlink-Unqueued s t)
              (unlink_timer-Lists s t (λ e. ground arith) v.lists)));
      counts =
          timer_dealloc-Counts s2 t (rw (==_refl t))
            (λ u ne e. ground (arith, ==_iff t u, v.counts.held u))
            (λ u ne e. ground (arith, ==_iff t u, v.counts.idle u))
            (λ u ne. ground (arith, ==_iff t u, v.counts.settled u));
    })
  where
    s1 : State
    s1 = unlink_timer (set_timer s t (record (s.timer t) { inuse = deleted })) t

    s2 : State
    s2 = set_timer s1 t (record (s1.timer t) { refcount = pos 0 })
