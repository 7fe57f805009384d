-- ===== src/Timer/Behaviour/Twice.antt =====
-- Two threads that delete one timer with `__timer_delete` of osal/linux/os_timer.c while its handler runs: both
-- wait, and each goes on after the wait.
use pc.Base.{ℕ, ◌≡◌, sym, subst, arith, ==_refl, true, false, mem, mem-remove}
use pc.Base.Int.{negsuc, pos}
use pc.Timer.State.{State, in_use, deleted, unlink_timer}
use pc.Timer.Pool.{timer_delref, timer_dealloc}
use pc.Timer.Delete.{returns, delete_finish, delete_resume}
use pc.Timer.Invariant.{Inv}

resumed :
    (s u : State) (self k t : ℕ) → delete_resume s self k t ≡ returns u true → u ≡ delete_finish s t
unfolding delete_resume
resumed s u self k t e = ground arith

-- The end of a deletion of a timer with no reference.
finish_free :
    (s : State) (t : ℕ)
    → (s.timer t).refcount ≡ pos 0
    → (((delete_finish s t).timer t).inuse ≡ deleted)
      × ((((delete_finish s t).timer t).refcount ≡ negsuc 0)
          × (mem t (delete_finish s t).timer_free_list ≡ false))
unfolding delete_finish timer_delref unlink_timer
finish_free s t e = ground (arith, ==_refl t, mem-remove t t s.timer_free_list)

finish_used :
    (s : State) (t : ℕ)
    → (s.timer t).refcount ≡ pos 1
    → ((delete_finish s t).timer t).refcount ≡ pos 0
unfolding delete_finish timer_delref timer_dealloc unlink_timer
finish_used s t e = ground (arith, ==_refl t)

-- In a state with the invariant, when two deletions of one timer in use both go on after their waits,
-- one after the other, both return 0, and the timer is lost: it is left marked as deleted, with a
-- reference count of -1, it is not on the free list, and the invariant does not hold any more.
pub delete_resume-twice :
    (s u v : State) (t k first second : ℕ)
    → Inv s
    → (s.timer t).inuse ≡ in_use
    → delete_resume s first k t ≡ returns u true
    → delete_resume u second k t ≡ returns v true
    → ((v.timer t).inuse ≡ deleted)
      × (((v.timer t).refcount ≡ negsuc 0) × ((mem t v.timer_free_list ≡ false) × ¬ Inv v))
delete_resume-twice s u v t k first second inv used e f =
    let once = resumed s u first k t e in
    let zero : (u.timer t).refcount ≡ pos 0 =
      subst (λ (x : State). (x.timer t).refcount ≡ pos 0) (sym once)
        (finish_used s t (inv.counts.held t used)) in
    let gone = finish_free u t zero in
    subst
      (λ (x : State).
        ((x.timer t).inuse ≡ deleted)
        × (((x.timer t).refcount ≡ negsuc 0) × ((mem t x.timer_free_list ≡ false) × ¬ Inv x)))
      (sym (resumed u v second k t f))
      (gone.0, (gone.1.0, (gone.1.1, λ w. w.counts.settled t gone.0)))
