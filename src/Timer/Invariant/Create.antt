-- ===== src/Timer/Invariant/Create.antt =====
-- `__timer_create` keeps the invariant, also when it gives up half way.
use pc.Base.{
  ℕ, ◌<◌, ◌≡◌, refl, arith, ==_refl, true, Option, some, none, List, [], ◌∷◌, Option-cases, inl,
  inr,
}
use pc.Timer.State.{
  State, timer_max, set_errno, enotsup, enomem, eagain, einval, Os, ClockId, Attr, AttrPtr, Notify,
  by_signal, by_none, by_thread, by_other, Sigevent, signal_thread,
}
use pc.Timer.Pool.{alloc_first, timer_alloc, timer_init_once}
use pc.Timer.Threads.{alloc_thread, thread_alloc, thread_start, find_matching}
use pc.Timer.Create.{
  create_finish, create_on, find_or_alloc, create_attach, create_thread, create_switch, create_with,
  create_next, timer_create,
}
use pc.Timer.Invariant.{Inv}
use pc.Timer.Invariant.Locked.{errno-Inv}
use pc.Timer.Invariant.Fresh.{
  Fresh, set_timer-Fresh, relabel-Fresh, empty_queue-Fresh, alloc_first-Fresh, create_bail-Inv,
  thread_start-Fresh,
}

create_finish-Inv :
    (s : State) (clock : ClockId) (k t : ℕ) → Fresh s t → Inv (create_finish s clock k t).0
unfolding create_finish
create_finish-Inv s clock k t f = (set_timer-Fresh s t _ refl refl f).inv

create_on-Inv :
    (os : Os) (s : State) (clock : ClockId) (k t : ℕ) → Fresh s t → Inv (create_on os s clock k t).0
unfolding create_on
create_on-Inv os s clock k t f = ground (
  arith,
  create_finish-Inv s clock k t f,
  create_finish-Inv (thread_start os s k).0 clock k t (thread_start-Fresh os s k t f),
  create_bail-Inv (set_errno (thread_start os s k).0 eagain) (some k) t
      (relabel-Fresh (thread_start os s k).0 t _ _ _ _ _ _ (thread_start-Fresh os s k t f)),
)

pub thread_alloc-Fresh :
    (os : Os) (attr : Attr) (clock : ClockId) (s : State) (ks : List ℕ) (t : ℕ)
    → Fresh s t
    → Fresh (alloc_thread os attr clock s ks).0 t
unfolding alloc_thread
thread_alloc-Fresh os attr clock s [] t f = f
thread_alloc-Fresh os attr clock s (k ∷ rest) t f = relabel-Fresh _ t _ _ _ _ _ _ (
    empty_queue-Fresh _ k t _ refl
      (relabel-Fresh s t rest s.thread_active_list s.init_failed s.errno s.broadcasts s.fault f))

find_or_alloc-Fresh :
    (os : Os) (attr : Attr) (clock : ClockId) (s : State) (t : ℕ)
    → Fresh s t
    → Fresh (find_or_alloc os attr clock s).0 t
unfolding find_or_alloc
find_or_alloc-Fresh os attr clock s t f = elim (Option-cases (find_matching attr clock s)) [
  | inr (k, e) ↦ rw (e, find_or_alloc) f
  | inl e ↦
      rw (e, find_or_alloc)
        (unfold thread_alloc in thread_alloc-Fresh os attr clock s s.thread_free_list t f)
]

create_attach-Inv :
    (os : Os) (clock : ClockId) (t : ℕ) (r : State × Option ℕ)
    → Fresh r.0 t
    → Inv (create_attach os clock t r).0
unfolding create_attach
create_attach-Inv os clock t (s, none) f =
    create_bail-Inv (set_errno s eagain) none t (relabel-Fresh s t _ _ _ _ _ _ f)
create_attach-Inv os clock t (s, some k) f = create_on-Inv os s clock k t f

create_thread-Inv :
    (os : Os) (s : State) (clock : ClockId) (attributes : AttrPtr) (t : ℕ)
    → Fresh s t
    → Inv (create_thread os s clock attributes t).0
unfolding create_thread
create_thread-Inv os s clock attributes t f =
    create_attach-Inv os clock t _
      (find_or_alloc-Fresh os _ clock _ t (set_timer-Fresh s t _ refl refl f))

create_switch-Inv :
    (os : Os) (s : State) (clock : ClockId) (notify : Notify) (attributes : AttrPtr) (t : ℕ)
    → Fresh s t
    → Inv (create_switch os s clock notify attributes t).0
unfolding create_switch
create_switch-Inv os s clock by_none attributes t f = create_on-Inv os s clock signal_thread t f
create_switch-Inv os s clock by_signal attributes t f = create_on-Inv os s clock signal_thread t f
create_switch-Inv os s clock by_thread attributes t f = create_thread-Inv os s clock attributes t f
create_switch-Inv os s clock by_other attributes t f =
    create_bail-Inv (set_errno s einval) none t (relabel-Fresh s t _ _ _ _ _ _ f)

create_with-Inv :
    (os : Os) (s : State) (clock : ClockId) (evp : Option Sigevent) (t : ℕ)
    → Fresh s t
    → Inv (create_with os s clock evp t).0
unfolding create_with
create_with-Inv os s clock evp t f =
    create_switch-Inv os _ clock _ _ t (set_timer-Fresh s t _ refl refl f)

create_next-Inv :
    (os : Os) (s : State) (clock : ClockId) (evp : Option Sigevent) (free_list : List ℕ)
    → s.timer_free_list ≡ free_list
    → Inv s
    → Inv (create_next os clock evp (alloc_first s free_list)).0
unfolding create_next alloc_first
create_next-Inv os s clock evp [] e v = errno-Inv s eagain v
create_next-Inv os s clock evp (t ∷ rest) e v =
    create_with-Inv os _ clock evp t (alloc_first-Fresh s t rest e v)

pub init_once_ready : (os : Os) (s : State) → s.once ≡ true → timer_init_once os s ≡ s
unfolding timer_init_once
init_once_ready os s e = rw e

-- `__timer_create` keeps the invariant, whether it succeeds or not.
pub timer_create-Inv :
    (os : Os) (s : State) (clock : ClockId) (evp : Option Sigevent)
    → Inv s
    → Inv (timer_create os s clock evp).0
unfolding timer_create
timer_create-Inv os s clock evp v =
    rw (init_once_ready os s v.lists.ready)
      (ground (arith, errno-Inv s enotsup v, errno-Inv s enomem v, fresh))
  where
    fresh : Inv (create_next os clock evp (timer_alloc s)).0
    fresh = unfold timer_alloc in create_next-Inv os s clock evp s.timer_free_list refl v

-- The timer handed out is the one that was taken.
create_on-id :
    (os : Os) (s : State) (clock : ClockId) (k t u : ℕ)
    → (create_on os s clock k t).1 ≡ some u
    → u ≡ t
unfolding create_on create_finish
create_on-id os s clock k t u e = ground arith

create_attach-id :
    (os : Os) (clock : ClockId) (t u : ℕ) (r : State × Option ℕ)
    → (create_attach os clock t r).1 ≡ some u
    → u ≡ t
unfolding create_attach
create_attach-id os clock t u (s, none) e = cc
create_attach-id os clock t u (s, some k) e = create_on-id os s clock k t u e

create_switch-id :
    (os : Os) (s : State) (clock : ClockId) (notify : Notify) (attributes : AttrPtr) (t u : ℕ)
    → (create_switch os s clock notify attributes t).1 ≡ some u
    → u ≡ t
unfolding create_switch create_thread
create_switch-id os s clock by_none attributes t u e = create_on-id os s clock signal_thread t u e
create_switch-id os s clock by_signal attributes t u e = create_on-id os s clock signal_thread t u e
create_switch-id os s clock by_thread attributes t u e = create_attach-id os clock t u _ e
create_switch-id os s clock by_other attributes t u e = cc

create_next-bound :
    (os : Os) (s : State) (clock : ClockId) (evp : Option Sigevent) (free_list : List ℕ) (u : ℕ)
    → s.timer_free_list ≡ free_list
    → Inv s
    → (create_next os clock evp (alloc_first s free_list)).1 ≡ some u
    → u < timer_max
unfolding create_next alloc_first create_with
create_next-bound os s clock evp [] u e v h = absurd (cc)
create_next-bound os s clock evp (t ∷ rest) u e v h =
    rw (create_switch-id os _ clock _ _ t u h)
      (v.lists.in_range t (rw e (ground (arith, ==_refl t))))

-- And it is one of the array.
pub timer_create-bound :
    (os : Os) (s : State) (clock : ClockId) (evp : Option Sigevent) (u : ℕ)
    → Inv s
    → (timer_create os s clock evp).1 ≡ some u
    → u < timer_max
unfolding timer_create
timer_create-bound os s clock evp u v h = ground (arith, bound, init_once_ready os s v.lists.ready)
  where
    bound : (create_next os clock evp (timer_alloc s)).1 ≡ some u → u < timer_max
    bound = unfold timer_alloc in create_next-bound os s clock evp s.timer_free_list u refl v
