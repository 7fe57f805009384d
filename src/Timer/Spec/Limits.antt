-- ===== src/Timer/Spec/Limits.antt =====
-- When `os_timer_add` of osal/linux/os_timer.c has a timer to give, and when not.
use pc.Base.{
  ℕ, ◌<◌, ◌≡◌, ◌≢◌, refl, sym, ap, subst, ◌∙◌, arith, ==_refl, if◌then◌else◌, ◌==◌, ◌||◌, Bool,
  true, false, not, Option, some, none, List, [], ◌∷◌, mem, Bool-cases, inl, inr,
}
use pc.Base.Int.{ℤ, pos, ltb_ℤ}
use pc.Timer.Timespec.{Timespec}
use pc.Timer.State.{
  State, Os, Attr, ClockId, monotonic, is_in_use, in_use, free, timer_max, unlink_timer,
}
use pc.Timer.Pool.{alloc_first, timer_alloc, timer_init_once}
use pc.Timer.Threads.{thread_start, alloc_thread, thread_alloc, find_matching}
use pc.Timer.Create.{
  create_finish, create_on, create_attach, find_or_alloc, create_thread, create_switch, create_with,
  create_next, timer_create,
}
use pc.Timer.Api.{os_timer_add, add_next, add_created, thread_event}
use pc.Timer.Invariant.{Inv}
use pc.Timer.Invariant.Create.{timer_create-Inv, init_once_ready}
use pc.Timer.Invariant.Servers.{Servers}
use pc.Timer.Spec.Granting.{Result, made, undone}
use pc.Timer.Spec.Creating.{kept_event, timer_create-Result}
use pc.Timer.Spec.Adding.{typed-settime}

-- The addition gives what the creation gave.
add_next-gives :
    (s0 : State) (r : State × Option ℕ) (millisec : ℤ) (flag handler arg : ℕ) (now : Timespec)
    → Inv r.0
    → Result s0 (kept_event handler arg) r
    → ltb_ℤ (pos 0) millisec ≡ true
    → (add_next r.0 r.1 millisec flag now).1 ≡ r.1
unfolding add_next add_created
add_next-gives s0 _ millisec flag handler arg now v (undone u) ok = refl
add_next-gives s0 _ millisec flag handler arg now v (made {s} t k unused m) ok =
    rw (ap is_in_use m.used, typed-settime s0 s t k millisec flag handler arg now v m ok) refl

create_on-some :
    (os : Os) (s : State) (clock : ClockId) (k t id : ℕ)
    → os.spawn ≡ some id
    → (create_on os s clock k t).1 ≡ some t
unfolding create_on create_finish thread_start
create_on-some os s clock k t id e = elim (Bool-cases (s.thread k).exists) [
  | inl b ↦ rw b refl
  | inr b ↦ rw (b, e) refl
]

attach-some :
    (os : Os) (clock : ClockId) (t id : ℕ) (r : State × Option ℕ)
    → os.spawn ≡ some id
    → r.1 ≢ none
    → (create_attach os clock t r).1 ≡ some t
unfolding create_attach
attach-some os clock t id (s, none) e h = absurd (h refl)
attach-some os clock t id (s, some k) e h = create_on-some os s clock k t id e

found-some :
    (s : State) (r : State × Option ℕ) (m : Option ℕ)
    → r.1 ≢ none
    → (elim m as (λ x. State × Option ℕ) [ some k ↦ (s, some k) | none ↦ r ]).1 ≢ none
found-some s r none h z = h z
found-some s r (some k) h z = absurd (cc)

alloc-some :
    (os : Os) (attr : Attr) (clock : ClockId) (s : State) (k : ℕ) (ks : List ℕ)
    → s.thread_free_list ≡ k ∷ ks
    → (find_or_alloc os attr clock s).1 ≢ none
unfolding find_or_alloc thread_alloc alloc_thread
alloc-some os attr clock s k ks e =
    found-some s (thread_alloc os attr clock s) (find_matching attr clock s)
      (λ z. let y : some k ≡ none = rw e at z in absurd (cc))

create_next-some :
    (os : Os) (s : State) (prio : ℤ) (handler arg t k id : ℕ) (ts ks : List ℕ)
    → s.thread_free_list ≡ k ∷ ks
    → os.spawn ≡ some id
    → (create_next os monotonic
        (some (thread_event os prio handler arg))
        (alloc_first s (t ∷ ts))).1
      ≡ some t
unfolding create_next alloc_first create_with create_switch create_thread unlink_timer
create_next-some os s prio handler arg t k id ts ks e spawn =
    attach-some os monotonic t id _ spawn (alloc-some os (os.attr_of prio) monotonic _ k ks e)

if-second :
    (b : Bool) (r q : State × Option ℕ) (t : ℕ)
    → b ≡ false
    → q.1 ≡ some t
    → (if b then r else q).1 ≡ some t
if-second false r q t e h = h
if-second true r q t e h = absurd (cc)

timer_create-some :
    (os : Os) (s : State) (prio : ℤ) (handler arg t k id : ℕ) (ts ks : List ℕ)
    → s.once ≡ true
    → s.init_failed ≡ false
    → s.timer_free_list ≡ t ∷ ts
    → s.thread_free_list ≡ k ∷ ks
    → os.spawn ≡ some id
    → (timer_create os s monotonic (some (thread_event os prio handler arg))).1 ≡ some t
unfolding timer_create timer_alloc
timer_create-some os s prio handler arg t k id ts ks ready works e f spawn =
    rw (init_once_ready os s ready) (
      if-second s.init_failed _ _ t works (
        subst
          (λ l.
            (create_next os monotonic (some (thread_event os prio handler arg)) (alloc_first s l)).1
            ≡ some t)
          (sym e) (create_next-some os s prio handler arg t k id ts ks f spawn)))

-- In a state with the invariants of timers and of threads, after an initialisation that has not failed,
-- with a timer and a thread on the free lists, and where the system can start a thread: adding a timer
-- with a positive period, a handler that is not NULL and a place for its identifier succeeds, and gives
-- the first of the free timers.
pub os_timer_add-succeeds :
    (os : Os) (s : State) (prio millisec : ℤ) (flag handler arg t k id : ℕ) (ts ks : List ℕ)
    (now : Timespec)
    → Inv s
    → Servers s
    → ltb_ℤ (pos 0) millisec ≡ true
    → (handler == 0) ≡ false
    → s.init_failed ≡ false
    → s.timer_free_list ≡ t ∷ ts
    → s.thread_free_list ≡ k ∷ ks
    → os.spawn ≡ some id
    → (os_timer_add os s prio millisec flag handler arg true now).1 ≡ some t
unfolding os_timer_add
os_timer_add-succeeds os s prio millisec flag handler arg t k id ts ks now v w ok h works e f
      spawn =
    rw (ok, h)
      (add_next-gives s (timer_create os s monotonic (some (thread_event os prio handler arg)))
          millisec flag handler arg now (timer_create-Inv os s monotonic _ v)
          (timer_create-Result os s prio handler arg v w) ok
        ∙ timer_create-some os s prio handler arg t k id ts ks v.lists.ready works e f spawn)

create_full :
    (os : Os) (s : State) (prio : ℤ) (handler arg : ℕ)
    → s.once ≡ true
    → s.timer_free_list ≡ []
    → (timer_create os s monotonic (some (thread_event os prio handler arg))).1 ≡ none
unfolding timer_create timer_alloc timer_init_once alloc_first create_next
create_full os s prio handler arg ready e = elim (Bool-cases s.init_failed) [
  | inl b ↦ rw (ready, b) refl
  | inr b ↦ rw (ready, b, e) refl
]

-- With all the timers in use none is free.
none_free :
    (s : State) (ts : List ℕ)
    → s.timer_free_list ≡ ts
    → Inv s
    → ((t : ℕ) → t < timer_max → (s.timer t).inuse ≡ in_use)
    → ts ≡ []
none_free s [] e v used = refl
none_free s (t ∷ ts) e v used =
    let m : mem t s.timer_free_list ≡ true = rw e (ground (arith, ==_refl t)) in
    let z : in_use ≡ free = sym (used t (v.lists.in_range t m)) ∙ v.lists.free_unused t m in
    absurd (cc)

-- x
pub os_timer_add-full :
    (os : Os) (s : State) (prio millisec : ℤ) (flag handler arg : ℕ) (has_id : Bool)
    (now : Timespec)
    → Inv s
    → Servers s
    → ((t : ℕ) → t < timer_max → (s.timer t).inuse ≡ in_use)
    → (os_timer_add os s prio millisec flag handler arg has_id now).1 ≡ none
unfolding os_timer_add
os_timer_add-full os s prio millisec flag handler arg has_id now v w used =
    elim (Bool-cases (not (ltb_ℤ (pos 0) millisec) || (handler == 0 || not has_id))) [
      | inl b ↦ rw b refl
      | inr b ↦ rw b (
          add_next-gives s (timer_create os s monotonic (some (thread_event os prio handler arg)))
            millisec flag handler arg now (timer_create-Inv os s monotonic _ v)
            (timer_create-Result os s prio handler arg v w) (ground arith)
          ∙ create_full os s prio handler arg v.lists.ready
              (none_free s s.timer_free_list refl v used))
    ]
