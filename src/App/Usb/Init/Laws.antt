-- ===== src/App/Usb/Init/Laws.antt =====
-- What is set up when the readers of app/sys/eg_usbto322.c are started, and what the timers then do.
use pc.Base.{
  ℕ, suc, ◌≡◌, refl, sym, ap, subst, ◌∙◌, arith, ==_refl, Bool, true, false, Option, some, none,
  List, [], ◌∷◌, ◌++◌, mem, Bool-cases, inl, inr, ◌==◌, ◌⊎◌,
}
use pc.Base.Int.{ℤ, pos, ltb_ℤ}
use pc.Timer.Timespec.{Timespec}
use pc.Timer.State.{State, Os}
use pc.Timer.Pool.{timer_init_once}
use pc.Timer.Api.{os_timer_add, has_flag, timer_stopped}
use pc.Timer.Service.{thread_pass, pass_on, sleeps}
use pc.Timer.Create.{timer_create}
use pc.Timer.Invariant.{Inv}
use pc.Timer.Invariant.Create.{init_once_ready}
use pc.Timer.Invariant.Reach.{Reach, start, next, adds, boot, Reach-Inv}
use pc.Timer.Spec.{table}
use pc.Timer.Spec.Calls.{entry, table-used}
use pc.Timer.Spec.Change.{Event, added}
use pc.Timer.Spec.Refines.{history, event, Reach-Runs}
use pc.Timer.Spec.Armed.{is_started, due_of, Runs-due}
use pc.Osal.Timers.{osal_timer_create}
use pc.Osal.Thread.{osal_task_create}
use pc.App.Usb.{alloc_322_index}
use pc.App.Usb.Devices.{split_names}
use pc.App.Usb.Init.{
  Controller, DeviceOs, Init, finished, hangs, faults, note_timer, set_timer_322, set_up,
  start_readers, eg_usbto322_init, main, global_init, enter, and_then, or_faults, usb_flag,
  usb_callback, eusb_send_period, priority, stack_size,
}

-- The timer module has come to the state by calls of which none starts a timer.
record Unstarted (os : Os) (s : State) : Type 0 where
  reached : Reach s
  unstarted : (t : ℕ) → is_started t (history reached) ≡ false

is_started-added :
    (t flag : ℕ) (millisec : ℤ) (now : Timespec) (x : Option ℕ) (es : List Event)
    → has_flag flag timer_stopped ≡ true
    → is_started t es ≡ false
    → is_started t (added flag millisec now x ∷ es) ≡ false
is_started-added t flag millisec now none es h e = e
is_started-added t flag millisec now (some u) es h e = ground (arith, e, h)

add-Unstarted :
    (os : Os) (s : State) (prio millisec : ℤ) (flag handler arg : ℕ) (has_id : Bool)
    (now : Timespec)
    → has_flag flag timer_stopped ≡ true
    → Unstarted os s
    → Unstarted os (os_timer_add os s prio millisec flag handler arg has_id now).0
unfolding history event
add-Unstarted os s prio millisec flag handler arg has_id now h u = record {
  reached = next u.reached (adds os prio millisec flag handler arg has_id now);
  unstarted = λ t.
      is_started-added t flag millisec now
        (os_timer_add os s prio millisec flag handler arg has_id now).1 (history u.reached) h
        (u.unstarted t);
}

-- The first call initialises the module: it is as if it had been initialised before.
boot-add :
    (os : Os) (prio millisec : ℤ) (flag handler arg : ℕ) (now : Timespec)
    → ltb_ℤ (pos 0) millisec ≡ true
    → (handler == 0) ≡ false
    → os_timer_add os boot prio millisec flag handler arg true now
      ≡ os_timer_add os (timer_init_once os boot) prio millisec flag handler arg true now
unfolding os_timer_add timer_create
boot-add os prio millisec flag handler arg now p h =
    rw (p, h, init_once_ready os (timer_init_once os boot) (unfold timer_init_once in refl)) refl

-- The timer module has not been called yet, or by calls of which none starts a timer.
abbrev Quiescent : Os → State → Type 0
Quiescent os s = (s ≡ boot) ⊎ Unstarted os s

begun : (os : Os) → Unstarted os (timer_init_once os boot)
unfolding history
begun os = record { reached = start os; unstarted = λ t. refl }

add-Quiescent :
    (os : Os) (s : State) (prio millisec : ℤ) (flag handler arg : ℕ) (now : Timespec)
    → has_flag flag timer_stopped ≡ true
    → ltb_ℤ (pos 0) millisec ≡ true
    → (handler == 0) ≡ false
    → Quiescent os s
    → Unstarted os (os_timer_add os s prio millisec flag handler arg true now).0
add-Quiescent os s prio millisec flag handler arg now h p q (inr u) =
    add-Unstarted os s prio millisec flag handler arg true now h u
add-Quiescent os s prio millisec flag handler arg now h p q (inl e) =
    subst (λ x. Unstarted os (os_timer_add os x prio millisec flag handler arg true now).0) (sym e)
      (subst (λ (r : State × Option ℕ). Unstarted os r.0)
        (sym (boot-add os prio millisec flag handler arg now p q))
        (add-Unstarted os (timer_init_once os boot) prio millisec flag handler arg true now h
          (begun os)))

create-timers :
    (os : Os) (s : State) (memory : Bool) (handler arg flag : ℕ) (millisec prio : ℤ)
    (now : Timespec)
    → (osal_timer_create os s memory handler arg millisec flag prio now).0
      ≡ (os_timer_add os s prio millisec flag handler arg true now).0
unfolding osal_timer_create
create-timers os s memory handler arg flag millisec prio now = ground arith

-- What holds of the timers where the initialisation goes on or hangs.
abbrev OfTimers : (State → Type 0) → Init → Type 0
OfTimers P (finished c) = P c.timers
OfTimers P (hangs c) = P c.timers
OfTimers P faults = Unit

note_timer-OfTimers :
    (P : State → Type 0) (c : Controller) (index : ℕ) (s : State) (handle : Option ℕ) (null : Bool)
    → P s
    → OfTimers P (note_timer c index s handle null)
unfolding note_timer
note_timer-OfTimers P c index s handle true h = tt
note_timer-OfTimers P c index s none false h = h
note_timer-OfTimers P c index s (some t) false h = h

set_timer-Quiescent :
    (os : Os) (dev : DeviceOs) (c : Controller) (index : ℕ)
    → Quiescent os c.timers
    → OfTimers (Quiescent os) (set_timer_322 os dev c index)
unfolding set_timer_322
set_timer-Quiescent os dev c index u = note_timer-OfTimers (Quiescent os) c index _ _ _ (
    subst (Quiescent os)
      (sym (
        create-timers os c.timers dev.memory usb_callback index usb_flag eusb_send_period priority
          dev.now))
      (inr (
        add-Quiescent os c.timers priority eusb_send_period usb_flag usb_callback index dev.now refl
          refl refl u)))

set_up-Quiescent :
    (os : Os) (dev : DeviceOs) (c : Controller) (name : List ℕ) (index : ℕ)
    → Quiescent os c.timers
    → OfTimers (Quiescent os) (set_up os dev c name index)
unfolding set_up
set_up-Quiescent os dev c name index u =
    elim (Bool-cases (osal_task_create dev.thread dev.block true stack_size priority).0) [
      | inl e ↦ rw e (
          set_timer-Quiescent os dev
            (record (enter c name index) { threads = c.threads ++ index ∷ [] }) index u)
      | inr e ↦ rw e u
    ]

and_then-OfTimers :
    (P : State → Type 0) (x : Init) (next_step : Controller → Init)
    → OfTimers P x
    → ((d : Controller) → P d.timers → OfTimers P (next_step d))
    → OfTimers P (and_then x next_step)
and_then-OfTimers P (finished d) next_step h f = f d h
and_then-OfTimers P (hangs d) next_step h f = h
and_then-OfTimers P faults next_step h f = tt

or_faults-OfTimers {ℓ} :
    {A : Type ℓ} (P : State → Type 0) (x : Option A) (next_step : A → Init)
    → ((a : A) → OfTimers P (next_step a))
    → OfTimers P (or_faults x next_step)
or_faults-OfTimers P none next_step f = tt
or_faults-OfTimers P (some a) next_step f = f a

start_readers-Quiescent :
    (os : Os) (dev : ℕ → DeviceOs) (i : ℕ) (names : List (List ℕ)) (c : Controller)
    → Quiescent os c.timers
    → OfTimers (Quiescent os) (start_readers os dev i names c)
unfolding start_readers
start_readers-Quiescent os dev i [] c u = u
start_readers-Quiescent os dev i (name ∷ names) c u =
    or_faults-OfTimers (Quiescent os) (alloc_322_index name) _ (λ index.
      and_then-OfTimers (Quiescent os) (set_up os (dev i) c name index)
        (λ d. start_readers os dev (suc i) names d) (set_up-Quiescent os (dev i) c name index u)
        (λ d w. start_readers-Quiescent os dev (suc i) names d w))

-- A timer module in which nothing is due sleeps.
empty-sleeps :
    (s : State) (k : ℕ) (now : Timespec) (queue : List ℕ)
    → (s.thread k).timer_queue ≡ queue
    → Inv s
    → ((t : ℕ) → due_of (table s t) ≡ none)
    → pass_on s k now queue ≡ sleeps
unfolding pass_on
empty-sleeps s k now [] e v idle = refl
empty-sleeps s k now (t ∷ rest) e v idle = let z = clash in absurd (cc)
  where
    waits : mem t (s.thread k).timer_queue ≡ true
    waits = rw e (ground (arith, ==_refl t))

    due : (entry s t).due ≡ some (s.timer t).expirytime
    due = rw (v.lists.queue_owner k t waits, waits) refl

    clash : none ≡ some (s.timer t).expirytime
    clash = sym (idle t) ∙ ap due_of (table-used s t (v.lists.queue_used k t waits)) ∙ due

main-Quiescent :
    (os : Os) (dev : ℕ → DeviceOs) (output : List ℕ) (c : Controller)
    → Quiescent os c.timers
    → OfTimers (Quiescent os) (main os dev output c)
unfolding main eg_usbto322_init
main-Quiescent os dev output c u =
    or_faults-OfTimers (Quiescent os) (split_names 4 [] output) _
      (λ names. start_readers-Quiescent os dev 0 names (global_init c) (unfold global_init in u))

-- Before the first call there are no threads with timers.
boot-sleeps : (s : State) (k : ℕ) (now : Timespec) → s ≡ boot → thread_pass s k now ≡ sleeps
boot-sleeps s k now e =
    subst (λ x. thread_pass x k now ≡ sleeps) (sym e) (unfold thread_pass in unfold pass_on in refl)

-- When the start of the program finishes, whatever the list of readers is, when the timer module has
-- not been called before, every thread of the timer module only waits for a signal, at any time: no
-- timer of a reader is due, so its callback is not called.
pub main-sleeps :
    (os : Os) (dev : ℕ → DeviceOs) (output : List ℕ) (c d : Controller) (k : ℕ) (now : Timespec)
    → c.timers ≡ boot
    → main os dev output c ≡ finished d
    → thread_pass d.timers k now ≡ sleeps
main-sleeps os dev output c d k now e done =
    elim (subst (OfTimers (Quiescent os)) done (main-Quiescent os dev output c (inl e))) [
      | inl w ↦ boot-sleeps d.timers k now w
      | inr u ↦
          unfold thread_pass in
          empty-sleeps d.timers k now (d.timers.thread k).timer_queue refl (Reach-Inv u.reached)
            (λ t. Runs-due t (Reach-Runs u.reached) (u.unstarted t))
    ]
