-- ===== src/Timer/Create.antt =====
-- `__timer_create` of osal/linux/os_timer.c.
use pc.Base.{ℕ, if◌then◌else◌, Bool, true, false, Option, none, some}
use pc.Timer.State.{
  State, Sigevent, Notify, by_signal, by_none, by_thread, by_other, AttrPtr, null, given, own, Attr,
  ClockId, process_cputime, thread_cputime, Os, enotsup, enomem, eagain, einval, signal_thread,
  set_timer, set_errno,
}
use pc.Timer.Pool.{timer_init_once, timer_alloc, timer_dealloc, timer_delref}
use pc.Timer.Threads.{thread_alloc, thread_dealloc, thread_start, find_matching}

-- What follows the label `unlock_bail`, when `__timer_create` gives up.
unfoldable pub create_bail : State → Option ℕ → ℕ → State
create_bail s thread t =
    let s1 : State = elim thread [ none ↦ s | some k ↦ thread_dealloc s k ] in
    timer_dealloc (timer_delref s1 t) t

-- The assignments of a successful `__timer_create`.
unfoldable pub create_finish : State → ClockId → ℕ → ℕ → State × Option ℕ
create_finish s clock k t = (
  set_timer s t
      (record (s.timer t) { clock = clock; abstime = false; armed = false; thread = some k }),
  some t,
)

-- A thread is at hand: if it does not run, start it.
unfoldable pub create_on : Os → State → ClockId → ℕ → ℕ → State × Option ℕ
create_on os s clock k t =
    let started = thread_start os s k in
    if (s.thread k).exists
    then create_finish s clock k t
    else if started.1
    then create_finish started.0 clock k t
    else (create_bail (set_errno started.0 eagain) (some k) t, none)

-- The event that the new timer keeps.
abbrev pub event_of : Option Sigevent → ℕ → Sigevent
event_of (some e) t = record e { attributes = own }
event_of none t = record { notify = by_signal; function = 0; sival_ptr = t; attributes = own }

-- `newtimer->attr`, from the caller's event
abbrev pub attr_from : Os → AttrPtr → Attr → Attr
attr_from os (given a) mine = a
attr_from os null mine = os.default_attr
attr_from os own mine = mine

-- A thread with the attributes, found or else allocated.
unfoldable pub find_or_alloc : Os → Attr → ClockId → State → State × Option ℕ
find_or_alloc os attr clock s = elim (find_matching attr clock s) [
  | some k ↦ (s, some k)
  | none ↦ thread_alloc os attr clock s
]

-- With no thread the call fails.
unfoldable pub create_attach : Os → ClockId → ℕ → State × Option ℕ → State × Option ℕ
create_attach os clock t (s, none) = (create_bail (set_errno s eagain) none t, none)
create_attach os clock t (s, some k) = create_on os s clock k t

-- The arm `case SIGEV_THREAD`.
unfoldable pub create_thread : Os → State → ClockId → AttrPtr → ℕ → State × Option ℕ
create_thread os s clock attributes t =
    let attr = attr_from os attributes (s.timer t).attr in
    let s1 = set_timer s t (record (s.timer t) { attr = attr }) in
    create_attach os clock t (find_or_alloc os attr clock s1)

-- The `switch` on `sigev_notify`; `attributes` are those of the caller's event.
unfoldable pub create_switch : Os → State → ClockId → Notify → AttrPtr → ℕ → State × Option ℕ
create_switch os s clock by_none attributes t = create_on os s clock signal_thread t
create_switch os s clock by_signal attributes t = create_on os s clock signal_thread t
create_switch os s clock by_thread attributes t = create_thread os s clock attributes t
create_switch os s clock by_other attributes t = (create_bail (set_errno s einval) none t, none)

abbrev pub attributes_of : Option Sigevent → AttrPtr
attributes_of (some e) = e.attributes
attributes_of none = null

-- A timer is at hand: set its event and find its thread.
unfoldable pub create_with : Os → State → ClockId → Option Sigevent → ℕ → State × Option ℕ
create_with os s clock evp t =
    let event = event_of evp t in
    let s1 = set_timer s t (record (s.timer t) { event = event; creator_pid = os.pid }) in
    create_switch os s1 clock event.notify (attributes_of evp) t

abbrev pub is_cpu_clock : ClockId → Bool
is_cpu_clock process_cputime = true
is_cpu_clock thread_cputime = true
is_cpu_clock _ = false

-- What `__timer_alloc` gave: with no free timer the call fails.
unfoldable pub create_next : Os → ClockId → Option Sigevent → State × Option ℕ → State × Option ℕ
create_next os clock evp (s, none) = (set_errno s eagain, none)
create_next os clock evp (s, some t) = create_with os s clock evp t

-- `__timer_create`: the new state, and the timer, or `none` for -1.
unfoldable pub timer_create : Os → State → ClockId → Option Sigevent → State × Option ℕ
timer_create os s clock evp =
    let s1 = timer_init_once os s in
    if is_cpu_clock clock
    then (set_errno s enotsup, none)
    else if s1.init_failed
    then (set_errno s1 enomem, none)
    else create_next os clock evp (timer_alloc s1)
