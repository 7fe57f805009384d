-- ===== src/App/Usb/Init.antt =====
-- What `eg_usbto322_init` of app/sys/eg_usbto322.c does for each reader: its entry of `controll_eg`, its thread and
-- its timer, over the modules of threads and timers; and `global_init` and the start of `main` of app/sys/main.c.
mod Tests
pub mod Laws
pub mod Readers
use pc.Base.{
  ℕ, zero, suc, ◌+◌, ◌≡◌, refl, arith, if◌then◌else◌, ◌==◌, Bool, true, false, not, Option, some,
  none, List, [], ◌∷◌, ◌++◌, update,
}
use pc.Base.Int.{ℤ, pos}
use pc.Timer.Timespec.{Timespec}
use pc.Timer.State.{State, Os}
use pc.Osal.Thread.{ThreadOs, osal_task_create}
use pc.Osal.Timers.{osal_timer_create}
use pc.App.Usb.{init, idle, Reader, alloc_322_index}
use pc.App.Usb.Devices.{split_names}

-- `usb_ccid_322_t`, less the fields that nothing uses
pub record UsbCcid322 : Type 0 where
  pub ccid322_exist : ℕ
  pub usb_port : List ℕ
  pub ccid322_index : ℕ
  pub reader : Reader
  -- `timer_322`, NULL for `none`
  pub timer_322 : Option ℕ

-- What the initialisation changes: `controll_eg.usb_ccid_322` and the timer module, and the threads that it has
-- started, each with the index of its reader.
pub record Controller : Type 0 where
  pub usb_ccid_322 : ℕ → UsbCcid322
  pub timers : State
  pub threads : List ℕ

-- What the system answers while one reader is set up.
pub record DeviceOs : Type 0 where
  pub thread : ThreadOs
  -- whether there is memory for the task, and for the timer's handle
  pub block : Bool
  pub memory : Bool
  pub now : Timespec

pub data Init : Type 0 where
  finished : Controller → Init
  -- an assertion fails: the loop of `OS_ASSERT` does not end
  hangs : Controller → Init
  -- memory outside an array, or at NULL, is written
  faults : Init

-- EUSB_SEND_PERIOD, TIMER_INTERVAL|TIMER_STOPPED, and the handler `timer_usb_callback`, as a number
abbrev pub eusb_send_period : ℤ
eusb_send_period = pos 500

abbrev pub usb_flag : ℕ
usb_flag = 12

abbrev pub usb_callback : ℕ
usb_callback = 1

-- RT_SYS_THREAD_STACK_SIZE, and RT_SYS_THREAD_PRIORITY and TIMER_PRIO_NORMAL
abbrev pub stack_size : ℤ
stack_size = pos 8388608

abbrev pub priority : ℤ
priority = pos 30

-- The entry of a reader, before its thread is created.
abbrev pub entered : UsbCcid322 → ℕ → List ℕ → UsbCcid322
entered u index name = record u {
  ccid322_index = index;
  reader = record u.reader { usb_state = init };
  ccid322_exist = 1;
  usb_port = name;
}

-- What `osal_timer_create` has given: the timer module, the handle, and whether NULL was written through.
unfoldable pub note_timer : Controller → ℕ → State → Option ℕ → Bool → Init
note_timer c index timers handle true = faults
note_timer c index timers none false = hangs (record c {
  timers = timers;
  usb_ccid_322 = update c.usb_ccid_322 index (record (c.usb_ccid_322 index) { timer_322 = none });
})
note_timer c index timers (some t) false = finished (record c {
  timers = timers;
  usb_ccid_322 = update c.usb_ccid_322 index (record (c.usb_ccid_322 index) { timer_322 = some t });
})

-- The timer of a reader whose thread runs.
unfoldable pub set_timer_322 : Os → DeviceOs → Controller → ℕ → Init
unfolding osal_timer_create note_timer
set_timer_322 os dev c index =
    let made =
      osal_timer_create os c.timers dev.memory usb_callback index eusb_send_period usb_flag priority
        dev.now in
    note_timer c index made.0 made.1 made.2

abbrev pub enter : Controller → List ℕ → ℕ → Controller
enter c name index = record c {
  usb_ccid_322 = update c.usb_ccid_322 index (entered (c.usb_ccid_322 index) index name);
}

-- One round of the loop over the devices, from the index on
unfoldable pub set_up : Os → DeviceOs → Controller → List ℕ → ℕ → Init
unfolding set_timer_322 osal_task_create
set_up os dev c name index =
    let c1 = enter c name index in
    let task = osal_task_create dev.thread dev.block true stack_size priority in
    let set = set_timer_322 os dev (record c1 { threads = c1.threads ++ index ∷ [] }) index in
    if task.0 then set else hangs c1

abbrev pub and_then : Init → (Controller → Init) → Init
and_then (finished c) next = next c
and_then (hangs c) next = hangs c
and_then faults next = faults

-- `none`: an index is -1, or a name does not fit, and memory outside an array is written.
abbrev pub or_faults {ℓ} : {A : Type ℓ} → Option A → (A → Init) → Init
or_faults none next = faults
or_faults (some a) next = next a

-- The loop over the devices: `dev i` is what the system answers for the device `i`.
unfoldable pub start_readers : Os → (ℕ → DeviceOs) → ℕ → List (List ℕ) → Controller → Init
unfolding set_up
start_readers os dev i [] c = finished c
start_readers os dev i (name ∷ names) c =
    or_faults (alloc_322_index name) (λ index.
      and_then (set_up os (dev i) c name index) (λ d. start_readers os dev (suc i) names d))

-- `eg_usbto322_init`, for the bytes before the last one of the reader library's list
unfoldable pub eg_usbto322_init : Os → (ℕ → DeviceOs) → List ℕ → Controller → Init
unfolding split_names start_readers
eg_usbto322_init os dev output c =
    or_faults (split_names 4 [] output) (λ names. start_readers os dev 0 names c)

abbrev pub zero_reader : Reader
zero_reader = record { usb_state = idle; toggle = 0; toggle_transmit = 0 }

-- `global_init`: all bytes of `controll_eg` are zero; a port is empty.
unfoldable pub global_init : Controller → Controller
global_init c = record c {
  usb_ccid_322 = λ i. record {
    ccid322_exist = 0;
    usb_port = [];
    ccid322_index = 0;
    reader = zero_reader;
    timer_322 = none;
  };
}

-- `main`, up to its endless loop, which only sleeps
unfoldable pub main : Os → (ℕ → DeviceOs) → List ℕ → Controller → Init
unfolding global_init eg_usbto322_init
main os dev output c = eg_usbto322_init os dev output (global_init c)
