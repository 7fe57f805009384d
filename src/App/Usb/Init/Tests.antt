-- ===== src/App/Usb/Init/Tests.antt =====
-- The start of the program with one reader, on port 1-1.4.
use pc.Timer.Pool.{
  thread_init, init_module, timer_init_once, timer_alloc, timer_dealloc, timer_addref, timer_delref,
  alloc_first,
}
use pc.Timer.Threads.{
  insert_timer, alloc_thread, thread_alloc, thread_dealloc, thread_start, find_in, find_matching,
  queue_timer,
}
use pc.Timer.Create.{
  create_bail, create_finish, create_on, find_or_alloc, create_attach, create_thread, create_switch,
  create_with, create_next, timer_create,
}
use pc.Timer.Settime.{
  timer_settime, read_old, enqueue, disarm, set_expiry, enqueue_armed, arm, settime_locked,
}
use pc.Base.{ℕ, ◌+◌, ◌≡◌, refl, arith, none, true, List, [], ◌∷◌, length, count_up}
use pc.Base.Int.{pos, ◌+ℤ◌}
use pc.Timer.Timespec.{timespec_add, timespec_sub, timespec_compare, ms2ts}
use pc.Timer.State.{unlink_timer}
use pc.Timer.Delete.{delete_finish, delete_valid, delete_resume, timer_delete}
use pc.Timer.Api.{os_timer_add, os_timer_start, os_timer_stop, os_timer_del, add_created, add_next}
use pc.Timer.Service.{thread_pass, sleeps}
use pc.Timer.Invariant.Reach.{boot}
use pc.Timer.Tests.{test_os, at}
use pc.Osal.Thread.{
  ThreadOs, osal_task_create, os_pthread_create, pthread_create_internel, set_attributes,
  create_thread as create_task_thread,
}
use pc.Osal.Timers.{osal_timer_create}
use pc.App.Usb.{find_port, alloc_322_index}
use pc.App.Usb.Devices.{split_names, joined, AllFit}
use pc.App.Usb.Init.{
  Controller, DeviceOs, finished, hangs, faults, note_timer, set_timer_322, set_up, start_readers,
  eg_usbto322_init, main, global_init, zero_reader,
}
use pc.App.Usb.Init.Laws.{main-sleeps}
use pc.App.Usb.Init.Readers.{AllReady, main-AllReady, main-unknown}

abbrev willing : ThreadOs
willing = record {
  stack_min = 16384;
  attr_init_ret = pos 0;
  stacksize_ret = pos 0;
  detachstate_ret = pos 0;
  inheritsched_ret = pos 0;
  schedpolicy_ret = pos 0;
  schedparam_ret = pos 0;
  memory = true;
  name_memory = true;
  create_ret = pos 0;
}

abbrev each : ℕ → DeviceOs
each i = record { thread = willing; block = true; memory = true; now = at 5 0 }

abbrev third : List ℕ
third = 49 ∷ 45 ∷ 49 ∷ 46 ∷ 52 ∷ []

abbrev strange : List ℕ
strange = 50 ∷ 45 ∷ 49 ∷ []

abbrev blank : Controller
blank = record {
  usb_ccid_322 = λ i. record {
    ccid322_exist = 0;
    usb_port = [];
    ccid322_index = 0;
    reader = zero_reader;
    timer_322 = none;
  };
  timers = boot;
  threads = [];
}

abbrev after_main : Controller
after_main = elim (main test_os each (joined (third ∷ [])) blank) [
  | finished d ↦ d
  | hangs d ↦ d
  | faults ↦ blank
]

third-fits : AllFit (third ∷ [])
third-fits = (refl, (omega arith, tt))

main-third : main test_os each (joined (third ∷ [])) blank ≡ finished after_main
unfolding ms2ts timespec_compare timespec_add timespec_sub unlink_timer thread_init init_module
    timer_init_once alloc_first timer_alloc timer_dealloc timer_addref timer_delref alloc_thread
    thread_alloc thread_dealloc thread_start find_in find_matching insert_timer queue_timer
    create_bail create_finish create_on find_or_alloc create_attach create_thread create_switch
    create_with create_next timer_create read_old enqueue disarm set_expiry enqueue_armed arm
    settime_locked timer_settime delete_finish delete_resume delete_valid timer_delete add_created
    add_next os_timer_add os_timer_del os_timer_start os_timer_stop count_up ◌+ℤ◌ main
    eg_usbto322_init start_readers set_up set_timer_322 note_timer global_init split_names
    alloc_322_index find_port osal_timer_create osal_task_create os_pthread_create
    pthread_create_internel set_attributes create_task_thread
main-third = refl

main-sleeps_example : thread_pass after_main.timers 0 (at 9 0) ≡ sleeps
main-sleeps_example =
    main-sleeps test_os each (joined (third ∷ [])) blank after_main 0 (at 9 0) refl main-third

main-AllReady_example :
    AllReady after_main (third ∷ [])
    × (length after_main.threads ≡ length blank.threads + length (third ∷ []))
main-AllReady_example =
    main-AllReady test_os each (third ∷ []) blank after_main (omega arith) third-fits main-third

strange-unknown : alloc_322_index strange ≡ none
unfolding alloc_322_index
strange-unknown = refl

main-unknown_example : main test_os each (joined (strange ∷ third ∷ [])) blank ≡ faults
main-unknown_example =
    main-unknown test_os each strange (third ∷ []) blank (omega arith)
      (refl, (omega arith, third-fits)) strange-unknown
