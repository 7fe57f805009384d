-- ===== src/Timer/Spec/Tests.antt =====
-- The contract at work on a timer that is added and started.
use pc.Base.{mem, ◌∙◌, ◌∷◌, false, ◌≡◌, ◌≤◌, refl, some, none, arith, true, count_up}
use pc.Timer.State.{State, Os, monotonic, unlink_timer}
use pc.Timer.Pool.{
  thread_init, init_module, timer_init_once, timer_alloc, timer_dealloc, timer_addref, timer_delref,
  alloc_first,
}
use pc.Timer.Threads.{
  insert_timer, alloc_thread, thread_alloc, thread_dealloc, thread_start, find_in, find_matching,
  queue_timer,
}
use pc.Timer.Create.{
  create_bail, create_finish, create_on, find_or_alloc, create_attach, create_thread, create_switch,
  create_with, create_next, timer_create,
}
use pc.Timer.Settime.{
  timer_settime, read_old, enqueue, disarm, set_expiry, enqueue_armed, arm, settime_locked,
}
use pc.Timer.Delete.{delete_finish, delete_valid, delete_resume, timer_delete}
use pc.Timer.Service.{
  fires, thread_pass, pass_on, expire, requeue, next_period, catch_up, catch_up_fuel,
}
use pc.Timer.Spec.Oneshot.{AlwaysOneshot, fires_of, starts_of, Reach-fires_of}
use pc.Timer.Timespec.Clock.{earlier}
use pc.Timer.Timespec.{Itimerspec, timespec_add, timespec_sub, timespec_compare, ms2ts}
use pc.Base.Int.{pos, ◌+ℤ◌}
use pc.Timer.Api.{
  os_timer_add, os_timer_start, os_timer_stop, os_timer_del, add_created, add_next, thread_event,
}
use pc.Timer.Invariant.Reach.{Step, Reach, start, boot, adds, serves, next, starts}
use pc.Timer.Invariant.Servers.{Servers}
use pc.Timer.Spec.{table}
use pc.Timer.Spec.Change.{Change}
use pc.Timer.Spec.Plan.{FiresDue}
use pc.Timer.Timespec.Laws.{IsNormal}
use pc.Timer.Spec.Normal.{NormalClock}
use pc.Timer.Spec.Serves.{Serves}
use pc.Timer.Spec.Served.{Reach-Serves}
use pc.Timer.Spec.Limits.{os_timer_add-succeeds}
use pc.Timer.Spec.OnTime.{Reach-FiresDue}
use pc.Timer.Spec.Refines.{Runs, event, history, Step-Change, Reach-Servers, Reach-Runs}
use pc.Timer.Tests.{test_os, at, added, added-Inv, Reach-added}

added-Servers : Servers added
added-Servers = Reach-Servers Reach-added

-- A timer of another priority, for which no thread can be started.
abbrev no_thread : Os
no_thread = record test_os { spawn = none }

abbrev refused : State
refused = (os_timer_add no_thread added (pos 52) (pos 200) 4 1 8 true (at 6 0)).0

Reach-refused : Reach refused
Reach-refused = next Reach-added (adds no_thread (pos 52) (pos 200) 4 1 8 true (at 6 0))

Reach-Runs_example : Runs (history Reach-refused) (table refused)
Reach-Runs_example = Reach-Runs Reach-refused

-- Between the creation of a timer and its first setting, another thread adds a timer, for which no thread can be
-- started.
abbrev made_first : State
made_first =
    (timer_create test_os (timer_init_once test_os boot) monotonic
      (some (thread_event test_os (pos 50) 1 7))).0

abbrev made_second : State
made_second =
    (timer_create no_thread made_first monotonic (some (thread_event no_thread (pos 52) 1 8))).0

abbrev period : Itimerspec
period = record { it_interval = at 1 0; it_value = at 1 0 }

abbrev set_first : State
set_first = (timer_settime made_second (some 0) 4 period (at 6 0) false).0

abbrev restarted : State
restarted = (os_timer_start added (some 0) (at 7 0)).0

restarts : Step added restarted
restarts = starts 0 (at 7 0) (omega arith)

Step-Change_example : Servers restarted × Change (event restarts) (table added) (table restarted)
Step-Change_example = Step-Change restarts added-Inv added-Servers

-- A one-shot timer of 100 ms that is added at 5 s and fires at 6 s.
abbrev once : State
once =
    (os_timer_add test_os (timer_init_once test_os boot) (pos 50) (pos 100) 2 1 7 true (at 5 0)).0

abbrev Reach-once : Reach once
Reach-once = next (start test_os) (adds test_os (pos 50) (pos 100) 2 1 7 true (at 5 0))

abbrev fired_once : State
fired_once = elim (thread_pass once 0 (at 6 0)) [ fires s t call ↦ s | _ ↦ once ]

pass-once : thread_pass once 0 (at 6 0) ≡ fires fired_once 0 (some (1, 7))
unfolding ms2ts timespec_compare timespec_add timespec_sub unlink_timer thread_init init_module
    timer_init_once alloc_first timer_alloc timer_dealloc timer_addref timer_delref alloc_thread
    thread_alloc thread_dealloc thread_start find_in find_matching insert_timer queue_timer
    create_bail create_finish create_on find_or_alloc create_attach create_thread create_switch
    create_with create_next timer_create read_old enqueue disarm set_expiry enqueue_armed arm
    settime_locked timer_settime delete_finish delete_resume delete_valid timer_delete add_created
    add_next os_timer_add os_timer_del os_timer_start os_timer_stop count_up thread_pass pass_on
    expire requeue next_period catch_up catch_up_fuel ◌+ℤ◌
pass-once = refl

abbrev Reach-fired : Reach fired_once
Reach-fired = next Reach-once (serves 0 0 (at 6 0) (some (1, 7)) pass-once)

Reach-FiresDue_example : FiresDue (history Reach-fired)
Reach-FiresDue_example = Reach-FiresDue Reach-fired

always_oneshot : AlwaysOneshot 0 (history Reach-fired)
unfolding ms2ts timespec_compare timespec_add timespec_sub unlink_timer thread_init init_module
    timer_init_once alloc_first timer_alloc timer_dealloc timer_addref timer_delref alloc_thread
    thread_alloc thread_dealloc thread_start find_in find_matching insert_timer queue_timer
    create_bail create_finish create_on find_or_alloc create_attach create_thread create_switch
    create_with create_next timer_create read_old enqueue disarm set_expiry enqueue_armed arm
    settime_locked timer_settime delete_finish delete_resume delete_valid timer_delete add_created
    add_next os_timer_add os_timer_del os_timer_start os_timer_stop count_up history event
always_oneshot = (tt, ((λ e. refl), tt))

Reach-fires_of_example : fires_of 0 (history Reach-fired) ≤ starts_of 0 (history Reach-fired)
Reach-fires_of_example = Reach-fires_of 0 Reach-fired always_oneshot

-- A second timer of another priority.
added-timers : added.timer_free_list ≡ count_up 255 1
unfolding ms2ts timespec_compare timespec_add timespec_sub unlink_timer thread_init init_module
    timer_init_once alloc_first timer_alloc timer_dealloc timer_addref timer_delref alloc_thread
    thread_alloc thread_dealloc thread_start find_in find_matching insert_timer queue_timer
    create_bail create_finish create_on find_or_alloc create_attach create_thread create_switch
    create_with create_next timer_create read_old enqueue disarm set_expiry enqueue_armed arm
    settime_locked timer_settime delete_finish delete_resume delete_valid timer_delete add_created
    add_next os_timer_add os_timer_del os_timer_start os_timer_stop count_up
added-timers = refl

added-threads : added.thread_free_list ≡ count_up 15 1
unfolding ms2ts timespec_compare timespec_add timespec_sub unlink_timer thread_init init_module
    timer_init_once alloc_first timer_alloc timer_dealloc timer_addref timer_delref alloc_thread
    thread_alloc thread_dealloc thread_start find_in find_matching insert_timer queue_timer
    create_bail create_finish create_on find_or_alloc create_attach create_thread create_switch
    create_with create_next timer_create read_old enqueue disarm set_expiry enqueue_armed arm
    settime_locked timer_settime delete_finish delete_resume delete_valid timer_delete add_created
    add_next os_timer_add os_timer_del os_timer_start os_timer_stop count_up
added-threads = refl

added-works : added.init_failed ≡ false
unfolding ms2ts timespec_compare timespec_add timespec_sub unlink_timer thread_init init_module
    timer_init_once alloc_first timer_alloc timer_dealloc timer_addref timer_delref alloc_thread
    thread_alloc thread_dealloc thread_start find_in find_matching insert_timer queue_timer
    create_bail create_finish create_on find_or_alloc create_attach create_thread create_switch
    create_with create_next timer_create read_old enqueue disarm set_expiry enqueue_armed arm
    settime_locked timer_settime delete_finish delete_resume delete_valid timer_delete add_created
    add_next os_timer_add os_timer_del os_timer_start os_timer_stop count_up
added-works = refl

first_of_timers : count_up 255 1 ≡ 1 ∷ count_up 254 2
unfolding count_up
first_of_timers = refl

first_of_threads : count_up 15 1 ≡ 1 ∷ count_up 14 2
unfolding count_up
first_of_threads = refl

os_timer_add-succeeds_example :
    (os_timer_add test_os added (pos 52) (pos 200) 4 1 8 true (at 6 0)).1 ≡ some 1
os_timer_add-succeeds_example =
    os_timer_add-succeeds test_os added (pos 52) (pos 200) 4 1 8 1 1 9 (count_up 254 2)
      (count_up 14 2) (at 6 0) added-Inv added-Servers refl refl added-works
      (added-timers ∙ first_of_timers) (added-threads ∙ first_of_threads) refl

five-IsNormal : IsNormal (at 5 0)
five-IsNormal = record { nonneg = omega arith; below = omega arith }

six-IsNormal : IsNormal (at 6 0)
six-IsNormal = record { nonneg = omega arith; below = omega arith }

once-clock : NormalClock (history Reach-once)
unfolding history event
once-clock = (five-IsNormal, tt)

once-waits : mem 0 (once.thread 0).timer_queue ≡ true
unfolding ms2ts timespec_compare timespec_add timespec_sub unlink_timer thread_init init_module
    timer_init_once alloc_first timer_alloc timer_dealloc timer_addref timer_delref alloc_thread
    thread_alloc thread_dealloc thread_start find_in find_matching insert_timer queue_timer
    create_bail create_finish create_on find_or_alloc create_attach create_thread create_switch
    create_with create_next timer_create read_old enqueue disarm set_expiry enqueue_armed arm
    settime_locked timer_settime delete_finish delete_resume delete_valid timer_delete add_created
    add_next os_timer_add os_timer_del os_timer_start os_timer_stop count_up
once-waits = refl

once-due : earlier (at 6 0) (once.timer 0).expirytime ≡ false
unfolding earlier ms2ts timespec_compare timespec_add timespec_sub unlink_timer thread_init
    init_module timer_init_once alloc_first timer_alloc timer_dealloc timer_addref timer_delref
    alloc_thread thread_alloc thread_dealloc thread_start find_in find_matching insert_timer
    queue_timer create_bail create_finish create_on find_or_alloc create_attach create_thread
    create_switch create_with create_next timer_create read_old enqueue disarm set_expiry
    enqueue_armed arm settime_locked timer_settime delete_finish delete_resume delete_valid
    timer_delete add_created add_next os_timer_add os_timer_del os_timer_start os_timer_stop
    count_up ◌+ℤ◌
once-due = refl

Reach-Serves_example : Serves once 0 (at 6 0) (thread_pass once 0 (at 6 0))
Reach-Serves_example =
    Reach-Serves Reach-once 0 0 (at 6 0) once-clock six-IsNormal once-waits once-due
