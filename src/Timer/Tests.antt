-- ===== src/Timer/Tests.antt =====
-- The timer module at work: one timer, added, started, stopped and deleted.
use pc.Base.{
  ℕ, ◌≡◌, ◌==◌, ◌<◌, refl, arith, if◌then◌else◌, true, false, some, List, [], ◌∷◌, update, remove,
  mem, false, count_up,
}
use pc.Base.Int.{pos, negsuc, ltb_ℤ, ◌+ℤ◌, ◌-ℤ◌}
use pc.Timer.Timespec.Clock.{ms2ts_eq, millis, plus, earlier}
use pc.Timer.Timespec.{
  zero_timespec, Timespec, Itimerspec, timespec_add, timespec_sub, timespec_compare, ms2ts,
  is_before,
}
use pc.Timer.Timespec.Laws.{to_ns, IsNormal}
use pc.Timer.State.{State, Os, in_use, deleted, unlink_timer}
use pc.Timer.Pool.{
  thread_init, init_module, timer_init_once, timer_alloc, timer_dealloc, timer_addref, timer_delref,
  alloc_first,
}
use pc.Timer.Threads.{
  insert_timer, alloc_thread, thread_alloc, thread_dealloc, thread_start, find_in, find_matching,
  queue_timer,
}
use pc.Timer.Create.{
  create_bail, create_finish, create_on, find_or_alloc, create_attach, create_thread, create_switch,
  create_with, create_next, timer_create,
}
use pc.Timer.Settime.{
  timer_settime, read_old, enqueue, disarm, set_expiry, enqueue_armed, arm, settime_locked,
}
use pc.Timer.Gettime.{timer_gettime}
use pc.Timer.Delete.{returns, delete_finish, delete_valid, delete_resume, timer_delete}
use pc.Timer.Api.{
  os_timer_add, os_timer_start, os_timer_stop, os_timer_del, timer_oneshot, add_created, add_next,
}
use pc.Timer.Invariant.{Inv}
use pc.Timer.Invariant.Reach.{Reach, adds, start, next, boot, Reach-Inv}
use pc.Timer.Service.{next_period}
use pc.Timer.Period.{CaughtUp, next_period_total}
use pc.Timer.Order.{Sorted}
use pc.Timer.Behaviour.{expiries, expiry_after, timer_settime-arms}
use pc.Timer.Behaviour.Calls.{os_timer_start-arms, os_timer_stop-disarms}
use pc.Timer.Behaviour.Twice.{delete_resume-twice}
use pc.Timer.Order.Stable.{queue_all}
use pc.Timer.Order.Picked.{pick_all, queue_all-pick_all}
use pc.Timer.Behaviour.Left.{timer_gettime-timer_settime}

abbrev pub test_os : Os
test_os = record {
  self = 1;
  pid = 40;
  default_attr = record { policy = 0; priority = pos 0 };
  attr_of = λ prio. record { policy = 2; priority = prio };
  spawn = some 9;
}

abbrev pub at : ℕ → ℕ → Timespec
at sec nsec = record { sec = pos sec; nsec = pos nsec }

-- A periodic timer of 100 ms, in the free state.
abbrev pub added : State
added =
    (os_timer_add test_os (timer_init_once test_os boot) (pos 50) (pos 100) 12 1 7 true (at 5 0)).0

pub Reach-added : Reach added
Reach-added = next (start test_os) (adds test_os (pos 50) (pos 100) 12 1 7 true (at 5 0))

pub added-in_use : (added.timer 0).inuse ≡ in_use
unfolding ms2ts timespec_compare timespec_add timespec_sub unlink_timer thread_init init_module
    timer_init_once alloc_first timer_alloc timer_dealloc timer_addref timer_delref alloc_thread
    thread_alloc thread_dealloc thread_start find_in find_matching insert_timer queue_timer
    create_bail create_finish create_on find_or_alloc create_attach create_thread create_switch
    create_with create_next timer_create read_old enqueue disarm set_expiry enqueue_armed arm
    settime_locked timer_settime delete_finish delete_resume delete_valid timer_delete add_created
    add_next os_timer_add os_timer_del os_timer_start os_timer_stop count_up
added-in_use = refl

pub added-thread : (added.timer 0).thread ≡ some 0
unfolding ms2ts timespec_compare timespec_add timespec_sub unlink_timer thread_init init_module
    timer_init_once alloc_first timer_alloc timer_dealloc timer_addref timer_delref alloc_thread
    thread_alloc thread_dealloc thread_start find_in find_matching insert_timer queue_timer
    create_bail create_finish create_on find_or_alloc create_attach create_thread create_switch
    create_with create_next timer_create read_old enqueue disarm set_expiry enqueue_armed arm
    settime_locked timer_settime delete_finish delete_resume delete_valid timer_delete add_created
    add_next os_timer_add os_timer_del os_timer_start os_timer_stop count_up
added-thread = refl

pub added-Inv : Inv added
added-Inv = Reach-Inv Reach-added

-- Every 100 ms, the first time after 30 ms.
abbrev value : Itimerspec
value = record { it_interval = at 0 100000000; it_value = at 0 30000000 }

timer_settime-arms_example :
    let r = timer_settime added (some 0) 0 value (at 6 990000000) false in
    let put =
      insert_timer
        (expiry_after added 0 0 value (at 6 990000000))
        0
        true
        (remove 0 (added.thread 0).timer_queue) in
    (((r.1 ≡ true) × ((r.0.timer 0).armed ≡ true)) × ((r.0.timer 0).value ≡ value))
    × ((expiries r.0 ≡ expiry_after added 0 0 value (at 6 990000000))
        × (((r.0.thread 0).timer_queue ≡ put.0)
            × (r.0.broadcasts ≡ (if put.1 then 0 ∷ added.broadcasts else added.broadcasts))))
timer_settime-arms_example =
    timer_settime-arms added 0 0 0 value (at 6 990000000) added-Inv added-in_use added-thread refl
      refl

added-positive : ltb_ℤ (pos 0) (added.timer 0).millisec ≡ true
unfolding ms2ts timespec_compare timespec_add timespec_sub unlink_timer thread_init init_module
    timer_init_once alloc_first timer_alloc timer_dealloc timer_addref timer_delref alloc_thread
    thread_alloc thread_dealloc thread_start find_in find_matching insert_timer queue_timer
    create_bail create_finish create_on find_or_alloc create_attach create_thread create_switch
    create_with create_next timer_create read_old enqueue disarm set_expiry enqueue_armed arm
    settime_locked timer_settime delete_finish delete_resume delete_valid timer_delete add_created
    add_next os_timer_add os_timer_del os_timer_start os_timer_stop count_up
added-positive = refl

os_timer_start-arms_example :
    let r = os_timer_start added (some 0) (at 7 0) in
    let after = update (expiries added) 0 (plus (at 7 0) (millis (added.timer 0).millisec)) in
    let put = insert_timer after 0 true (remove 0 (added.thread 0).timer_queue) in
    (((r.1 ≡ true) × ((r.0.timer 0).armed ≡ true))
      × ((r.0.timer 0).value ≡ record {
        it_value = millis (added.timer 0).millisec;
        it_interval =
            if (added.timer 0).type == timer_oneshot
            then zero_timespec
            else millis (added.timer 0).millisec;
      }))
    × ((expiries r.0 ≡ after)
        × (((r.0.thread 0).timer_queue ≡ put.0)
            × (r.0.broadcasts ≡ (if put.1 then 0 ∷ added.broadcasts else added.broadcasts))))
os_timer_start-arms_example =
    os_timer_start-arms added 0 0 (at 7 0) added-Inv added-in_use added-thread added-positive

os_timer_stop-disarms_example :
    let r = os_timer_stop added (some 0) (at 7 0) in
    ((r.1 ≡ true) × ((r.0.timer 0).armed ≡ false))
    × ((k : ℕ) → (r.0.thread k).timer_queue ≡ remove 0 (added.thread k).timer_queue)
os_timer_stop-disarms_example = os_timer_stop-disarms added 0 (at 7 0) added-Inv added-in_use

deletes-added : os_timer_del added 1 (some 0) ≡ returns (delete_finish added 0) true
unfolding ms2ts timespec_compare timespec_add timespec_sub unlink_timer thread_init init_module
    timer_init_once alloc_first timer_alloc timer_dealloc timer_addref timer_delref alloc_thread
    thread_alloc thread_dealloc thread_start find_in find_matching insert_timer queue_timer
    create_bail create_finish create_on find_or_alloc create_attach create_thread create_switch
    create_with create_next timer_create read_old enqueue disarm set_expiry enqueue_armed arm
    settime_locked timer_settime delete_finish delete_resume delete_valid timer_delete add_created
    add_next os_timer_add os_timer_del os_timer_start os_timer_stop count_up
deletes-added = refl

due_later : is_before (at 7 5000000) (timespec_add (at 6 990000000) value.it_value) ≡ true
unfolding timespec_add timespec_compare ◌+ℤ◌ ◌-ℤ◌
due_later = refl

timer_gettime-timer_settime_example :
    let u = (timer_settime added (some 0) 0 value (at 6 990000000) false).0 in
    (left : Timespec) × ((timer_gettime u (some 0) (at 7 5000000)
        ≡ (u, some (record { it_interval = value.it_interval; it_value = left })))
      × (to_ns left ≡ (to_ns (at 6 990000000) +ℤ to_ns value.it_value) -ℤ to_ns (at 7 5000000)))
timer_gettime-timer_settime_example =
    timer_gettime-timer_settime added 0 0 value (at 6 990000000) (at 7 5000000) added-Inv
      added-in_use added-thread refl refl due_later

abbrev small : (sec nsec : ℕ) → nsec < 1000000000 → IsNormal (at sec nsec)
small sec nsec h = record { nonneg = omega arith; below = omega arith }

period-positive : ltb_ℤ (pos 0) (to_ns (at 0 300000000)) ≡ true
unfolding to_ns
period-positive = refl

next_period_total_example :
    (r : Timespec × ℕ) × (next_period (at 6 0) (at 0 300000000) (at 5 0) ≡ some r)
    × CaughtUp (at 6 0) (at 0 300000000) (plus (at 5 0) (at 0 300000000)) 0 r
next_period_total_example =
    next_period_total (at 6 0) (at 0 300000000) (at 5 0) (small 6 0 (omega arith))
      (small 0 300000000 (omega arith)) (small 5 0 (omega arith)) period-positive

-- Three timers in a queue, due at 1, 3 and 3 seconds; the fourth is new.
abbrev times : ℕ → Timespec
times = update (update (update (λ _. at 3 0) 0 (at 1 0)) 3 (at 2 500)) 4 (at 0 1)

abbrev waiting : List ℕ
waiting = 0 ∷ 1 ∷ 2 ∷ []

waiting-Sorted : Sorted times waiting
unfolding earlier
waiting-Sorted = ground arith

resumes-added : delete_resume added 1 0 0 ≡ returns (delete_finish added 0) true
unfolding ms2ts timespec_compare timespec_add timespec_sub unlink_timer thread_init init_module
    timer_init_once alloc_first timer_alloc timer_dealloc timer_addref timer_delref alloc_thread
    thread_alloc thread_dealloc thread_start find_in find_matching insert_timer queue_timer
    create_bail create_finish create_on find_or_alloc create_attach create_thread create_switch
    create_with create_next timer_create read_old enqueue disarm set_expiry enqueue_armed arm
    settime_locked timer_settime delete_finish delete_resume delete_valid timer_delete add_created
    add_next os_timer_add os_timer_del os_timer_start os_timer_stop count_up
resumes-added = refl

resumes-deleted :
    delete_resume (delete_finish added 0) 2 0 0
    ≡ returns (delete_finish (delete_finish added 0) 0) true
unfolding ms2ts timespec_compare timespec_add timespec_sub unlink_timer thread_init init_module
    timer_init_once alloc_first timer_alloc timer_dealloc timer_addref timer_delref alloc_thread
    thread_alloc thread_dealloc thread_start find_in find_matching insert_timer queue_timer
    create_bail create_finish create_on find_or_alloc create_attach create_thread create_switch
    create_with create_next timer_create read_old enqueue disarm set_expiry enqueue_armed arm
    settime_locked timer_settime delete_finish delete_resume delete_valid timer_delete add_created
    add_next os_timer_add os_timer_del os_timer_start os_timer_stop count_up
resumes-deleted = refl

delete_resume-twice_example :
    let v = delete_finish (delete_finish added 0) 0 in
    ((v.timer 0).inuse ≡ deleted)
    × (((v.timer 0).refcount ≡ negsuc 0) × ((mem 0 v.timer_free_list ≡ false) × ¬ Inv v))
delete_resume-twice_example =
    delete_resume-twice added (delete_finish added 0) (delete_finish (delete_finish added 0) 0) 0 0
      1 2 added-Inv added-in_use resumes-added resumes-deleted

queue_all-pick_all_example :
    queue_all times [] (3 ∷ 1 ∷ 2 ∷ 0 ∷ []) ≡ pick_all times 4 (3 ∷ 1 ∷ 2 ∷ 0 ∷ [])
queue_all-pick_all_example = queue_all-pick_all times (3 ∷ 1 ∷ 2 ∷ 0 ∷ [])

ms2ts_eq_example : ms2ts (pos 1500) ≡ millis (pos 1500)
ms2ts_eq_example = ms2ts_eq (pos 1500)
