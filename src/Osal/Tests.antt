-- ===== src/Osal/Tests.antt =====
-- The adapter layer at work, with a system that is written out.
use pc.Base.{
  ◌+◌, ◌*◌, ◌<◌, ◌≡◌, ◌≢◌, ◌⊎◌, inl, inr, refl, arith, if◌then◌else◌, true, false, not, ◌&&◌, some,
  [], ◌∷◌,
}
use pc.Base.Int.{pos, negsuc}
use pc.Timer.State.{is_zero}
use pc.Osal.Status.{timeout}
use pc.Osal.Deadline.{Timeval, millisec_2_timespec, total_ns, millisec_2_timespec_lem}
use pc.Base.Int.{pos_part}
use pc.Osal.Sem.{SemOs, osal_sem_take, osal_sem_take-ne-timeout}
use pc.Osal.Mutex
use pc.Osal.Thread

abbrev noon : Timeval
noon = record { sec = 43200; usec = 999999 }

millisec_2_timespec_lem_example :
    (total_ns (millisec_2_timespec 1500 noon) ≡ 43200 * 1000000000 + 999999 * 1000 + 1500 * 1000000)
    × (pos_part (millisec_2_timespec 1500 noon).nsec < 1000000000)
millisec_2_timespec_lem_example = millisec_2_timespec_lem 1500 noon (omega arith)

-- A semaphore that stays at 0: a wait is interrupted once, then runs out.
abbrev at_zero : SemOs
at_zero = record {
  trywait = negsuc 0;
  wait = pos 0;
  timedwait = λ _. (negsuc 0, true) ∷ (negsuc 0, false) ∷ [];
  now = noon;
}

osal_sem_take-ne-timeout_example : osal_sem_take at_zero false (pos 20) ≢ some timeout
osal_sem_take-ne-timeout_example = osal_sem_take-ne-timeout at_zero false (pos 20) (record {
  trywait_result = inr refl;
  wait_result = inl refl;
  timedwait_results = λ _. (inr refl, (inr refl, tt));
})

-- The type of the mutex cannot be set.
abbrev no_type : Mutex.MutexOs
no_type = record {
  memory = true;
  attr_init_ret = pos 0;
  setpshared_ret = pos 0;
  settype_ret = pos 22;
  init_ret = pos 0;
}

osal_mutex_create-balanced_example :
    ((Mutex.osal_mutex_create no_type).0 ≡ (
      no_type.memory
      && (is_zero no_type.attr_init_ret
          && (is_zero no_type.setpshared_ret
              && (is_zero no_type.settype_ret && is_zero no_type.init_ret)))))
    × ((Mutex.destroys (Mutex.osal_mutex_create no_type).1
          ≡ Mutex.one_if (no_type.memory && is_zero no_type.attr_init_ret))
        × (Mutex.frees (Mutex.osal_mutex_create no_type).1
            ≡ Mutex.one_if (no_type.memory && not (Mutex.osal_mutex_create no_type).0)))
osal_mutex_create-balanced_example = Mutex.osal_mutex_create-balanced no_type

-- No thread can be created.
abbrev no_thread : Thread.ThreadOs
no_thread = record {
  stack_min = 16384;
  attr_init_ret = pos 0;
  stacksize_ret = pos 0;
  detachstate_ret = pos 0;
  inheritsched_ret = pos 0;
  schedpolicy_ret = pos 0;
  schedparam_ret = pos 0;
  memory = true;
  name_memory = true;
  create_ret = pos 11;
}

os_pthread_create-calls_example :
    let made = Thread.os_pthread_create no_thread true (pos 10) (pos 2048) in
    ((made.0 ≡ pos 0) ⊎ (made.0 ≡ negsuc 0))
    × ((Thread.destroys made.1
          ≡ (if is_zero no_thread.attr_init_ret && not (is_zero made.0) then 1 else 0))
        × ((Thread.frees made.1 ≡ (if is_zero made.0 then 0 else Thread.creates made.1))
            × Thread.StacksFit no_thread.stack_min made.1))
os_pthread_create-calls_example = Thread.os_pthread_create-calls no_thread true (pos 10) (pos 2048)

thread-fails : (Thread.os_pthread_create no_thread true (pos 10) (pos 2048)).0 ≢ pos 0
unfolding Thread.os_pthread_create
thread-fails = λ e. ground arith
