-- ===== src/Osal/Thread.antt =====
-- Threads: `pthread_create_internel`, `os_pthread_create` and `os_pthread_create_joinable` of
-- osal/linux/os_pthread.c, and osal/osal_thread.c. What the system's functions return is an argument; the
-- calls made are listed in order.
mod Tests
pub mod Naming
pub mod Wrapper
use pc.Base.{
  ℕ, ◌≢◌, ◌⊎◌, ◌≡◌, ◌≤◌, ◌+◌, ◌-◌, arith, if◌then◌else◌, Bool, true, false, not, ◌&&◌, List, [],
  ◌∷◌, ◌++◌,
}
use pc.Base.Int.{ℤ, pos, negsuc, ltb_ℤ, pos_part}
use pc.Timer.State.{is_zero}
use pc.Osal.Status.{OsalStatus, success}

pub data Call : Type 0 where
  attr_init : Call
  setstacksize : ℕ → Call
  -- whether the thread is detached
  setdetachstate : Bool → Call
  -- PTHREAD_EXPLICIT_SCHED
  setinheritsched : Call
  -- SCHED_RR
  setschedpolicy : Call
  setschedparam : ℤ → Call
  malloc_info : Call
  strdup_name : Call
  create : Call
  attr_destroy : Call
  free_name : Call
  free_info : Call

-- What the system returns to each call; `memory` and `name_memory` are whether `malloc` and `strdup`
-- succeed. `stack_min` is PTHREAD_STACK_MIN.
pub record ThreadOs : Type 0 where
  pub stack_min : ℕ
  pub attr_init_ret : ℤ
  pub stacksize_ret : ℤ
  pub detachstate_ret : ℤ
  pub inheritsched_ret : ℤ
  pub schedpolicy_ret : ℤ
  pub schedparam_ret : ℤ
  pub memory : Bool
  pub name_memory : Bool
  pub create_ret : ℤ

-- `local_stack_size`
abbrev pub local_stack_size : ThreadOs → ℤ → ℕ
local_stack_size os stack_size =
    if ltb_ℤ stack_size (pos os.stack_min) then os.stack_min else pos_part stack_size

abbrev pub free_thread_info : Bool → List Call
free_thread_info has_name = if has_name then free_name ∷ free_info ∷ [] else free_info ∷ []

-- From `malloc` of the information on
unfoldable pub create_thread : ThreadOs → Bool → ℤ × List Call
create_thread os has_name =
    let dup = if has_name then strdup_name ∷ [] else [] in
    if not os.memory
    then (negsuc 0, malloc_info ∷ attr_destroy ∷ [])
    else if is_zero os.create_ret
    then (pos 0, malloc_info ∷ dup ++ create ∷ [])
    else (
      negsuc 0,
      malloc_info ∷ dup ++ create ∷ attr_destroy ∷ free_thread_info (has_name && os.name_memory),
    )

-- From `pthread_attr_setdetachstate` on: the settings of the attributes, up to the first that fails
unfoldable pub set_attributes : ThreadOs → Bool → ℤ → Bool → ℤ × List Call
unfolding create_thread
set_attributes os detached prio has_name =
    let created = create_thread os has_name in
    if not (is_zero os.detachstate_ret)
    then (negsuc 0, setdetachstate detached ∷ attr_destroy ∷ [])
    else if not (is_zero os.inheritsched_ret)
    then (negsuc 0, setdetachstate detached ∷ setinheritsched ∷ attr_destroy ∷ [])
    else if not (is_zero os.schedpolicy_ret)
    then (negsuc 0, setdetachstate detached ∷ setinheritsched ∷ setschedpolicy ∷ attr_destroy ∷ [])
    else if not (is_zero os.schedparam_ret)
    then (
      negsuc 0,
      setdetachstate detached
          ∷ setinheritsched
          ∷ setschedpolicy
          ∷ setschedparam prio
          ∷ attr_destroy
          ∷ [],
    )
    else (
      created.0,
      setdetachstate detached ∷ setinheritsched ∷ setschedpolicy ∷ setschedparam prio ∷ created.1,
    )

-- `pthread_create_internel`
unfoldable pub pthread_create_internel : ThreadOs → Bool → ℤ → Bool → ℤ → ℤ × List Call
unfolding set_attributes
pthread_create_internel os has_name prio detached stack_size =
    let size = local_stack_size os stack_size in
    let set = set_attributes os detached prio has_name in
    if not (is_zero os.attr_init_ret)
    then (negsuc 0, attr_init ∷ [])
    else if is_zero stack_size
    then (set.0, attr_init ∷ set.1)
    else if not (is_zero os.stacksize_ret)
    then (negsuc 0, attr_init ∷ setstacksize size ∷ attr_destroy ∷ [])
    else (set.0, attr_init ∷ setstacksize size ∷ set.1)

unfoldable pub os_pthread_create : ThreadOs → Bool → ℤ → ℤ → ℤ × List Call
unfolding pthread_create_internel
os_pthread_create os has_name prio stack_size =
    pthread_create_internel os has_name prio true stack_size

unfoldable pub os_pthread_create_joinable : ThreadOs → Bool → ℤ → ℤ → ℤ × List Call
unfolding pthread_create_internel
os_pthread_create_joinable os has_name prio stack_size =
    pthread_create_internel os has_name prio false stack_size

-- A task: whether one is handed out, and the blocks for tasks that are taken and not given back.
-- `block` is whether `malloc` of the task succeeds.
unfoldable pub osal_task_create : ThreadOs → Bool → Bool → ℤ → ℤ → Bool × ℕ
unfolding os_pthread_create
osal_task_create os block has_name stack_size prio =
    let created = os_pthread_create os has_name prio stack_size in
    if not block then (false, 0) else if is_zero created.0 then (true, 1) else (false, 1)

unfoldable pub osal_task_create_joinable : ThreadOs → Bool → Bool → ℤ → ℤ → Bool × ℕ
unfolding os_pthread_create_joinable
osal_task_create_joinable os block has_name prio stack_size =
    let created = os_pthread_create_joinable os has_name prio stack_size in
    if not block then (false, 0) else if is_zero created.0 then (true, 1) else (false, 1)

-- `osal_task_del` of a task that was handed out: the blocks that are left of those there were
unfoldable pub osal_task_del : ℕ → OsalStatus × ℕ
osal_task_del blocks = (success, blocks - 1)

abbrev pub destroys : List Call → ℕ
destroys [] = 0
destroys (attr_destroy ∷ cs) = 1 + destroys cs
destroys (_ ∷ cs) = destroys cs

-- The blocks of information that are taken, and those that are given back.
abbrev pub creates : List Call → ℕ
creates [] = 0
creates (create ∷ cs) = 1 + creates cs
creates (_ ∷ cs) = creates cs

abbrev pub frees : List Call → ℕ
frees [] = 0
frees (free_info ∷ cs) = 1 + frees cs
frees (_ ∷ cs) = frees cs

-- Every stack size that is set is at least the system's least.
abbrev pub StacksFit : ℕ → List Call → Type 0
StacksFit m [] = Unit {0}
StacksFit m (setstacksize n ∷ cs) = (m ≤ n) × StacksFit m cs
StacksFit m (_ ∷ cs) = StacksFit m cs

create_thread-calls :
    (os : ThreadOs) (has_name : Bool)
    → (destroys (create_thread os has_name).1
        ≡ (if is_zero (create_thread os has_name).0 then 0 else 1))
      × ((frees (create_thread os has_name).1
            ≡ (if os.memory && not (is_zero os.create_ret) then 1 else 0))
          × (creates (create_thread os has_name).1 ≡ (if os.memory then 1 else 0)))
unfolding create_thread
create_thread-calls os has_name = ground arith

set_attributes-calls :
    (os : ThreadOs) (has_name detached : Bool) (prio : ℤ)
    → (destroys (set_attributes os detached prio has_name).1
        ≡ (if is_zero (set_attributes os detached prio has_name).0 then 0 else 1))
      × ((frees (set_attributes os detached prio has_name).1 ≡ (
            if is_zero (set_attributes os detached prio has_name).0
            then 0
            else creates (set_attributes os detached prio has_name).1))
          × StacksFit os.stack_min (set_attributes os detached prio has_name).1)
unfolding set_attributes create_thread
set_attributes-calls os has_name detached prio = ground (arith, create_thread-calls os has_name)

-- Creating a thread returns 0 or -1; the attributes are destroyed, once, exactly when they were
-- initialised and the call fails; on failure the information for the new thread is given back as often
-- as pthread_create was called, and on success it is not given back; and no stack size is set that is
-- under the system's least.
pub os_pthread_create-calls :
    (os : ThreadOs) (has_name : Bool) (prio stack_size : ℤ)
    → let made = os_pthread_create os has_name prio stack_size in
      ((made.0 ≡ pos 0) ⊎ (made.0 ≡ negsuc 0))
      × ((destroys made.1 ≡ (if is_zero os.attr_init_ret && not (is_zero made.0) then 1 else 0))
          × ((frees made.1 ≡ (if is_zero made.0 then 0 else creates made.1))
              × StacksFit os.stack_min made.1))
unfolding os_pthread_create pthread_create_internel
os_pthread_create-calls os has_name prio stack_size =
    ground (arith, set_attributes-calls os has_name true prio)

-- A task whose block is there but whose thread cannot be created is not handed out, and its block stays
-- taken.
pub osal_task_create-leaks :
    (os : ThreadOs) (has_name : Bool) (stack_size prio : ℤ)
    → (os_pthread_create os has_name prio stack_size).0 ≢ pos 0
    → osal_task_create os true has_name stack_size prio ≡ (false, 1)
unfolding osal_task_create
osal_task_create-leaks os has_name stack_size prio h = ground arith
