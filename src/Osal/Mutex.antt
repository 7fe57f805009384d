-- ===== src/Osal/Mutex.antt =====
-- Mutexes: `os_mutex_*` of osal/linux/os_core.c and osal/osal_mutex.c. What the system's functions return
-- (0, or an error number) is an argument; the calls made are listed in order.
use pc.Base.{
  ℕ, ◌≡◌, ◌+◌, arith, if◌then◌else◌, Bool, true, false, not, ◌&&◌, Option, some, none, List, [],
  ◌∷◌, ◌++◌,
}
use pc.Base.Int.{ℤ, pos, negsuc}
use pc.Timer.State.{is_zero}
use pc.Osal.Status.{OsalStatus, empty, of_ret}

pub data Call : Type 0 where
  malloc : Call
  attr_init : Call
  attr_setpshared : Call
  -- PTHREAD_MUTEX_RECURSIVE
  attr_settype : Call
  mutex_init : Call
  attr_destroy : Call
  mutex_destroy : Call
  free_block : Call

-- What the system returns to each call.
pub record MutexOs : Type 0 where
  pub memory : Bool
  pub attr_init_ret : ℤ
  pub setpshared_ret : ℤ
  pub settype_ret : ℤ
  pub init_ret : ℤ

unfoldable pub os_mutex_create : MutexOs → Bool → ℤ × List Call
os_mutex_create os is_null =
    if is_null
    then (negsuc 0, [])
    else if not (is_zero os.attr_init_ret)
    then (negsuc 0, attr_init ∷ [])
    else if not (is_zero os.setpshared_ret)
    then (os.setpshared_ret, attr_init ∷ attr_setpshared ∷ attr_destroy ∷ [])
    else if not (is_zero os.settype_ret)
    then (os.settype_ret, attr_init ∷ attr_setpshared ∷ attr_settype ∷ attr_destroy ∷ [])
    else (os.init_ret, attr_init ∷ attr_setpshared ∷ attr_settype ∷ mutex_init ∷ attr_destroy ∷ [])

-- `os_mutex_lock`, `os_mutex_unlock` and `os_mutex_destroy` return what the system returns.
unfoldable pub os_mutex_lock : ℤ → ℤ
os_mutex_lock ret = ret

unfoldable pub os_mutex_unlock : ℤ → ℤ
os_mutex_unlock ret = ret

unfoldable pub os_mutex_destroy : ℤ → ℤ
os_mutex_destroy ret = ret

unfoldable pub os_mutex_trylock : Bool → ℤ → ℤ
os_mutex_trylock is_null ret = if is_null then pos 0 else ret

-- `osal_mutex_create`: whether a mutex is handed out, and the calls.
unfoldable pub osal_mutex_create : MutexOs → Bool × List Call
unfolding os_mutex_create
osal_mutex_create os =
    let created = os_mutex_create os false in
    if not os.memory
    then (false, malloc ∷ [])
    else if is_zero created.0
    then (true, malloc ∷ created.1)
    else (false, malloc ∷ created.1 ++ free_block ∷ [])

-- `osal_mutex_delete`; `none`: `ret` is returned without a value
unfoldable pub osal_mutex_delete : Bool → ℤ → Option OsalStatus × List Call
unfolding os_mutex_destroy
osal_mutex_delete is_null ret =
    if is_null
    then (none, [])
    else (some (of_ret (os_mutex_destroy ret)), mutex_destroy ∷ free_block ∷ [])

unfoldable pub osal_mutex_lock : Bool → ℤ → OsalStatus
unfolding os_mutex_lock
osal_mutex_lock is_null ret = if is_null then empty else of_ret (os_mutex_lock ret)

unfoldable pub osal_mutex_unlock : Bool → ℤ → OsalStatus
unfolding os_mutex_unlock
osal_mutex_unlock is_null ret = if is_null then empty else of_ret (os_mutex_unlock ret)

unfoldable pub osal_mutex_trylock : Bool → ℤ → OsalStatus
unfolding os_mutex_trylock
osal_mutex_trylock is_null ret = if is_null then empty else of_ret (os_mutex_trylock false ret)

-- How often a call is made: the attributes are made and destroyed, the block is taken and given back.
abbrev pub destroys : List Call → ℕ
destroys [] = 0
destroys (attr_destroy ∷ cs) = 1 + destroys cs
destroys (_ ∷ cs) = destroys cs

abbrev pub frees : List Call → ℕ
frees [] = 0
frees (free_block ∷ cs) = 1 + frees cs
frees (_ ∷ cs) = frees cs

abbrev pub one_if : Bool → ℕ
one_if b = if b then 1 else 0

-- A mutex is handed out exactly when memory is there and each of the four calls returns 0; the
-- attributes are destroyed once if they were initialised, and never otherwise; and the block is given
-- back once if it was taken and no mutex is handed out, and never otherwise.
pub osal_mutex_create-balanced :
    (os : MutexOs)
    → ((osal_mutex_create os).0 ≡ (
        os.memory
        && (is_zero os.attr_init_ret
            && (is_zero os.setpshared_ret && (is_zero os.settype_ret && is_zero os.init_ret)))))
      × ((destroys (osal_mutex_create os).1 ≡ one_if (os.memory && is_zero os.attr_init_ret))
          × (frees (osal_mutex_create os).1 ≡ one_if (os.memory && not (osal_mutex_create os).0)))
unfolding osal_mutex_create os_mutex_create
osal_mutex_create-balanced os = ground arith
