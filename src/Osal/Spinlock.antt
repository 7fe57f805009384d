-- ===== src/Osal/Spinlock.antt =====
-- Spinlocks: `os_spinlock_*` of osal/linux/os_core.c and osal/osal_spinlock.c. What the system's functions
-- return is an argument.
use pc.Base.{if◌then◌else◌, Bool}
use pc.Base.Int.{ℤ, pos, negsuc}
use pc.Timer.State.{is_zero}

unfoldable pub os_spinlock_init : ℤ → ℤ
os_spinlock_init ret = ret

unfoldable pub os_spinlock_lock : ℤ → ℤ
os_spinlock_lock ret = ret

unfoldable pub os_spinlock_trylock : Bool → ℤ → ℤ
os_spinlock_trylock is_null ret = if is_null then negsuc 0 else ret

unfoldable pub os_spinlock_unlock : ℤ → ℤ
os_spinlock_unlock ret = ret

unfoldable pub os_spinlock_destroy : ℤ → ℤ
os_spinlock_destroy ret = ret

-- `osal_spinlock_init`: `word` is the lock's value after the system's initialisation, whose result is not
-- looked at. `OSAL_ERROR` is 1.
unfoldable pub osal_spinlock_init : ℤ → ℤ → ℤ
osal_spinlock_init ret word = if is_zero word then pos 1 else pos 0

unfoldable pub osal_spin_lock : ℤ → ℤ
osal_spin_lock ret = pos 0

unfoldable pub osal_spin_unlock : ℤ → ℤ
osal_spin_unlock ret = pos 0

unfoldable pub osal_spinlock_destroy : ℤ → ℤ
osal_spinlock_destroy ret = pos 0
