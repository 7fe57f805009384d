-- ===== src/Osal.antt =====
-- The adapter layer of osal/ with what it calls of osal/linux/os_core.c and osal/linux/os_pthread.c, a file for
-- each kind of object.
mod Tests
pub mod Clock
pub mod Status
pub mod Deadline
pub mod Sem
pub mod Mutex
pub mod Spinlock
pub mod Sleep
pub mod Thread
pub mod Queue
pub mod Timers
pub mod Debug
