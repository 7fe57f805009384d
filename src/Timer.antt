-- ===== src/Timer.antt =====
-- The library of per-process timers, osal/linux/os_timer.c: the state and the functions of the module, and what
-- is shown of them.
pub mod Tests
pub mod Timespec
pub mod Links
pub mod State
pub mod Pool
pub mod Threads
pub mod Create
pub mod Delete
pub mod Settime
pub mod Service
pub mod Api
pub mod Gettime
pub mod Order
pub mod Invariant
pub mod Period
pub mod Behaviour
pub mod Store
pub mod Spec
