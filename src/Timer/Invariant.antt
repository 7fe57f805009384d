-- ===== src/Timer/Invariant.antt =====
-- The invariant of the timer module: which list each timer is on, and how often it is referenced. It
-- holds whenever the mutex is free.
pub mod Moves
pub mod Pool
pub mod Settime
pub mod Locked
pub mod Fresh
pub mod Create
pub mod Service
pub mod Api
pub mod Framed
pub mod Servers
pub mod Reach
use pc.Base.{ℕ, ◌<◌, ◌≡◌, ◌≢◌, true, some, mem, Distinct}
use pc.Base.Int.{pos}
use pc.Timer.State.{State, free, in_use, deleted, timer_max}
use pc.Timer.Order.{Sorted}

-- Where the timers are, once the module is initialised.
pub record Lists (s : State) : Type 0 where
  pub ready : s.once ≡ true
  pub distinct : Distinct s.timer_free_list
  pub free_unused : (t : ℕ) → mem t s.timer_free_list ≡ true → (s.timer t).inuse ≡ free
  pub in_range : (t : ℕ) → mem t s.timer_free_list ≡ true → t < timer_max
  pub none_lost :
      (t : ℕ) → t < timer_max → (s.timer t).inuse ≡ free → mem t s.timer_free_list ≡ true
  pub queue_used : (k t : ℕ) → mem t (s.thread k).timer_queue ≡ true → (s.timer t).inuse ≡ in_use
  pub queue_armed : (k t : ℕ) → mem t (s.thread k).timer_queue ≡ true → (s.timer t).armed ≡ true
  pub queue_owner : (k t : ℕ) → mem t (s.thread k).timer_queue ≡ true → (s.timer t).thread ≡ some k
  pub sorted : (k : ℕ) → Sorted (λ t. (s.timer t).expirytime) (s.thread k).timer_queue

-- How often they are referenced: once in use, never when free; and none stays half deleted.
pub record Counts (s : State) : Type 0 where
  pub held : (t : ℕ) → (s.timer t).inuse ≡ in_use → (s.timer t).refcount ≡ pos 1
  pub idle : (t : ℕ) → (s.timer t).inuse ≡ free → (s.timer t).refcount ≡ pos 0
  pub settled : (t : ℕ) → (s.timer t).inuse ≢ deleted

pub record Inv (s : State) : Type 0 where
  pub lists : Lists s
  pub counts : Counts s
