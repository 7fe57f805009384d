-- ===== src/Osal/Queue.antt =====
-- Message queues: `os_queue_*` and `os_mq_timed*` of osal/linux/os_core.c and osal/osal_queue.c. The
-- system's queues are a parameter: a type of states with the four calls, and whether a call fails with EINTR.
mod Tests
pub mod Laws
use pc.Base.{
  ℕ, zero, suc, ◌≡◌, ◌≤◌, ◌<◌, refl, arith, if◌then◌else◌, Bool, true, false, not, ◌&&◌, ◌||◌, ◌==◌,
  Option, some, none, List, [], ◌∷◌, ◌++◌, length,
}
use pc.Base.Int.{ℤ, pos, negsuc}
use pc.Timer.Timespec.{Timespec}
use pc.Timer.State.{is_zero, eq_ℤ}
use pc.Osal.Status.{OsalStatus, success, timeout, empty, undefined, of_ret}
use pc.Osal.Deadline.{Timeval, millisec_2_timespec}
use pc.Osal.Sleep.{to_unsigned}

-- What `mq_receive` and `mq_timedreceive` answer: the bytes of a message, or a failure and whether `errno`
-- is EINTR.
pub data Answer : Type 0 where
  message : List ℕ → Answer
  fails : Bool → Answer

-- The system's queue, in the state `Q`. A timed receive that is interrupted is called again, so it has a
-- list of answers, with the state after them.
pub record Mq (Q : Type 0) : Type 0 where
  pub mq_send : Q → List ℕ → ℕ → Q × ℤ
  pub mq_timedsend : Q → List ℕ → ℕ → Timespec → Q × ℤ
  pub mq_receive : Q → ℕ → Q × Answer
  pub mq_timedreceive : Q → ℕ → Timespec → Q × List Answer

-- What a receiver gets: the status, the bytes put into its buffer, and what is stored through `len`.
pub record Received : Type 0 where
  pub status : ℤ
  pub bytes : List ℕ
  pub stored : Option ℕ

abbrev pub nothing : ℤ → Received
nothing status = record { status = status; bytes = []; stored = none }

-- `os_queue_create`: `opened` is what `mq_open` returns. The result, and the descriptor that is stored
unfoldable pub os_queue_create : Bool → Bool → ℤ → ℤ × Option ℤ
os_queue_create has_name has_id opened =
    if not has_name || not has_id
    then (negsuc 0, none)
    else if eq_ℤ opened (negsuc 0)
    then (negsuc 0, none)
    else (pos 0, some opened)

-- `osal_queue_create`: the queue's descriptor and message size, and the blocks that stay taken
unfoldable pub osal_queue_create : Bool → Bool → ℤ → ℕ → Option (ℤ × ℕ) × ℕ
unfolding os_queue_create
osal_queue_create memory has_name opened msg_size =
    let created = os_queue_create has_name true opened in
    if not memory
    then (none, 0)
    else if is_zero created.0
    then elim created.1 [ some mqd ↦ (some (mqd, msg_size), 1) | none ↦ (none, 1) ]
    else (none, 0)

unfoldable pub os_queue_delete : ℤ
os_queue_delete = pos 0

unfoldable pub osal_queue_delete : Bool → OsalStatus
unfolding os_queue_delete
osal_queue_delete is_null = if is_null then empty else of_ret os_queue_delete

-- The loop of `os_mq_timedrecv`: the first answer that is not EINTR; `none`: still waiting
unfoldable pub first_answer : List Answer → Option Answer
first_answer [] = none
first_answer (message m ∷ rest) = some (message m)
first_answer (fails interrupted ∷ rest) =
    let again = first_answer rest in if interrupted then again else some (fails false)

-- `os_queue_recv`
abbrev pub recv_result : Answer → Received
recv_result (message m) = record { status = pos 0; bytes = m; stored = some (length m) }
recv_result (fails _) = nothing (negsuc 0)

-- The length that `os_mq_timedrecv` returns, or -1, with the bytes
abbrev pub timed_result : Answer → Received
timed_result (message m) = record { status = pos (length m); bytes = m; stored = none }
timed_result (fails _) = nothing (negsuc 0)

-- What `osal_queue_recv` makes of these
abbrev pub block_status : Received → Received
block_status r = record r { status = of_ret r.status }

abbrev pub timed_status : Received → Received
timed_status r = elim r.status [
  | pos zero ↦ record r { status = timeout }
  | pos (suc n) ↦ record r { status = success; stored = some (suc n) }
  | negsuc n ↦ record r { status = timeout }
]

module _ {Q : Type 0} (mq : Mq Q) where
  unfoldable pub os_queue_recv : Q → Bool → Bool → ℕ → Q × Received
  os_queue_recv q has_data has_len size =
      let got = mq.mq_receive q size in
      if not has_data || not has_len then (q, nothing (negsuc 0)) else (got.0, recv_result got.1)

  unfoldable pub os_queue_send : Q → List ℕ → ℕ → Q × ℤ
  os_queue_send q bytes priority = mq.mq_send q bytes priority

  -- `os_mq_timedrecv`; `none`: still waiting
  unfoldable pub os_mq_timedrecv : Q → Bool → ℕ → ℕ → Timeval → Option (Q × Received)
  unfolding first_answer
  os_mq_timedrecv q has_buf msg_len time now =
      let got = mq.mq_timedreceive q msg_len (millisec_2_timespec time now) in
      if not has_buf
      then some (q, nothing (negsuc 0))
      else elim (first_answer got.1) [ some a ↦ some (got.0, timed_result a) | none ↦ none ]

  unfoldable pub os_mq_timedsend : Q → List ℕ → ℕ → ℕ → Timeval → Q × ℤ
  os_mq_timedsend q bytes priority time now =
      let sent = mq.mq_timedsend q bytes priority (millisec_2_timespec time now) in
      elim sent.1 [ pos n ↦ (sent.0, pos n) | negsuc n ↦ (sent.0, negsuc 0) ]

  -- `osal_queue_recv` of a queue that is not NULL, with messages of `msg_size` bytes; a timeout is an
  -- `int`, read as `uint32_t`.
  unfoldable pub osal_queue_recv : Q → ℕ → Bool → Bool → ℤ → Timeval → Option (Q × Received)
  unfolding os_queue_recv os_mq_timedrecv
  osal_queue_recv q msg_size has_data has_len time now =
      let blocking = os_queue_recv q has_data has_len msg_size in
      if eq_ℤ time (negsuc 0)
      then some (blocking.0, block_status blocking.1)
      else elim (os_mq_timedrecv q has_data msg_size (to_unsigned time) now) [
        | some r ↦ some (r.0, timed_status r.1)
        | none ↦ none
      ]

  -- `osal_queue_send` of a queue and data that are not NULL
  unfoldable pub osal_queue_send : Q → List ℕ → ℕ → ℤ → Timeval → Q × OsalStatus
  unfolding os_queue_send os_mq_timedsend
  osal_queue_send q bytes priority time now =
      let sent =
        if eq_ℤ time (negsuc 0)
        then os_queue_send q bytes priority
        else os_mq_timedsend q bytes priority (to_unsigned time) now in
      (sent.0, if is_zero sent.1 then success else timeout)

-- `osal_queue_recv` and `osal_queue_send` of NULL
abbrev pub null_status : OsalStatus
null_status = empty
