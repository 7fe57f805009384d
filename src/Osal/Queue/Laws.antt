-- ===== src/Osal/Queue/Laws.antt =====
-- What osal/osal_queue.c makes of the message queues of the system: a message that is sent to an empty
-- queue is the one that is received.
use pc.Base.{
  ℕ, ◌≡◌, ◌≤◌, ◌<◌, refl, arith, Bool-cases, inl, inr, true, false, some, none, List, [], ◌∷◌,
  length,
}
use pc.Base.Int.{ℤ, pos, negsuc}
use pc.Timer.Timespec.{Timespec}
use pc.Timer.Timespec.Laws.{IsNormal}
use pc.Timer.State.{eq_ℤ}
use pc.Osal.Status.{success, timeout}
use pc.Osal.Deadline.{Timeval, millisec_2_timespec}
use pc.Osal.Sleep.{to_unsigned}
use pc.Osal.Queue.{
  Mq, Answer, message, fails, first_answer, osal_queue_send, osal_queue_recv, os_queue_recv,
  os_mq_timedrecv, os_queue_send, os_mq_timedsend,
}

-- Some interruptions, then an answer.
abbrev pub EndsWith : Answer → List Answer → Type 0
EndsWith a [] = ⊥
EndsWith a (x ∷ []) = x ≡ a
EndsWith a (x ∷ y ∷ rest) = (x ≡ fails true) × EndsWith a (y ∷ rest)

-- mq_send(3), mq_receive(3): `holds q ms` says that the queue, made with the attribute `mq_msgsize`, holds these
-- messages, the first to be received first. A send that returns 0 to an empty queue puts the message in, with
-- any timeout. A receive from a queue that holds a message takes the first one out if the buffer is no smaller
-- than `mq_msgsize`, else it fails with EMSGSIZE, of which nothing is asked here. A timed one, with a deadline
-- whose nanoseconds are in range, may be interrupted before; that no signal interrupts the other is asked.
pub record IsPosix {Q : Type 0} (mq : Mq Q) (mq_msgsize : ℕ) (holds : Q → List (List ℕ) → Type 0)
    : Type 1 where
  pub send_law :
      (q : Q) (m : List ℕ) (p : ℕ)
      → holds q []
      → (mq.mq_send q m p).1 ≡ pos 0
      → holds (mq.mq_send q m p).0 (m ∷ [])
  pub timedsend_law :
      (q : Q) (m : List ℕ) (p : ℕ) (ts : Timespec)
      → holds q []
      → (mq.mq_timedsend q m p ts).1 ≡ pos 0
      → holds (mq.mq_timedsend q m p ts).0 (m ∷ [])
  pub receive_law :
      (q : Q) (m : List ℕ) (ms : List (List ℕ)) (size : ℕ)
      → holds q (m ∷ ms)
      → mq_msgsize ≤ size
      → ((mq.mq_receive q size).1 ≡ message m) × holds (mq.mq_receive q size).0 ms
  pub timedreceive_law :
      (q : Q) (m : List ℕ) (ms : List (List ℕ)) (size : ℕ) (ts : Timespec)
      → holds q (m ∷ ms)
      → mq_msgsize ≤ size
      → IsNormal ts
      → EndsWith (message m) (mq.mq_timedreceive q size ts).1
        × holds (mq.mq_timedreceive q size ts).0 ms

first_answer-EndsWith :
    (m : List ℕ) (answers : List Answer)
    → EndsWith (message m) answers
    → first_answer answers ≡ some (message m)
unfolding first_answer
first_answer-EndsWith m [] h = absurd h
first_answer-EndsWith m (x ∷ []) h = rw h refl
first_answer-EndsWith m (x ∷ y ∷ rest) h = rw h.0 (first_answer-EndsWith m (y ∷ rest) h.1)

-- The deadline that is given to the system is in range.
deadline-IsNormal :
    (timeout : ℕ) (now : Timeval) → now.usec < 1000000 → IsNormal (millisec_2_timespec timeout now)
unfolding millisec_2_timespec
deadline-IsNormal timeout now h = ground arith

module _ {Q : Type 0} (mq : Mq Q) (mq_msgsize : ℕ) (holds : Q → List (List ℕ) → Type 0)
    (posix : IsPosix mq mq_msgsize holds) where
  -- A message that was sent to an empty queue with status success is held by it.
  pub osal_queue_send-holds :
      (q : Q) (m : List ℕ) (priority : ℕ) (time : ℤ) (now : Timeval)
      → holds q []
      → (osal_queue_send mq q m priority time now).1 ≡ success
      → holds (osal_queue_send mq q m priority time now).0 (m ∷ [])
  unfolding osal_queue_send os_queue_send os_mq_timedsend
  osal_queue_send-holds q m priority time now h e = ground (
    arith,
    posix.send_law q m priority h,
    posix.timedsend_law q m priority (millisec_2_timespec (to_unsigned time) now) h,
  )

  -- A receive, blocking or with a timeout, takes the first message out.
  pub osal_queue_recv-holds :
      (q : Q) (x : ℕ) (m : List ℕ) (ms : List (List ℕ)) (msg_size : ℕ) (time : ℤ) (now : Timeval)
      → holds q ((x ∷ m) ∷ ms)
      → mq_msgsize ≤ msg_size
      → now.usec < 1000000
      → (u : Q) × (osal_queue_recv mq q msg_size true true time now
          ≡ some (u, record { status = success; bytes = x ∷ m; stored = some (length (x ∷ m)) }))
        × holds u ms
  unfolding osal_queue_recv os_queue_recv os_mq_timedrecv
  osal_queue_recv-holds q x m ms msg_size time now h le usec =
      elim (Bool-cases (eq_ℤ time (negsuc 0))) [
        | inl b ↦ (
          (mq.mq_receive q msg_size).0,
          ground (arith, posix.receive_law q (x ∷ m) ms msg_size h le),
          (posix.receive_law q (x ∷ m) ms msg_size h le).1,
        )
        | inr b ↦
            let ts = millisec_2_timespec (to_unsigned time) now in
            let law =
              posix.timedreceive_law q (x ∷ m) ms msg_size ts h le
                (deadline-IsNormal (to_unsigned time) now usec) in
            (
              (mq.mq_timedreceive q msg_size ts).0,
              ground (arith, first_answer-EndsWith (x ∷ m) _ law.0),
              law.1,
            )
      ]

  -- With message queues that behave as POSIX says, where no signal interrupts a receive without a
  -- timeout, a buffer of at least the queue's mq_msgsize, and a time of day with less than a million
  -- microseconds, a message of at least one byte that is sent to an empty queue with status success
  -- is received as it was sent, with its length and status success, whatever the timeouts; and the
  -- queue is empty again.
  pub osal_queue_recv-send :
      (q : Q) (x : ℕ) (m : List ℕ) (priority msg_size : ℕ) (time wait : ℤ) (now later : Timeval)
      → holds q []
      → mq_msgsize ≤ msg_size
      → later.usec < 1000000
      → (osal_queue_send mq q (x ∷ m) priority time now).1 ≡ success
      → (u : Q) × (osal_queue_recv mq
            (osal_queue_send mq q (x ∷ m) priority time now).0
            msg_size
            true
            true
            wait
            later
          ≡ some (u, record { status = success; bytes = x ∷ m; stored = some (length (x ∷ m)) }))
        × holds u []
  osal_queue_recv-send q x m priority msg_size time wait now later h le usec e =
      osal_queue_recv-holds (osal_queue_send mq q (x ∷ m) priority time now).0 x m [] msg_size wait
        later (osal_queue_send-holds q (x ∷ m) priority time now h e) le usec

  -- With message queues that behave as POSIX says, where no signal interrupts a receive without a
  -- timeout, a buffer of at least the queue's mq_msgsize, and a time of day with less than a million
  -- microseconds, a message of no bytes that is received with a timeout other than -1 is taken out of
  -- the queue while the status is that of a timeout and no length is stored.
  pub osal_queue_recv-null :
      (q : Q) (ms : List (List ℕ)) (msg_size : ℕ) (time : ℤ) (now : Timeval)
      → holds q ([] ∷ ms)
      → mq_msgsize ≤ msg_size
      → now.usec < 1000000
      → eq_ℤ time (negsuc 0) ≡ false
      → (u : Q) × (osal_queue_recv mq q msg_size true true time now
          ≡ some (u, record { status = timeout; bytes = []; stored = none }))
        × holds u ms
  unfolding osal_queue_recv os_mq_timedrecv
  osal_queue_recv-null q ms msg_size time now h le usec b =
      let ts = millisec_2_timespec (to_unsigned time) now in
      let law =
        posix.timedreceive_law q [] ms msg_size ts h le
          (deadline-IsNormal (to_unsigned time) now usec) in
      (
        (mq.mq_timedreceive q msg_size ts).0,
        ground (arith, first_answer-EndsWith [] _ law.0),
        law.1,
      )
