-- ===== src/Osal/Queue/Tests.antt =====
-- The message queues at work, with a system that keeps the messages in a list and interrupts each timed
-- receive once; its message size is 16.
use pc.Base.{ℕ, ◌≡◌, refl, arith, if◌then◌else◌, true, false, leb, some, none, List, [], ◌∷◌, ◌++◌}
use pc.Base.Int.{pos}
use pc.Osal.Status.{success, timeout}
use pc.Osal.Deadline.{Timeval}
use pc.Osal.Queue.{Mq, Answer, message, fails, osal_queue_send, osal_queue_recv, os_mq_timedsend}
use pc.Osal.Queue.Laws.{IsPosix, osal_queue_recv-send, osal_queue_recv-null}

abbrev Held : Type 0
Held = List (List ℕ)

abbrev take_first : Held → ℕ → Held × Answer
take_first [] size = ([], fails false)
take_first (m ∷ ms) size = if leb 16 size then (ms, message m) else (m ∷ ms, fails false)

abbrev system : Mq Held
system = record {
  mq_send = λ q m p. (q ++ m ∷ [], pos 0);
  mq_timedsend = λ q m p ts. (q ++ m ∷ [], pos 0);
  mq_receive = take_first;
  mq_timedreceive = λ q size ts. ((take_first q size).0, fails true ∷ (take_first q size).1 ∷ []);
}

abbrev Holds : Held → Held → Type 0
Holds q ms = q ≡ ms

system-IsPosix : IsPosix system 16 Holds
system-IsPosix = record {
  send_law = λ q m p h e. rw h refl;
  timedsend_law = λ q m p ts h e. rw h refl;
  receive_law = λ q m ms size h le. rw h (ground arith);
  timedreceive_law = λ q m ms size ts h le n. rw h (ground arith);
}

abbrev noon : Timeval
noon = record { sec = 43200; usec = 999999 }

sent : (osal_queue_send system [] (7 ∷ 8 ∷ []) 0 (pos 20) noon).1 ≡ success
unfolding osal_queue_send os_mq_timedsend
sent = refl

osal_queue_recv-send_example :
    (u : Held) × (osal_queue_recv system
        (osal_queue_send system [] (7 ∷ 8 ∷ []) 0 (pos 20) noon).0
        16
        true
        true
        (pos 500)
        noon
      ≡ some (u, record { status = success; bytes = 7 ∷ 8 ∷ []; stored = some 2 }))
    × Holds u []
osal_queue_recv-send_example =
    osal_queue_recv-send system 16 Holds system-IsPosix [] 7 (8 ∷ []) 0 16 (pos 20) (pos 500) noon
      noon refl (omega arith) (omega arith) sent

osal_queue_recv-null_example :
    (u : Held) × (osal_queue_recv system ([] ∷ []) 16 true true (pos 500) noon
      ≡ some (u, record { status = timeout; bytes = []; stored = none }))
    × Holds u []
osal_queue_recv-null_example =
    osal_queue_recv-null system 16 Holds system-IsPosix ([] ∷ []) [] 16 (pos 500) noon refl
      (omega arith) (omega arith) refl
