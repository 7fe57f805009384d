-- ===== src/Osal/Thread/Wrapper.antt =====
-- `start_routine_wrapper` of osal/linux/os_pthread.c, which runs in the new thread, and what it does together with
-- the creation of the thread.
use pc.Base.{
  ℕ, ◌+◌, ◌≡◌, refl, arith, if◌then◌else◌, Bool, true, false, ◌&&◌, List, [], ◌∷◌, ◌++◌, Bool-cases,
  inl, inr,
}
use pc.Base.Int.{ℤ}
use pc.Timer.State.{is_zero}
use pc.Osal.Thread.{
  Call, ThreadOs, free_thread_info, os_pthread_create, os_pthread_create-calls, set_attributes,
  create_thread, pthread_create_internel, creates, frees,
}

-- What the new thread does, in order.
pub data Act : Type 0 where
  -- the block is copied
  copies_info : Act
  -- `os_setprocparam`; whether there is a name
  sets_name : Bool → Act
  enables_cancel : Act
  defers_cancel : Act
  calls : Call → Act
  -- `info.start_routine (info.arg)`
  runs : ℕ → ℕ → Act

abbrev pub as_acts : List Call → List Act
as_acts [] = []
as_acts (c ∷ cs) = calls c ∷ as_acts cs

-- `start_routine_wrapper`, for a block with or without a name, a routine and an argument
unfoldable pub start_routine_wrapper : Bool → ℕ → ℕ → List Act
start_routine_wrapper has_name routine arg =
    copies_info
    ∷ sets_name has_name
    ∷ enables_cancel
    ∷ defers_cancel
    ∷ (as_acts (free_thread_info has_name) ++ runs routine arg ∷ [])

abbrev pub calls_of : List Act → List Call
calls_of [] = []
calls_of (calls c ∷ xs) = c ∷ calls_of xs
calls_of (_ ∷ xs) = calls_of xs

-- The creation, and what the thread does if there is one: the calls.
abbrev pub whole_life : ThreadOs → Bool → ℤ → ℤ → ℕ → ℕ → List Call
whole_life os has_name prio stack_size routine arg =
    let made = os_pthread_create os has_name prio stack_size in
    if is_zero made.0
    then made.1 ++ calls_of (start_routine_wrapper (has_name && os.name_memory) routine arg)
    else made.1

frees-append : (xs ys : List Call) → frees (xs ++ ys) ≡ frees xs + frees ys
frees-append [] ys = omega arith
frees-append (x ∷ xs) ys = ground (arith, frees-append xs ys)

wrapper-frees :
    (has_name : Bool) (routine arg : ℕ)
    → frees (calls_of (start_routine_wrapper has_name routine arg)) ≡ 1
unfolding start_routine_wrapper
wrapper-frees true routine arg = refl
wrapper-frees false routine arg = refl

set_attributes-creates :
    (os : ThreadOs) (has_name : Bool) (prio : ℤ)
    → is_zero (set_attributes os true prio has_name).0 ≡ true
    → creates (set_attributes os true prio has_name).1 ≡ 1
unfolding set_attributes create_thread
set_attributes-creates os has_name prio h = ground arith

made-creates :
    (os : ThreadOs) (has_name : Bool) (prio stack_size : ℤ)
    → is_zero (os_pthread_create os has_name prio stack_size).0 ≡ true
    → creates (os_pthread_create os has_name prio stack_size).1 ≡ 1
unfolding os_pthread_create pthread_create_internel
made-creates os has_name prio stack_size h = ground (arith, set_attributes-creates os has_name prio)

-- Over the creation of a thread and, if it succeeds, the run of the new thread up to its routine, the
-- information for the thread is given back exactly as often as pthread_create was called.
pub start_routine_wrapper-frees :
    (os : ThreadOs) (has_name : Bool) (prio stack_size : ℤ) (routine arg : ℕ)
    → frees (whole_life os has_name prio stack_size routine arg)
      ≡ creates (os_pthread_create os has_name prio stack_size).1
start_routine_wrapper-frees os has_name prio stack_size routine arg =
    elim (Bool-cases (is_zero (os_pthread_create os has_name prio stack_size).0)) [
      | inl e ↦
          rw
            (
              e,
              frees-append (os_pthread_create os has_name prio stack_size).1
                  (calls_of (start_routine_wrapper (has_name && os.name_memory) routine arg)),
              wrapper-frees (has_name && os.name_memory) routine arg,
              made-creates os has_name prio stack_size e,
            )
            (omega (arith, rw e at (os_pthread_create-calls os has_name prio stack_size).1.1.0))
      | inr e ↦ rw e (rw e at (os_pthread_create-calls os has_name prio stack_size).1.1.0)
    ]
