-- ===== src/Osal/Sem.antt =====
-- Semaphores: `os_sem_*` of osal/linux/os_core.c and osal/osal_sem.c. What the semaphore functions of the
-- system return is an argument; a call that fails with EINTR is repeated, so there may be several.
use pc.Base.{
  ℕ, ◌≡◌, ◌≢◌, ◌⊎◌, arith, inl, inr, Option-cases, if◌then◌else◌, Bool, true, false, ◌&&◌, Option,
  some, none, List, [], ◌∷◌,
}
use pc.Base.Int.{ℤ, pos, negsuc}
use pc.Timer.Timespec.{Timespec}
use pc.Timer.State.{is_zero, eq_ℤ}
use pc.Osal.Status.{OsalStatus, success, timeout, undefined, of_ret}
use pc.Osal.Deadline.{Timeval, sem_deadline}

-- An answer of the system: the value returned, and whether `errno` is EINTR.
abbrev pub Answer : Type 0
Answer = ℤ × Bool

abbrev pub minus_one : ℤ
minus_one = negsuc 0

-- `while ((ret = sem_timedwait (sem, &ts)) == -1 && errno == EINTR) continue`; `none`: still waiting
unfoldable pub retry : List Answer → Option ℤ
retry [] = none
retry ((ret, interrupted) ∷ rest) =
    let again = retry rest in if eq_ℤ ret minus_one && interrupted then again else some ret

-- What the system answers to each way to wait.
pub record SemOs : Type 0 where
  pub trywait : ℤ
  pub wait : ℤ
  -- to the deadline that the call is given
  pub timedwait : Timespec → List Answer
  pub now : Timeval

-- `os_sem_wait`; `is_null` is whether `sem` is NULL.
unfoldable pub os_sem_wait : SemOs → Bool → ℤ → Option ℤ
os_sem_wait os is_null time =
    if is_null
    then some (pos 0)
    else if is_zero time
    then some os.trywait
    else if eq_ℤ time minus_one
    then some os.wait
    else retry (os.timedwait (sem_deadline time os.now))

-- `os_sem_init`, `os_sem_destroy` and `os_sem_post` return what the system returns (`os_sem_post` of a
-- NULL semaphore returns 0).
unfoldable pub os_sem_init : ℤ → ℤ
os_sem_init ret = ret

unfoldable pub os_sem_destroy : ℤ → ℤ
os_sem_destroy ret = ret

unfoldable pub os_sem_post : Bool → ℤ → ℤ
os_sem_post is_null ret = if is_null then pos 0 else ret

-- `osal_sem_create`: the result is whether a semaphore is handed out, with the number of blocks that stay
-- allocated. `memory` is whether `malloc` succeeds.
unfoldable pub osal_sem_create : Bool → ℤ → Bool × ℕ
unfolding os_sem_init
osal_sem_create memory ret =
    if memory then if is_zero (os_sem_init ret) then (true, 1) else (false, 0) else (false, 0)

unfoldable pub osal_sem_delete : ℤ → OsalStatus
unfolding os_sem_destroy
osal_sem_delete ret = of_ret (os_sem_destroy ret)

-- The status that `osal_sem_take` makes of the result of `os_sem_wait`.
abbrev pub take_status : ℤ → OsalStatus
take_status error =
    if is_zero error then success else if eq_ℤ error minus_one then undefined else timeout

-- `osal_sem_take`; `none`: still waiting
unfoldable pub osal_sem_take : SemOs → Bool → ℤ → Option OsalStatus
osal_sem_take os is_null time = elim (os_sem_wait os is_null time) [
  | some error ↦ some (take_status error)
  | none ↦ none
]

unfoldable pub osal_sem_release : Bool → ℤ → OsalStatus
unfolding os_sem_post
osal_sem_release is_null ret = of_ret (os_sem_post is_null ret)

-- POSIX: the waiting functions return 0, or -1 with `errno` set.
abbrev pub IsResult : ℤ → Type 0
IsResult ret = (ret ≡ pos 0) ⊎ (ret ≡ minus_one)

abbrev pub AllResults : List Answer → Type 0
AllResults [] = Unit {0}
AllResults ((ret, interrupted) ∷ rest) = IsResult ret × AllResults rest

pub record IsPosix (os : SemOs) : Type 0 where
  pub trywait_result : IsResult os.trywait
  pub wait_result : IsResult os.wait
  pub timedwait_results : (ts : Timespec) → AllResults (os.timedwait ts)

retry-IsResult :
    (answers : List Answer) (ret : ℤ) → AllResults answers → retry answers ≡ some ret → IsResult ret
unfolding retry
retry-IsResult [] ret h e = absurd (cc)
retry-IsResult ((r, i) ∷ rest) ret h e = ground (arith, retry-IsResult rest ret h.1)

os_sem_wait-IsResult :
    (os : SemOs) (is_null : Bool) (time ret : ℤ)
    → IsPosix os
    → os_sem_wait os is_null time ≡ some ret
    → IsResult ret
unfolding os_sem_wait
os_sem_wait-IsResult os is_null time ret p e = ground (
  arith,
  p.trywait_result,
  p.wait_result,
  retry-IsResult (os.timedwait (sem_deadline time os.now)) ret (p.timedwait_results _),
)

-- With semaphore functions that return 0 or -1 as POSIX says, taking a semaphore never gives the status
-- of a timeout.
pub osal_sem_take-ne-timeout :
    (os : SemOs) (is_null : Bool) (time : ℤ)
    → IsPosix os
    → osal_sem_take os is_null time ≢ some timeout
unfolding osal_sem_take
osal_sem_take-ne-timeout os is_null time p e = elim (Option-cases (os_sem_wait os is_null time)) [
  | inl h ↦ ground arith
  | inr (r, h) ↦ ground (arith, os_sem_wait-IsResult os is_null time r p h)
]
