-- ===== src/Osal/Status.antt =====
-- The status codes of osal/osal_cmn.h and the way that the adapter layer makes them of return values.
use pc.Base.{if◌then◌else◌}
use pc.Base.Int.{ℤ, pos, negsuc}
use pc.Timer.State.{is_zero}

-- `osal_status_t`, an `int`
abbrev pub OsalStatus : Type 0
OsalStatus = ℤ

abbrev pub success : OsalStatus
success = pos 0

-- -OSAL_ETIMEOUT
abbrev pub timeout : OsalStatus
timeout = negsuc 1

-- `OSAL_STATUS_EMPTY` is -OSAL_ENOMEM in the header, the value of `OSAL_STATUS_NOMEM` too.
abbrev pub empty : OsalStatus
empty = negsuc 4

abbrev pub nomem : OsalStatus
nomem = negsuc 4

-- -OSAL_ERROR
abbrev pub undefined : OsalStatus
undefined = negsuc 0

-- `(ret == OSAL_EOK) ? OSAL_STATUS_SUCCESS : OSAL_STATUS_ERROR_UNDEFINED`
abbrev pub of_ret : ℤ → OsalStatus
of_ret ret = if is_zero ret then success else undefined
