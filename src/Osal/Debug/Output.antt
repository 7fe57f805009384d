-- ===== src/Osal/Debug/Output.antt =====
-- Where debug output goes: `cv_debug_print_timestamp`, `cv_debug_open_syslog`, `cv_debug_close_syslog`,
-- `osal_printf`, `osal_syslog` and `osal_printf_unbuf` of osal/cv_osal_dbg.c. A message is the text that its format
-- and arguments make.
use pc.Base.{
  ℕ, ◌+◌, ◌<◌, ◌≡◌, ◌↔◌, arith, if◌then◌else◌, ltb, ◌==◌, Bool, Option, some, none, List, [], ◌∷◌,
  ◌++◌, length,
}
use pc.Osal.Deadline.{Timeval}
use pc.Osal.Debug.{Level, Priority, syslog_priority}

-- `cv_debug_syslog`, which counts, and `cv_debug_timestamp`
pub record Settings : Type 0 where
  pub syslog : ℕ
  pub timestamp : Bool

pub data Output : Type 0 where
  openlog : Output
  closelog : Output
  -- seconds and microseconds
  time : Timeval → Output
  to_stdout : List ℕ → Output
  to_stderr : List ℕ → Output
  to_syslog : Priority → List ℕ → Output

-- `cv_debug_print_timestamp`; `tv` is the time that is in the variable after `os_get_reltime`.
unfoldable pub cv_debug_print_timestamp : Settings → Timeval → List Output
cv_debug_print_timestamp set tv = if set.timestamp then time tv ∷ [] else []

unfoldable pub cv_debug_open_syslog : Settings → Settings × List Output
cv_debug_open_syslog set = (record set { syslog = set.syslog + 1 }, openlog ∷ [])

unfoldable pub cv_debug_close_syslog : Settings → Settings × List Output
cv_debug_close_syslog set = (set, if set.syslog == 0 then [] else closelog ∷ [])

unfoldable pub osal_printf : Settings → Timeval → List ℕ → List Output
unfolding cv_debug_print_timestamp
osal_printf set tv text = cv_debug_print_timestamp set tv ++ to_stdout text ∷ []

-- `osal_syslog`; the arguments are read a second time for `vsyslog`, `again` is the text that they then make.
unfoldable pub osal_syslog : Settings → Level → List ℕ → List ℕ → List Output
unfolding syslog_priority
osal_syslog set level text again =
    to_stdout text ∷ (if set.syslog == 0 then [] else to_syslog (syslog_priority level) again ∷ [])

-- `osal_printf_unbuf`: the text and its null go into a buffer of 1000 bytes; `none`: it does not fit.
unfoldable pub osal_printf_unbuf : Settings → Timeval → List ℕ → Option (List Output)
unfolding cv_debug_print_timestamp
osal_printf_unbuf set tv text =
    if ltb (length text) 1000
    then some (cv_debug_print_timestamp set tv ++ to_stderr text ∷ [])
    else none

-- x
pub osal_syslog-closed :
    (set : Settings) (level : Level) (text again : List ℕ)
    → let opened = cv_debug_open_syslog set in
      let closed = cv_debug_close_syslog opened.0 in
      (closed.1 ≡ closelog ∷ [])
      × (osal_syslog closed.0 level text again
          ≡ to_stdout text ∷ to_syslog (syslog_priority level) again ∷ [])
unfolding osal_syslog cv_debug_open_syslog cv_debug_close_syslog
osal_syslog-closed set level text again = ground arith

-- A message can be printed with `osal_printf_unbuf` exactly when it has less than 1000 characters.
pub osal_printf_unbuf_iff :
    (set : Settings) (tv : Timeval) (text : List ℕ)
    → (osal_printf_unbuf set tv text
        ≡ some (cv_debug_print_timestamp set tv ++ to_stderr text ∷ []))
      ↔ (length text < 1000)
unfolding osal_printf_unbuf
osal_printf_unbuf_iff set tv text = (λ e. ground arith, λ h. ground arith)
