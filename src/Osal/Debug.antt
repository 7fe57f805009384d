-- ===== src/Osal/Debug.antt =====
-- Debugging: `osal_dbg_set_level`, `osal_dbg_dump_data`, `dbg_buf_print` and `syslog_priority` of
-- osal/cv_osal_dbg.c. What is printed is a list of tokens.
pub mod Output
use pc.Base.{
  append_nil, same, ℕ, zero, suc, ◌+◌, ◌/◌, ◌%◌, ◌≡◌, refl, ap, arith, if◌then◌else◌, ◌==◌, Option,
  some, none, List, [], ◌∷◌, ◌++◌, length,
}

-- `OSAL_DEBUG_ERROR` to `OSAL_DEBUG_LOUD` are 1 to 5 in this order; `other` is any other number.
pub data Level : Type 0 where
  error : Level
  warn : Level
  info : Level
  trace : Level
  loud : Level
  other : Level

pub data Priority : Type 0 where
  log_err : Priority
  log_warning : Priority
  log_notice : Priority
  log_info : Priority
  log_debug : Priority

unfoldable pub syslog_priority : Level → Priority
syslog_priority loud = log_debug
syslog_priority trace = log_debug
syslog_priority info = log_notice
syslog_priority warn = log_warning
syslog_priority error = log_err
syslog_priority other = log_info

-- An entry of the table: the module's name, and its handler if it is not NULL.
pub record Entry : Type 0 where
  pub module_name : List ℕ
  pub handler : Option ℕ

-- `osal_dbg_set_level`: the handler that is called, if the result is TRUE
unfoldable pub osal_dbg_set_level : List Entry → List ℕ → Option ℕ
osal_dbg_set_level [] name = none
osal_dbg_set_level (e ∷ es) name =
    let rest = osal_dbg_set_level es name in
    if same name e.module_name then elim e.handler [ some h ↦ some h | none ↦ rest ] else rest

-- What a dump prints: the lines around it, the column numbers, an address, a byte, a gap, a line end.
pub data Token : Type 0 where
  rule : Token
  column : ℕ → Token
  address : ℕ → Token
  byte : ℕ → Token
  gap : Token
  newline : Token

-- `for (i=0;i<len;i++)` of `osal_dbg_dump_data`, from `i` on
unfoldable pub dump_loop : ℕ → List ℕ → List Token
dump_loop i [] = []
dump_loop i (b ∷ bs) =
    let rest = dump_loop (suc i) bs in
    if i % 16 == 0 then address i ∷ byte b ∷ rest else byte b ∷ rest

-- `for (i=0; i<LINE_WIDTH; i++)`
unfoldable pub columns : ℕ → ℕ → List Token
columns zero i = []
columns (suc n) i = column i ∷ columns n (suc i)

unfoldable pub osal_dbg_dump_data : List ℕ → List Token
unfolding dump_loop columns
osal_dbg_dump_data [] = []
osal_dbg_dump_data (b ∷ bs) = rule ∷ columns 16 0 ++ newline ∷ dump_loop 0 (b ∷ bs) ++ rule ∷ []

-- The loop of `dbg_buf_print`, from `i` on, with the count `j` of the bytes of the line
unfoldable pub print_loop : ℕ → ℕ → List ℕ → List Token
print_loop i j [] = []
print_loop i j (b ∷ bs) =
    let k = if i % 16 == 0 then 1 else suc j in
    let rest = print_loop (suc i) k bs in
    let tail = if k == 8 then byte b ∷ gap ∷ rest else byte b ∷ rest in
    if i % 16 == 0 then newline ∷ tail else tail

unfoldable pub dbg_buf_print : List ℕ → List Token
unfolding print_loop
dbg_buf_print bs = rule ∷ print_loop 0 0 bs ++ newline ∷ []

-- The bytes that are printed, and the addresses.
abbrev pub bytes_of : List Token → List ℕ
bytes_of [] = []
bytes_of (byte b ∷ ts) = b ∷ bytes_of ts
bytes_of (_ ∷ ts) = bytes_of ts

abbrev pub addresses : List Token → ℕ
addresses [] = 0
addresses (address a ∷ ts) = 1 + addresses ts
addresses (_ ∷ ts) = addresses ts

bytes_of-append : (ts us : List Token) → bytes_of (ts ++ us) ≡ bytes_of ts ++ bytes_of us
bytes_of-append [] us = refl
bytes_of-append (rule ∷ ts) us = bytes_of-append ts us
bytes_of-append (column i ∷ ts) us = bytes_of-append ts us
bytes_of-append (address i ∷ ts) us = bytes_of-append ts us
bytes_of-append (byte b ∷ ts) us = ap (λ bs. b ∷ bs) (bytes_of-append ts us)
bytes_of-append (gap ∷ ts) us = bytes_of-append ts us
bytes_of-append (newline ∷ ts) us = bytes_of-append ts us

bytes_of-dump_loop : (i : ℕ) (bs : List ℕ) → bytes_of (dump_loop i bs) ≡ bs
unfolding dump_loop
bytes_of-dump_loop i [] = refl
bytes_of-dump_loop i (b ∷ bs) = ground (arith, bytes_of-dump_loop (suc i) bs)

bytes_of-print_loop : (i j : ℕ) (bs : List ℕ) → bytes_of (print_loop i j bs) ≡ bs
unfolding print_loop
bytes_of-print_loop i j [] = refl
bytes_of-print_loop i j (b ∷ bs) =
    ground (arith, bytes_of-print_loop (suc i) 1 bs, bytes_of-print_loop (suc i) (suc j) bs)

addresses-append : (ts us : List Token) → addresses (ts ++ us) ≡ addresses ts + addresses us
addresses-append [] us = omega arith
addresses-append (rule ∷ ts) us = addresses-append ts us
addresses-append (column i ∷ ts) us = addresses-append ts us
addresses-append (address i ∷ ts) us = omega (arith, addresses-append ts us)
addresses-append (byte b ∷ ts) us = addresses-append ts us
addresses-append (gap ∷ ts) us = addresses-append ts us
addresses-append (newline ∷ ts) us = addresses-append ts us

addresses-dump_loop :
    (i : ℕ) (bs : List ℕ) → addresses (dump_loop i bs) + (i + 15) / 16 ≡ (i + length bs + 15) / 16
unfolding dump_loop
addresses-dump_loop i [] = ground arith
addresses-dump_loop i (b ∷ bs) = ground (arith, addresses-dump_loop (suc i) bs)

bytes_of-columns : (n i : ℕ) → bytes_of (columns n i) ≡ []
unfolding columns
bytes_of-columns zero i = refl
bytes_of-columns (suc n) i = bytes_of-columns n (suc i)

addresses-columns : (n i : ℕ) → addresses (columns n i) ≡ 0
unfolding columns
addresses-columns zero i = refl
addresses-columns (suc n) i = addresses-columns n (suc i)

-- A dump prints every byte once and in order, and one address for each started line of 16 bytes; the
-- other printer of bytes prints every byte once and in order too.
pub osal_dbg_dump_data-bytes :
    (bs : List ℕ)
    → (bytes_of (osal_dbg_dump_data bs) ≡ bs)
      × ((addresses (osal_dbg_dump_data bs) ≡ (length bs + 15) / 16)
          × (bytes_of (dbg_buf_print bs) ≡ bs))
unfolding osal_dbg_dump_data dbg_buf_print
osal_dbg_dump_data-bytes [] = (refl, (refl, refl))
osal_dbg_dump_data-bytes (b ∷ bs) = ground (
  arith,
  bytes_of-append (dump_loop 1 bs) (rule ∷ []),
  bytes_of-dump_loop 1 bs,
  addresses-append (dump_loop 1 bs) (rule ∷ []),
  addresses-dump_loop 1 bs,
  bytes_of-append (print_loop 1 1 bs) (newline ∷ []),
  bytes_of-print_loop 1 1 bs,
  append_nil bs,
)
