-- ===== src/App/Net/Frame.antt =====
-- The frames that the network thread reads: `net_thread_entry` and `eg_tcp_main_proc` of app/sys/eg_net.c. What
-- `recv` gives, -1 or at most the bytes asked for, is an argument.
pub mod Rounds
pub mod Session
use Prim.Native.Nat.{bit_and, bit_or}
use pc.Base.{
  ◌∙◌, ℕ, zero, suc, ◌+◌, ◌-◌, ◌*◌, ◌/◌, ◌%◌, ◌<◌, ◌≤◌, ◌≡◌, refl, sym, ap, subst, arith,
  if◌then◌else◌, ltb, leb, ◌==◌, Bool, true, false, not, ◌&&◌, ◌||◌, Option, some, none, List, [],
  ◌∷◌, ◌++◌, length, Bool-cases, Option-cases, inl, inr, length-append, drop, replicate,
}
use pc.Base.Int.{ℤ, pos, negsuc}
use pc.App.Net.Hex.{
  c2i, str_to_hex, hex_digit, to_text, AllBytes, str_to_hex-to_text, c2i-hex_digit,
}
use pc.App.Net.Bits.{four_nibbles}

-- What `eg_tcp_main_proc` prints.
pub data Printed : Type 0 where
  connected connect_failed sends_to_usb nothing : Printed

abbrev pub is_null : List ℕ → Bool
is_null [] = true
is_null (b ∷ bs) = b == 0

-- `CMD_CONNECT` and `CMD_POLL`; for `CMD_ACL_DL` and any other command nothing is done.
abbrev pub is_command : ℤ → ℕ → Bool
is_command (pos n) c = n == c
is_command (negsuc n) c = false

unfoldable pub eg_tcp_main_proc : ℤ → List ℕ → Printed
eg_tcp_main_proc cmd array =
    if is_command cmd 1
    then if is_null array then connected else connect_failed
    else if is_command cmd 5
    then sends_to_usb
    else nothing

-- `0x00ff & v` and `a | v`, for a `v` that may be negative
abbrev pub low_byte : ℤ → ℕ
low_byte (pos n) = n % 256
low_byte (negsuc n) = 255 - n % 256

abbrev pub or_int : ℕ → ℤ → ℤ
or_int a (pos n) = pos (bit_or a n)
or_int a (negsuc n) = negsuc (n - bit_and n a)

-- The length that four characters say.
unfoldable pub data_len : ℕ → ℕ → ℕ → ℕ → ℤ
data_len b10 b11 b12 b13 =
    or_int
      (bit_or (bit_or (low_byte (c2i b10) * 4096) (low_byte (c2i b11) * 256))
        (low_byte (c2i b12) * 16))
      (c2i b13)

-- `getByte[9] - '0'`, as a `char`
abbrev pub command : ℕ → ℤ
command b = let n = (b + 208) % 256 in if ltb n 128 then pos n else negsuc (255 - n)

-- The bytes that are copied over the start of an array.
abbrev pub overwrite : List ℕ → List ℕ → List ℕ
overwrite new old = new ++ drop (length new) old

-- What a round of the loop comes to.
pub data Round : Type 0 where
  -- no header, a wrong one, or no data: the round is over
  header_error bad_head data_error : Round
  -- it writes past the end of an array
  overruns : Round
  -- the call of `eg_tcp_main_proc`: the command, the array and the length
  handles : ℤ → List ℕ → ℤ → Round

-- The sizes of `getByte` and `array_data`
abbrev pub get_byte_size : ℕ
get_byte_size = 2048

abbrev pub array_size : ℕ
array_size = 256

-- The second `recv` has filled the start of `getByte`: `StrToHex` is called. A length below zero is no byte.
unfoldable pub decode : ℤ → ℤ → List ℕ → List ℕ → Round
decode cmd (negsuc n) array buffer = handles cmd array (negsuc n)
decode cmd (pos len) array buffer = elim (str_to_hex len buffer) [
  | some bytes ↦
      if ltb array_size len then overruns else handles cmd (overwrite bytes array) (pos len)
  | none ↦ overruns
]

-- `len*2 + 8`, where the length is at least -1
abbrev pub asked : ℤ → ℕ
asked (pos n) = n * 2 + 8
asked (negsuc n) = 8 - (suc n) * 2

unfoldable pub read_data : ℤ → ℤ → List ℕ → List ℕ → (ℕ → Option (List ℕ)) → Round
unfolding decode
read_data cmd len array buffer recv = elim (recv (asked len)) [
  | none ↦ data_error
  | some got ↦
      if ltb get_byte_size (length got)
      then overruns
      else decode cmd len array (overwrite got buffer)
]

-- `MSG_HEAD_str`
abbrev pub msg_head : List ℕ
msg_head = 48 ∷ 49 ∷ 48 ∷ 49 ∷ 48 ∷ 49 ∷ 48 ∷ 49 ∷ []

-- `memcmp (getByte, MSG_HEAD_str, strlen (MSG_HEAD_str)) == 0`
abbrev pub starts_with : List ℕ → List ℕ → Bool
starts_with [] bs = true
starts_with (x ∷ xs) [] = false
starts_with (x ∷ xs) (b ∷ bs) = x == b && starts_with xs bs

-- `getByte[i]`
abbrev pub byte_at : List ℕ → ℕ → ℕ
byte_at [] i = 0
byte_at (b ∷ bs) zero = b
byte_at (b ∷ bs) (suc i) = byte_at bs i

-- A round that has read some bytes of a header into `getByte`.
unfoldable pub read_head : List ℕ → List ℕ → ℕ → (ℕ → Option (List ℕ)) → Round
unfolding read_data data_len
read_head array buffer ret recv =
    if not (ret == 14) || not (starts_with msg_head buffer)
    then bad_head
    else read_data (command (byte_at buffer 9))
        (data_len (byte_at buffer 10) (byte_at buffer 11) (byte_at buffer 12) (byte_at buffer 13))
        array buffer recv

-- One round of `net_thread_entry`: the array that the last round left, what the first `recv` gives, and what
-- the second gives for the number of bytes that it is asked.
unfoldable pub net_round : List ℕ → Option (List ℕ) → (ℕ → Option (List ℕ)) → Round
unfolding read_head
net_round array none recv = header_error
net_round array (some header) recv =
    read_head array (overwrite header (replicate get_byte_size 0)) (length header) recv

-- The answers of the two calls of `recv`, round after round, and what is printed until a round writes past the
-- end of an array.
unfoldable pub net_thread_entry :
    List ℕ → List (Option (List ℕ) × (ℕ → Option (List ℕ))) → List Printed
unfolding net_round eg_tcp_main_proc
net_thread_entry array [] = []
net_thread_entry array (answers ∷ later) = elim (net_round array answers.0 answers.1) [
  | handles cmd array' len ↦ eg_tcp_main_proc cmd array' ∷ net_thread_entry array' later
  | overruns ↦ []
  | _ ↦ net_thread_entry array later
]

-- The header of a frame: the byte `b8` is any, the command is a digit, and the length is four digits.
abbrev pub frame_head : Bool → ℕ → ℕ → ℕ → List ℕ
frame_head upper b8 c n =
    msg_head
    ++ b8
      ∷ (48 + c)
      ∷ hex_digit upper (n / 4096)
      ∷ hex_digit upper (n / 256 % 16)
      ∷ hex_digit upper (n / 16 % 16)
      ∷ hex_digit upper (n % 16)
      ∷ []
