-- ===== src/App/Net/Frame/Rounds.antt =====
-- What the rounds of the network thread do with a frame.
use pc.Base.{
  ◌∙◌, ℕ, zero, suc, ◌+◌, ◌*◌, ◌/◌, ◌%◌, ◌<◌, ◌≤◌, ◌≡◌, refl, ap, arith, Bool, Option, some, none,
  List, [], ◌∷◌, ◌++◌, length, Option-cases, inl, inr, length-append, drop, replicate,
}
use pc.Base.Int.{ℤ, pos}
use pc.App.Net.Hex.{str_to_hex, hex_digit, to_text, AllBytes, str_to_hex-to_text, c2i-hex_digit}
use pc.App.Net.Bits.{four_nibbles}
use pc.App.Net.Frame.{
  data_len, command, overwrite, overruns, handles, get_byte_size, decode, read_data, read_head,
  net_round, frame_head,
}

data_len-hex :
    (upper : Bool) (n : ℕ)
    → n < 65536
    → data_len
        (hex_digit upper (n / 4096))
        (hex_digit upper (n / 256 % 16))
        (hex_digit upper (n / 16 % 16))
        (hex_digit upper (n % 16))
      ≡ pos n
unfolding data_len
data_len-hex upper n h =
    rw
      (
        c2i-hex_digit upper (n / 4096) (omega arith),
        c2i-hex_digit upper (n / 256 % 16) (omega arith),
        c2i-hex_digit upper (n / 16 % 16) (omega arith),
        c2i-hex_digit upper (n % 16) (omega arith),
      )
      (rw
        (
          small (n / 4096) (omega arith),
          small (n / 256 % 16) (omega arith),
          small (n / 16 % 16) (omega arith),
        )
        (ap pos (
          four_nibbles (n / 4096) (n / 256 % 16) (n / 16 % 16) (n % 16) (omega arith) (omega arith)
            (omega arith)
          ∙ omega arith)))
  where
    small : (d : ℕ) → d < 16 → d % 256 ≡ d
    small d lt = omega arith

command-digit : (c : ℕ) → c < 10 → command (48 + c) ≡ pos c
command-digit c h = ground arith

str_to_hex-more :
    (n : ℕ) (src more bs : List ℕ)
    → str_to_hex n src ≡ some bs
    → str_to_hex n (src ++ more) ≡ some bs
unfolding str_to_hex
str_to_hex-more zero src more bs e = e
str_to_hex-more (suc n) [] more bs e = absurd (cc)
str_to_hex-more (suc n) (h ∷ []) more bs e = absurd (cc)
str_to_hex-more (suc n) (h1 ∷ h2 ∷ src) more bs e = elim (Option-cases (str_to_hex n src)) [
  | inl q ↦ let z : none ≡ some bs = rw q at e in absurd (cc)
  | inr (rest, q) ↦ rw (str_to_hex-more n src more rest q) (rw q at e)
]

length-to_text : (upper : Bool) (bs : List ℕ) → length (to_text upper bs) ≡ length bs * 2
length-to_text upper [] = refl
length-to_text upper (b ∷ bs) = omega (arith, length-to_text upper bs)

decode-overruns :
    (cmd : ℤ) (len : ℕ) (array buffer : List ℕ)
    → 256 < len
    → decode cmd (pos len) array buffer ≡ overruns
unfolding decode
decode-overruns cmd len array buffer h = elim (Option-cases (str_to_hex len buffer)) [
  | inl e ↦ rw (e, decode) refl
  | inr (bytes, e) ↦ rw (e, decode) (ground arith)
]

read_data-overruns :
    (cmd : ℤ) (len : ℕ) (array buffer got : List ℕ) (recv : ℕ → Option (List ℕ))
    → 256 < len
    → recv (len * 2 + 8) ≡ some got
    → read_data cmd (pos len) array buffer recv ≡ overruns
unfolding read_data
read_data-overruns cmd len array buffer got recv h e =
    rw (e, read_data, decode-overruns cmd len array (overwrite got buffer) h) (ground arith)

decode-handles :
    (cmd : ℤ) (len : ℕ) (array buffer bs : List ℕ)
    → len ≤ 256
    → str_to_hex len buffer ≡ some bs
    → decode cmd (pos len) array buffer ≡ handles cmd (overwrite bs array) (pos len)
unfolding decode
decode-handles cmd len array buffer bs h e = rw (e, decode) (ground arith)

read_data-handles :
    (cmd : ℤ) (len : ℕ) (array buffer got bs : List ℕ) (recv : ℕ → Option (List ℕ))
    → len ≤ 256
    → length got ≤ 2048
    → str_to_hex len got ≡ some bs
    → recv (len * 2 + 8) ≡ some got
    → read_data cmd (pos len) array buffer recv ≡ handles cmd (overwrite bs array) (pos len)
unfolding read_data
read_data-handles cmd len array buffer got bs recv h fits e r =
    rw
      (
        r,
        read_data,
        decode-handles cmd len array (overwrite got buffer) bs h
            (str_to_hex-more len got (drop (length got) buffer) bs e),
      )
      (ground arith)

-- A well-formed frame is handled, with its bytes at the start of the array.
pub net_round-frame :
    (upper : Bool) (b8 c : ℕ) (bs crc array : List ℕ) (recv : ℕ → Option (List ℕ))
    → c < 10
    → AllBytes bs
    → length bs ≤ 256
    → length crc ≡ 8
    → recv (length bs * 2 + 8) ≡ some (to_text upper bs ++ crc)
    → net_round array (some (frame_head upper b8 c (length bs))) recv
      ≡ handles (pos c) (overwrite bs array) (pos (length bs))
unfolding net_round read_head
net_round-frame upper b8 c bs crc array recv hc ha hl he hr =
    rw (data_len-hex upper (length bs) (omega arith), command-digit c hc)
      (read_data-handles (pos c) (length bs) array
        (overwrite (frame_head upper b8 c (length bs)) (replicate get_byte_size 0))
        (to_text upper bs ++ crc) bs recv hl
        (omega (arith, length-append (to_text upper bs) crc, length-to_text upper bs))
        (str_to_hex-more (length bs) (to_text upper bs) crc bs (str_to_hex-to_text upper bs ha)) hr)

-- A well-formed header with a length from 257 to 65535, after which any data is received, makes the
-- network thread write past the end of an array.
pub net_round-overruns :
    (upper : Bool) (b8 c n : ℕ) (got array : List ℕ) (recv : ℕ → Option (List ℕ))
    → 256 < n
    → n < 65536
    → recv (n * 2 + 8) ≡ some got
    → net_round array (some (frame_head upper b8 c n)) recv ≡ overruns
unfolding net_round read_head
net_round-overruns upper b8 c n got array recv lo hi hr = rw (data_len-hex upper n hi) (
    read_data-overruns (command (48 + c)) n array
      (overwrite (frame_head upper b8 c n) (replicate get_byte_size 0)) got recv lo hr)
