-- ===== src/App/Net/Hex.antt =====
-- `c2i` and `StrToHex` of app/sys/eg_net.c. A character is its code, from 0 to 255.
use pc.Base.{
  ℕ, zero, suc, ◌+◌, ◌-◌, ◌*◌, ◌/◌, ◌%◌, ◌<◌, ◌≡◌, refl, arith, if◌then◌else◌, ltb, leb, Bool, ◌&&◌,
  ◌||◌, Option, some, none, List, [], ◌∷◌, length,
}
use pc.Base.Int.{ℤ, pos, negsuc}

-- `isdigit`, `isupper` and `isalpha`, for ASCII
abbrev pub is_digit : ℕ → Bool
is_digit ch = leb 48 ch && leb ch 57

abbrev pub is_upper : ℕ → Bool
is_upper ch = leb 65 ch && leb ch 90

abbrev pub is_lower : ℕ → Bool
is_lower ch = leb 97 ch && leb ch 122

abbrev pub is_alpha : ℕ → Bool
is_alpha ch = is_upper ch || is_lower ch

abbrev pub to_upper : ℕ → ℕ
to_upper ch = if is_lower ch then ch - 32 else ch

unfoldable pub c2i : ℕ → ℤ
c2i ch =
    if is_digit ch
    then pos (ch - 48)
    else if ltb ch 65 || ((ltb 70 ch && ltb ch 97) || ltb 122 ch)
    then negsuc 0
    else if is_alpha ch
    then if is_upper ch then pos (ch - 55) else pos (ch - 87)
    else negsuc 0

-- `s1` and `s2`, of type `unsigned char`
abbrev pub nibble : ℕ → ℕ
nibble ch = let s = (to_upper ch + 208) % 256 in if ltb 9 s then (s + 249) % 256 else s

-- `StrToHex`, for `nLen` bytes of the source; `none`: it reads past the end of the source
unfoldable pub str_to_hex : ℕ → List ℕ → Option (List ℕ)
str_to_hex zero src = some []
str_to_hex (suc n) (h1 ∷ h2 ∷ src) = elim (str_to_hex n src) [
  | some rest ↦ some ((nibble h1 * 16 + nibble h2) % 256 ∷ rest)
  | none ↦ none
]
str_to_hex (suc n) (h ∷ []) = none
str_to_hex (suc n) [] = none

-- The digit of a number below 16, in upper or lower case.
abbrev pub hex_digit : Bool → ℕ → ℕ
hex_digit upper d = if ltb d 10 then 48 + d else if upper then 55 + d else 87 + d

-- The text of some bytes.
abbrev pub to_text : Bool → List ℕ → List ℕ
to_text upper [] = []
to_text upper (b ∷ bs) = hex_digit upper (b / 16) ∷ hex_digit upper (b % 16) ∷ to_text upper bs

abbrev pub AllBytes : List ℕ → Type 0
AllBytes [] = Unit {0}
AllBytes (b ∷ bs) = (b < 256) × AllBytes bs

nibble-hex_digit : (upper : Bool) (d : ℕ) → d < 16 → nibble (hex_digit upper d) ≡ d
nibble-hex_digit upper d h = ground arith

-- The hexadecimal text of some bytes, in upper or in lower case, is decoded to the same bytes.
pub str_to_hex-to_text :
    (upper : Bool) (bs : List ℕ) → AllBytes bs → str_to_hex (length bs) (to_text upper bs) ≡ some bs
unfolding str_to_hex
str_to_hex-to_text upper [] h = refl
str_to_hex-to_text upper (b ∷ bs) h = ground (
  arith,
  str_to_hex-to_text upper bs h.1,
  nibble-hex_digit upper (b / 16),
  nibble-hex_digit upper (b % 16),
)

-- A digit is read as it is written.
pub c2i-hex_digit : (upper : Bool) (d : ℕ) → d < 16 → c2i (hex_digit upper d) ≡ pos d
unfolding c2i
c2i-hex_digit upper d h = ground arith
