-- ===== src/App/Usb/Clock.antt =====
-- `get_sys_time` of app/sys/eg_usbto322.c: the frame that tells a reader the time of day. A byte is a number below
-- 256, and the memory of `time_acs` is the list of its bytes; what is written past its 17 bytes makes the list longer.
use pc.Base.{
  ◌∙◌, ℕ, zero, suc, ◌+◌, ◌-◌, ◌*◌, ◌/◌, ◌%◌, ◌<◌, ◌≡◌, refl, sym, ap, subst, arith, if◌then◌else◌,
  ltb, Bool, true, false, Option, some, none, List, [], ◌∷◌, ◌++◌, length, take, drop, replicate,
  Bool-cases, inl, inr,
}

-- What `localtime` gives, of `struct tm`. The year is from 1900 on.
pub record Tm : Type 0 where
  pub tm_year : ℕ
  pub tm_mon : ℕ
  pub tm_mday : ℕ
  pub tm_wday : ℕ
  pub tm_hour : ℕ
  pub tm_min : ℕ

-- The digits of an `int`, of which there are at most ten.
unfoldable pub digits : ℕ → ℕ → List ℕ
digits zero n = []
digits (suc fuel) n =
    let rest = digits fuel (n / 10) in
    if ltb n 10 then (48 + n) ∷ [] else rest ++ (48 + n % 10) ∷ []

-- `%02d` and `%04d`, for the width 2 or 4
unfoldable pub padded : ℕ → ℕ → List ℕ
unfolding digits
padded width n = replicate (width - length (digits 10 n)) 48 ++ digits 10 n

-- `ascDay`, its high byte and its low byte: the sign for the day, in GBK, or two spaces
abbrev pub day_code : ℕ → ℕ × ℕ
day_code zero = (0xC8, 0xD5)
day_code (suc zero) = (0xD2, 0xBB)
day_code (suc (suc zero)) = (0xB6, 0xFE)
day_code (suc (suc (suc zero))) = (0xC8, 0xFD)
day_code (suc (suc (suc (suc zero)))) = (0xCB, 0xC4)
day_code (suc (suc (suc (suc (suc zero))))) = (0xCE, 0xE5)
day_code (suc (suc (suc (suc (suc (suc zero)))))) = (0xC1, 0xF9)
day_code _ = (0x20, 0x20)

-- A `short` in memory, on a machine that stores the low byte first, or on one that does not.
abbrev pub short_bytes : Bool → ℕ × ℕ → List ℕ
short_bytes little (high, low) = if little then low ∷ high ∷ [] else high ∷ low ∷ []

-- The bytes are written from an index on.
abbrev pub write_at : ℕ → List ℕ → List ℕ → List ℕ
write_at i bytes mem = take i mem ++ bytes ++ drop (i + length bytes) mem

-- The text with its null, as `sprintf` writes it.
abbrev pub text_date : Tm → List ℕ
text_date t =
    padded 4 (t.tm_year + 1900) ++ 47 ∷ padded 2 (t.tm_mon + 1) ++ 47 ∷ padded 2 t.tm_mday ++ 0 ∷ []

abbrev pub text_time : Tm → List ℕ
text_time t = padded 2 t.tm_hour ++ 58 ∷ padded 2 t.tm_min ++ 0 ∷ []

-- `time_head`
abbrev pub time_head : List ℕ
time_head = 0x80 ∷ 0xA0 ∷ 0x00 ∷ 0x00 ∷ 0x18 ∷ 0x80 ∷ 0x34 ∷ 0x00 ∷ 0x00 ∷ 0x13 ∷ []

-- `time_acs` after all the writes
unfoldable pub time_acs : Bool → Tm → List ℕ
unfolding padded
time_acs little t = write_at 12 (text_time t) (
    write_at 10 (short_bytes little (day_code t.tm_wday))
      (write_at 0 (text_date t) (replicate 17 0)))

-- `get_sys_time`: what is copied to `time_ptr`, if that is not NULL. The result is 0 always.
unfoldable pub get_sys_time : Bool → Tm → Bool → Option (List ℕ)
unfolding time_acs
get_sys_time little t has_ptr =
    if has_ptr then some (time_head ++ take 17 (time_acs little t)) else none

-- The number that digits say.
abbrev pub number : List ℕ → ℕ → ℕ
number [] n = n
number (d ∷ ds) n = number ds (n * 10 + (d - 48))

-- The number at some bytes of a frame.
abbrev pub number_at : ℕ → ℕ → List ℕ → ℕ
number_at i len frame = number (take len (drop i frame)) 0

digits_last : (fuel n : ℕ) → n < 10 → digits (suc fuel) n ≡ (48 + n) ∷ []
unfolding digits
digits_last fuel n h = ground arith

digits_more :
    (fuel n : ℕ)
    → ltb n 10 ≡ false
    → digits (suc fuel) n ≡ digits fuel (n / 10) ++ (48 + n % 10) ∷ []
unfolding digits
digits_more fuel n h = rw h refl

two_eq : (n : ℕ) → n < 10 → 48 ∷ (48 + n) ∷ [] ≡ (48 + n / 10) ∷ (48 + n % 10) ∷ []
two_eq n h = same_two (omega arith) (omega arith)
  where
    same_two : {a b c d : ℕ} → a ≡ c → b ≡ d → a ∷ b ∷ [] ≡ c ∷ d ∷ []
    same_two {a} {b} {c} {d} p q = ap (λ x. x ∷ b ∷ []) p ∙ ap (λ y. c ∷ y ∷ []) q

padded_two : (n : ℕ) → n < 100 → padded 2 n ≡ (48 + n / 10) ∷ (48 + n % 10) ∷ []
unfolding padded
padded_two n h = elim (Bool-cases (ltb n 10)) [
  | inl e ↦ rw (digits_last 9 n (ground arith)) (two_eq n (ground arith))
  | inr e ↦ rw (digits_more 9 n e, digits_last 8 (n / 10) (ground arith)) refl
]

-- Of a year with four digits.
padded_four :
    (n : ℕ)
    → 999 < n
    → n < 10000
    → padded 4 n
      ≡ (48 + n / 10 / 10 / 10) ∷ (48 + n / 10 / 10 % 10) ∷ (48 + n / 10 % 10) ∷ (48 + n % 10) ∷ []
unfolding padded
padded_four n lo hi =
    rw
      (
        digits_more 9 n (ground arith),
        digits_more 8 (n / 10) (ground arith),
        digits_more 7 (n / 10 / 10) (ground arith),
        digits_last 6 (n / 10 / 10 / 10) (omega arith),
      )
      refl

short_two : (little : Bool) (p : ℕ × ℕ) → (a : ℕ) × (b : ℕ) × (short_bytes little p ≡ a ∷ b ∷ [])
short_two true (high, low) = (low, high, refl)
short_two false (high, low) = (high, low, refl)

-- A day and a time of which every number has its digits.
pub record IsDay (t : Tm) : Type 0 where
  pub year : t.tm_year < 8100
  pub mon : t.tm_mon < 12
  pub mday : t.tm_mday < 32
  pub hour : t.tm_hour < 24
  pub min : t.tm_min < 60

-- The memory, byte by byte.
abbrev laid_out : Tm → ℕ → ℕ → List ℕ
laid_out t a b =
    let y = t.tm_year + 1900 in
    let m = t.tm_mon + 1 in
    (48 + y / 10 / 10 / 10)
    ∷ (48 + y / 10 / 10 % 10)
    ∷ (48 + y / 10 % 10)
    ∷ (48 + y % 10)
    ∷ 47
    ∷ (48 + m / 10)
    ∷ (48 + m % 10)
    ∷ 47
    ∷ (48 + t.tm_mday / 10)
    ∷ (48 + t.tm_mday % 10)
    ∷ a
    ∷ b
    ∷ (48 + t.tm_hour / 10)
    ∷ (48 + t.tm_hour % 10)
    ∷ 58
    ∷ (48 + t.tm_min / 10)
    ∷ (48 + t.tm_min % 10)
    ∷ 0
    ∷ []

time_acs-laid_out :
    (little : Bool) (t : Tm) (a b : ℕ)
    → IsDay t
    → short_bytes little (day_code t.tm_wday) ≡ a ∷ b ∷ []
    → time_acs little t ≡ laid_out t a b
unfolding time_acs
time_acs-laid_out little t a b d e =
    rw
      (
        e,
        padded_four (t.tm_year + 1900) (omega (arith, d.year)) (omega (arith, d.year)),
        padded_two (t.tm_mon + 1) (omega (arith, d.mon)),
        padded_two t.tm_mday (omega (arith, d.mday)),
        padded_two t.tm_hour (omega (arith, d.hour)),
        padded_two t.tm_min (omega (arith, d.min)),
      )
      refl

-- What a reader finds in the frame.
pub record Tells (t : Tm) (frame : List ℕ) : Type 0 where
  pub size : length frame ≡ 27
  pub year : number_at 10 4 frame ≡ t.tm_year + 1900
  pub month : number_at 15 2 frame ≡ t.tm_mon + 1
  pub day : number_at 18 2 frame ≡ t.tm_mday
  pub hour : number_at 22 2 frame ≡ t.tm_hour
  pub minute : number_at 25 2 frame ≡ t.tm_min

laid_out-Tells : (t : Tm) (a b : ℕ) → IsDay t → Tells t (time_head ++ take 17 (laid_out t a b))
laid_out-Tells t a b d = record {
  size = refl;
  year = omega (arith, d.year);
  month = omega (arith, d.mon);
  day = omega (arith, d.mday);
  hour = omega (arith, d.hour);
  minute = omega (arith, d.min);
}

-- For a year from 1900 to 9999, and a month, day, hour and minute in their ranges, the frame with the
-- time of day has 27 bytes, and the year, the month from 1 on, the day, the hour and the minute are
-- read back from its digits; and one byte is written past the 17 bytes of the local array, whichever
-- byte of a short the machine stores first.
pub get_sys_time-Tells :
    (little : Bool) (t : Tm) (frame : List ℕ)
    → IsDay t
    → get_sys_time little t true ≡ some frame
    → (length (time_acs little t) ≡ 18) × Tells t frame
unfolding get_sys_time
get_sys_time-Tells little t frame d e =
    let (a, b, f) = short_two little (day_code t.tm_wday) in
    let laid = time_acs-laid_out little t a b d f in
    (
      ap (λ xs. length xs) laid,
      subst (Tells t) (ap (λ xs. time_head ++ take 17 xs) (sym laid) ∙ copied)
          (laid_out-Tells t a b d),
    )
  where
    copied : time_head ++ take 17 (time_acs little t) ≡ frame
    copied = cc
