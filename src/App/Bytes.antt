-- ===== src/App/Bytes.antt =====
-- The order of bytes: `cv_ntohs`, `cv_ntohl` and `cv_ntohf` of include/cv_cms_def.h. A number in memory is the list
-- of its bytes, the lowest first.
use pc.Base.{
  ap, subst, ◌∙◌, append_nil, ℕ, zero, suc, ◌+◌, ◌*◌, ◌/◌, ◌%◌, ◌<◌, ◌≡◌, refl, arith,
  if◌then◌else◌, Bool, true, Option, some, none, List, [], ◌∷◌, ◌++◌, length,
}

-- The bytes of a number of `n` bytes.
abbrev pub bytes_of : ℕ → ℕ → List ℕ
bytes_of zero x = []
bytes_of (suc n) x = x % 256 ∷ bytes_of n (x / 256)

abbrev pub number_of : List ℕ → ℕ
number_of [] = 0
number_of (b ∷ bs) = b + 256 * number_of bs

-- The statements `*d-- = *s++`, one for each byte of `s`, where `d` starts at the last byte: what is written, from
-- the place that `d` has reached on
unfoldable pub write_down : List ℕ → List ℕ → List ℕ
write_down [] written = written
write_down (b ∷ s) written = write_down s (b ∷ written)

-- `cv_ntohs`. Without `__LITTLE_ENDIAN` the pointers have no value: `none`.
unfoldable pub cv_ntohs : Bool → ℕ → Option ℕ
unfolding write_down
cv_ntohs little s16 = if little then some (number_of (write_down (bytes_of 2 s16) [])) else none

-- `cv_ntohl`
unfoldable pub cv_ntohl : Bool → ℕ → Option ℕ
unfolding write_down
cv_ntohl little l32 = if little then some (number_of (write_down (bytes_of 4 l32) [])) else none

-- `cv_ntohf`, on the bytes of the `float`
unfoldable pub cv_ntohf : Bool → ℕ → Option ℕ
unfolding write_down
cv_ntohf little f32 = if little then some (number_of (write_down (bytes_of 4 f32) [])) else none

-- The number that a sequence of bytes spells in network order, the highest first, after those before.
abbrev pub network : List ℕ → ℕ → ℕ
network [] before = before
network (b ∷ bs) before = network bs (b + 256 * before)

abbrev pub AllBytes : List ℕ → Type 0
AllBytes [] = Unit {0}
AllBytes (b ∷ bs) = (b < 256) × AllBytes bs

number_of-write_down :
    (s written : List ℕ) → number_of (write_down s written) ≡ network s (number_of written)
unfolding write_down
number_of-write_down [] written = refl
number_of-write_down (b ∷ s) written = number_of-write_down s (b ∷ written)

bytes_of-number_of : (bs : List ℕ) → AllBytes bs → bytes_of (length bs) (number_of bs) ≡ bs
bytes_of-number_of [] h = refl
bytes_of-number_of (b ∷ bs) (lt, h) =
    let low : (b + 256 * number_of bs) % 256 ≡ b = omega (arith, lt) in
    let high : (b + 256 * number_of bs) / 256 ≡ number_of bs = omega (arith, lt) in
    rw (low, high, bytes_of-number_of bs h) refl

-- The bytes of a number, turned round, spell it in network order.
swapped :
    (bs : List ℕ)
    → AllBytes bs
    → number_of (write_down (bytes_of (length bs) (number_of bs)) []) ≡ network bs 0
swapped bs h = rw (bytes_of-number_of bs h) (number_of-write_down bs [])

-- Where __LITTLE_ENDIAN is defined, cv_ntohs and cv_ntohl of the number whose bytes in memory are the
-- given ones, the lowest first, give the number that these bytes spell in network order, the highest
-- first.
pub cv_ntoh-network :
    (a b c d : ℕ)
    → a < 256
    → b < 256
    → c < 256
    → d < 256
    → (cv_ntohs true (number_of (a ∷ b ∷ [])) ≡ some (a * 256 + b))
      × (cv_ntohl true (number_of (a ∷ b ∷ c ∷ d ∷ []))
          ≡ some (((a * 256 + b) * 256 + c) * 256 + d))
unfolding cv_ntohs cv_ntohl
cv_ntoh-network a b c d ha hb hc hd =
    let two : network (a ∷ b ∷ []) 0 ≡ a * 256 + b = omega arith in
    let four : network (a ∷ b ∷ c ∷ d ∷ []) 0 ≡ ((a * 256 + b) * 256 + c) * 256 + d = omega arith in
    (
      ap some (swapped (a ∷ b ∷ []) (ha, (hb, tt)) ∙ two),
      ap some (swapped (a ∷ b ∷ c ∷ d ∷ []) (ha, (hb, (hc, (hd, tt)))) ∙ four),
    )

-- Turned round twice, the bytes are as they were.
write_down-twice :
    (s written more : List ℕ)
    → write_down (write_down s written) more ≡ write_down written (s ++ more)
unfolding write_down
write_down-twice [] written more = refl
write_down-twice (b ∷ s) written more = write_down-twice s (b ∷ written) more

write_down-AllBytes :
    (s written : List ℕ) → AllBytes s → AllBytes written → AllBytes (write_down s written)
unfolding write_down
write_down-AllBytes [] written h w = w
write_down-AllBytes (b ∷ s) written (lt, h) w = write_down-AllBytes s (b ∷ written) h (lt, w)

bytes_of-AllBytes : (n x : ℕ) → AllBytes (bytes_of n x)
bytes_of-AllBytes zero x = tt
bytes_of-AllBytes (suc n) x = (omega arith, bytes_of-AllBytes n (x / 256))

length-write_down : (s written : List ℕ) → length (write_down s written) ≡ length s + length written
unfolding write_down
length-write_down [] written = omega arith
length-write_down (b ∷ s) written = omega (arith, length-write_down s (b ∷ written))

length-bytes_of : (n x : ℕ) → length (bytes_of n x) ≡ n
length-bytes_of zero x = refl
length-bytes_of (suc n) x = ap suc (length-bytes_of n (x / 256))

-- Swapping twice gives the number that its bytes spell.
swapped_twice :
    (n x : ℕ)
    → number_of (write_down (bytes_of n (number_of (write_down (bytes_of n x) []))) [])
      ≡ number_of (bytes_of n x)
swapped_twice n x =
    let turned = write_down (bytes_of n x) [] in
    let long : length turned ≡ n =
      omega (arith, length-write_down (bytes_of n x) [], length-bytes_of n x) in
    let back : bytes_of n (number_of turned) ≡ turned =
      subst (λ k. bytes_of k (number_of turned) ≡ turned) long
        (bytes_of-number_of turned
          (write_down-AllBytes (bytes_of n x) [] (bytes_of-AllBytes n x) tt)) in
    ap number_of (
      ap (λ bs. write_down bs []) back
      ∙ write_down-twice (bytes_of n x) [] []
      ∙ unfold write_down in append_nil (bytes_of n x))

-- x
pub cv_ntohl-involutive :
    (x : ℕ) → x < 4294967296 → (y : ℕ) × ((cv_ntohl true x ≡ some y) × (cv_ntohl true y ≡ some x))
unfolding cv_ntohl
cv_ntohl-involutive x h =
    let whole : number_of (bytes_of 4 x) ≡ x = omega (arith, h) in
    (number_of (write_down (bytes_of 4 x) []), (refl, ap some (swapped_twice 4 x ∙ whole)))
