-- ===== src/App/Usb/Threads.antt =====
-- The threads that serve readers in app/sys/eg_usbto322.c: `eg_usb_thread_entry`, whose loop only sleeps in this
-- build, `eg_usb12_thread_entry` to `eg_usb15_thread_entry`, and what `print_rec` and `print_send` print. The
-- reader library is a parameter; the calls made are listed in order.
use pc.Base.{
  ℕ, zero, suc, ◌+◌, ◌≡◌, refl, arith, if◌then◌else◌, Bool, true, false, Option, some, none, List,
  [], ◌∷◌, ◌++◌, map, count_up, take, ◌/◌, ◌%◌, ◌∙◌, Bool-cases, inl, inr,
}
use pc.Base.Int.{ℤ, pos, pos_part, ltb_ℤ}
use pc.App.Net.Hex.{hex_digit}

-- What the reader library answers: to `luareader_connect`, to `luareader_transmit` in each round, with the byte
-- of the output at each place, and to `luareader_pop_value`.
pub record LuaReader : Type 0 where
  pub connect_ret : ℤ
  pub transmit_ret : ℕ → ℤ
  pub output : ℕ → ℕ → ℕ
  pub pop_value_ret : ℤ

pub data Call : Type 0 where
  luareader_new : Call
  luareader_connect : List ℕ → Call
  luareader_transmit : List ℕ → Call
  prints_byte : ℕ → Call
  -- seconds
  sleeps : ℕ → Call
  luareader_disconnect : Call
  luareader_pop_value : Call
  luareader_term : Call

-- From the label `out` on
abbrev pub out : List Call
out = luareader_disconnect ∷ luareader_pop_value ∷ luareader_term ∷ []

-- Some rounds of the loop `while(1)` of `eg_usb_thread_entry`
unfoldable pub sleep_rounds : ℕ → List Call
sleep_rounds zero = []
sleep_rounds (suc n) = sleeps 2 ∷ sleep_rounds n

-- The calls up to the end, or in the first `n` rounds, and the result if there is an end.
unfoldable pub eg_usb_thread_entry : LuaReader → List ℕ → ℕ → List Call × Option ℤ
unfolding sleep_rounds
eg_usb_thread_entry lua usb_port n =
    if ltb_ℤ lua.connect_ret (pos 0)
    then (luareader_new ∷ luareader_connect usb_port ∷ out, some lua.pop_value_ret)
    else (luareader_new ∷ luareader_connect usb_port ∷ sleep_rounds n, none)

-- `lu_test`, and the same bytes as a text
abbrev pub lu_test : List ℕ
lu_test = 0x00 ∷ 0x84 ∷ 0x00 ∷ 0x00 ∷ 0x08 ∷ []

-- Some rounds of the loop of the other threads, from the given one on
unfoldable pub test_rounds : LuaReader → ℕ → ℕ → List Call
test_rounds lua zero round = []
test_rounds lua (suc n) round =
    luareader_transmit lu_test
      ∷ map (λ i. prints_byte (lua.output round i)) (count_up (pos_part (lua.transmit_ret round)) 0)
    ++ sleeps 2 ∷ test_rounds lua n (suc round)

-- A thread for a fixed port
unfoldable pub test_thread_entry : LuaReader → List ℕ → ℕ → List Call × Option ℤ
unfolding test_rounds
test_thread_entry lua port n =
    if ltb_ℤ lua.connect_ret (pos 0)
    then (luareader_new ∷ luareader_connect port ∷ out, some lua.pop_value_ret)
    else (luareader_new ∷ luareader_connect port ∷ test_rounds lua n 0, none)

-- "1-1.2"
unfoldable pub eg_usb12_thread_entry : LuaReader → ℕ → List Call × Option ℤ
unfolding test_thread_entry
eg_usb12_thread_entry lua n = test_thread_entry lua (49 ∷ 45 ∷ 49 ∷ 46 ∷ 50 ∷ []) n

-- "1-1.3"
unfoldable pub eg_usb13_thread_entry : LuaReader → ℕ → List Call × Option ℤ
unfolding test_thread_entry
eg_usb13_thread_entry lua n = test_thread_entry lua (49 ∷ 45 ∷ 49 ∷ 46 ∷ 51 ∷ []) n

-- "1-1.4"
unfoldable pub eg_usb14_thread_entry : LuaReader → ℕ → List Call × Option ℤ
unfolding test_thread_entry
eg_usb14_thread_entry lua n = test_thread_entry lua (49 ∷ 45 ∷ 49 ∷ 46 ∷ 52 ∷ []) n

-- "1-1.5"
unfoldable pub eg_usb15_thread_entry : LuaReader → ℕ → List Call × Option ℤ
unfolding test_thread_entry
eg_usb15_thread_entry lua n = test_thread_entry lua (49 ∷ 45 ∷ 49 ∷ 46 ∷ 53 ∷ []) n

-- What is printed: the length, each byte as two digits, in `print_send` with a space after them, and the end.
unfoldable pub print_bytes : Bool → List ℕ → List ℕ
print_bytes spaced [] = []
print_bytes spaced (b ∷ bs) =
    hex_digit true (b / 16)
    ∷ hex_digit true (b % 16)
    ∷ (if spaced then 32 ∷ print_bytes spaced bs else print_bytes spaced bs)

unfoldable pub print_rec : List ℕ → ℕ → ℕ × List ℕ
unfolding print_bytes
print_rec rec len = (len, print_bytes false (take len rec))

unfoldable pub print_send : List ℕ → ℕ → ℕ × List ℕ
unfolding print_bytes
print_send send len = (len, print_bytes true (take len send))

abbrev pub transmits : List Call → ℕ
transmits [] = 0
transmits (luareader_transmit c ∷ cs) = 1 + transmits cs
transmits (_ ∷ cs) = transmits cs

abbrev pub terms : List Call → ℕ
terms [] = 0
terms (luareader_term ∷ cs) = 1 + terms cs
terms (_ ∷ cs) = terms cs

-- 1 if there is a result, 0 if the thread goes on.
abbrev pub returned : Option ℤ → ℕ
returned none = 0
returned (some r) = 1

sleep_rounds-counts : (n : ℕ) → (transmits (sleep_rounds n) ≡ 0) × (terms (sleep_rounds n) ≡ 0)
unfolding sleep_rounds
sleep_rounds-counts zero = (refl, refl)
sleep_rounds-counts (suc n) = sleep_rounds-counts n

printed-counts :
    (f : ℕ → ℕ) (is : List ℕ) (cs : List Call)
    → (transmits (map (λ i. prints_byte (f i)) is ++ cs) ≡ transmits cs)
      × (terms (map (λ i. prints_byte (f i)) is ++ cs) ≡ terms cs)
printed-counts f [] cs = (refl, refl)
printed-counts f (i ∷ is) cs = printed-counts f is cs

test_rounds-counts :
    (lua : LuaReader) (n round : ℕ)
    → (transmits (test_rounds lua n round) ≡ n) × (terms (test_rounds lua n round) ≡ 0)
unfolding test_rounds
test_rounds-counts lua zero round = (refl, refl)
test_rounds-counts lua (suc n) round =
    let ih = test_rounds-counts lua n (suc round) in
    let p =
      printed-counts (lua.output round) (count_up (pos_part (lua.transmit_ret round)) 0)
        (sleeps 2 ∷ test_rounds lua n (suc round)) in
    (omega (arith, p.0, ih.0), p.1 ∙ ih.1)

-- Of any number of rounds of a reader's thread, and of the threads for the fixed ports: the thread of a
-- reader sends the reader no command; the others send one in each round, or none when they cannot
-- connect; and each gives its context of the reader library back once when it returns, and never while
-- it goes on, and returns only when it cannot connect, with what luareader_pop_value returned.
pub eg_usb_thread_entry-counts :
    (lua : LuaReader) (port : List ℕ) (n : ℕ)
    → let served = eg_usb_thread_entry lua port n in
      let tested = test_thread_entry lua port n in
      ((transmits served.0 ≡ 0) × (terms served.0 ≡ returned served.1))
      × ((transmits tested.0 ≡ (if ltb_ℤ lua.connect_ret (pos 0) then 0 else n))
          × ((terms tested.0 ≡ returned tested.1)
              × ((served.1
                    ≡ (if ltb_ℤ lua.connect_ret (pos 0) then some lua.pop_value_ret else none))
                  × (tested.1
                      ≡ (if ltb_ℤ lua.connect_ret (pos 0) then some lua.pop_value_ret else none)))))
unfolding eg_usb_thread_entry test_thread_entry
eg_usb_thread_entry-counts lua port n = elim (Bool-cases (ltb_ℤ lua.connect_ret (pos 0))) [
  | inl e ↦ rw e ((refl, refl), (refl, (refl, (refl, refl))))
  | inr e ↦ rw e (
    sleep_rounds-counts n,
    ((test_rounds-counts lua n 0).0, ((test_rounds-counts lua n 0).1, (refl, refl))),
  )
]
