-- ===== src/App/Usb.antt =====
-- The readers on USB ports, app/sys/eg_usbto322.c: the table of ports, the list of devices and the timer
-- callback that moves a reader's state.
pub mod Devices
pub mod Clock
pub mod Init
pub mod Threads
use pc.Base.{
  ap, subst, ℕ, zero, suc, ◌+◌, ◌-◌, ◌%◌, ◌≤◌, same, same_eq, same_refl, ◌<◌, ◌≡◌, ◌↔◌, refl, arith,
  if◌then◌else◌, ltb, leb, ◌==◌, Bool, true, false, ◌&&◌, Option, some, none, List, [], ◌∷◌, length,
  get_elem?,
}

-- `E_USB_COMM_STATE`
pub data UsbState : Type 0 where
  idle : UsbState
  init : UsbState
  poll : UsbState
  cfg : UsbState
  push : UsbState
  transfer : UsbState
  acl : UsbState
  invalid : UsbState
  log : UsbState

-- The fields of `usb_ccid_322_t` that the callback reads; the counters are `uint8_t`.
pub record Reader : Type 0 where
  pub usb_state : UsbState
  pub toggle : ℕ
  pub toggle_transmit : ℕ

-- `if (toggle >= 10) … else …` of `timer_usb_callback`, in the idle state
abbrev pub from_idle : Reader → Reader
from_idle r =
    if leb 10 r.toggle
    then record r { toggle = 0; usb_state = push }
    else record r { toggle = (r.toggle + 1) % 256; usb_state = poll }

-- Its counter in the transfer state
abbrev pub in_transfer : Reader → Reader
in_transfer r =
    if leb 8 r.toggle_transmit
    then record r { toggle_transmit = 0 }
    else record r { toggle_transmit = (r.toggle_transmit + 1) % 256 }

-- `timer_usb_callback`
unfoldable pub timer_usb_callback : Reader → Reader
timer_usb_callback r = elim r.usb_state [ idle ↦ from_idle r | transfer ↦ in_transfer r | _ ↦ r ]

-- `usb_port_def`: "1-1.2", "1-1.3", "1-1.4" and "1-1.5"
abbrev pub usb_port_def : List (List ℕ)
usb_port_def =
    (49 ∷ 45 ∷ 49 ∷ 46 ∷ 50 ∷ [])
    ∷ (49 ∷ 45 ∷ 49 ∷ 46 ∷ 51 ∷ [])
    ∷ (49 ∷ 45 ∷ 49 ∷ 46 ∷ 52 ∷ [])
    ∷ (49 ∷ 45 ∷ 49 ∷ 46 ∷ 53 ∷ [])
    ∷ []

-- The loop of `alloc_322_index`, from the index `i` on
unfoldable pub find_port : List ℕ → ℕ → List (List ℕ) → Option ℕ
find_port name i [] = none
find_port name i (p ∷ ps) =
    let rest = find_port name (suc i) ps in if same p name then some i else rest

-- `alloc_322_index`: `none` is -1
unfoldable pub alloc_322_index : List ℕ → Option ℕ
unfolding find_port
alloc_322_index name = find_port name 0 usb_port_def

-- The callback, called `n` times, with the reader put back into the idle state by its thread before each.
abbrev pub idle_rounds : ℕ → Reader → Reader
idle_rounds zero r = r
idle_rounds (suc n) r = timer_usb_callback (record (idle_rounds n r) { usb_state = idle })

some_inj : {x y : List ℕ} → some x ≡ some y → x ≡ y
some_inj {x} h = ap (λ o. elim o [ some z ↦ z | none ↦ x ]) h

port-found :
    (name : List ℕ) (i : ℕ) → get_elem? usb_port_def i ≡ some name → alloc_322_index name ≡ some i
unfolding alloc_322_index
port-found name zero h = subst (λ n. alloc_322_index n ≡ some 0) (some_inj h) refl
port-found name (suc zero) h = subst (λ n. alloc_322_index n ≡ some 1) (some_inj h) refl
port-found name (suc (suc zero)) h = subst (λ n. alloc_322_index n ≡ some 2) (some_inj h) refl
port-found name (suc (suc (suc zero))) h = subst (λ n. alloc_322_index n ≡ some 3) (some_inj h) refl
port-found name (suc (suc (suc (suc i)))) h = ground arith

port-named :
    (name : List ℕ) (i : ℕ) → alloc_322_index name ≡ some i → get_elem? usb_port_def i ≡ some name
unfolding alloc_322_index
port-named name i h = ground (
  arith,
  same_eq (49 ∷ 45 ∷ 49 ∷ 46 ∷ 50 ∷ []) name,
  same_eq (49 ∷ 45 ∷ 49 ∷ 46 ∷ 51 ∷ []) name,
  same_eq (49 ∷ 45 ∷ 49 ∷ 46 ∷ 52 ∷ []) name,
  same_eq (49 ∷ 45 ∷ 49 ∷ 46 ∷ 53 ∷ []) name,
)

-- Of a reader whose count starts at 0 and that is idle again before each call, the timer callback keeps
-- the number of calls modulo 11 in the count, and moves the reader to the push state at every eleventh
-- call and to the poll state at every other.
pub timer_usb_callback-rounds :
    (n : ℕ) (r : Reader)
    → r.toggle ≡ 0
    → ((idle_rounds n r).toggle ≡ n % 11)
      × (0 < n → (idle_rounds n r).usb_state ≡ (if n % 11 == 0 then push else poll))
unfolding timer_usb_callback
timer_usb_callback-rounds zero r e = (e, λ h. absurd (omega arith))
timer_usb_callback-rounds (suc n) r e =
    let ih = timer_usb_callback-rounds n r e in ground (arith, ih.0)

-- The timer callback keeps a reader's count at most 10 and its count of transfers at most 8.
pub timer_usb_callback-bounds :
    (r : Reader)
    → r.toggle ≤ 10
    → r.toggle_transmit ≤ 8
    → ((timer_usb_callback r).toggle ≤ 10) × ((timer_usb_callback r).toggle_transmit ≤ 8)
unfolding timer_usb_callback
timer_usb_callback-bounds r h k = ground arith

-- The search for a port gives an index exactly when the table of ports has the name at this index.
pub alloc_322_index-get_elem? :
    (name : List ℕ) (i : ℕ)
    → (alloc_322_index name ≡ some i) ↔ (get_elem? usb_port_def i ≡ some name)
alloc_322_index-get_elem? name i = (port-named name i, port-found name i)
