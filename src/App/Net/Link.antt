-- ===== src/App/Net/Link.antt =====
-- The state of the connection: `reconnect`, `eg_tcp_send` and `get_netstate` of app/sys/eg_net.c.
use pc.Base.{◌≡◌, refl, arith, if◌then◌else◌, Bool, true, false, not, List, [], ◌∷◌}
use pc.Base.Int.{ℤ, pos, negsuc}

-- What the system answers to one call: whether each function succeeds.
pub record NetOs : Type 0 where
  pub socket_ok : Bool
  pub pton_ok : Bool
  pub connect_ok : Bool
  pub send_ok : Bool

unfoldable pub get_netstate : Bool → ℤ
get_netstate net_state = if net_state then pos 1 else pos 0

-- `reconnect`: the new `net_state`, and the result
unfoldable pub reconnect : NetOs → Bool → Bool × ℤ
reconnect os net_state =
    if not os.socket_ok
    then (net_state, negsuc 0)
    else if not os.pton_ok
    then (net_state, negsuc 0)
    else if not os.connect_ok
    then (false, negsuc 0)
    else (net_state, pos 1)

unfoldable pub eg_tcp_send : NetOs → Bool → Bool × ℤ
unfolding reconnect
eg_tcp_send os net_state =
    if not net_state
    then ((reconnect os net_state).0, negsuc 1)
    else if not os.send_ok
    then (net_state, negsuc 0)
    else (net_state, pos 1)

unfoldable pub check_id_card : NetOs → Bool → Bool × ℤ
unfolding eg_tcp_send
check_id_card os net_state = eg_tcp_send os net_state

-- Calls of `eg_tcp_send`, one after the other: the results
abbrev pub send_all : List NetOs → Bool → List ℤ
send_all [] net_state = []
send_all (os ∷ rest) net_state =
    (eg_tcp_send os net_state).1 ∷ send_all rest (eg_tcp_send os net_state).0

abbrev pub AllLost : List ℤ → Type 0
AllLost [] = Unit {0}
AllLost (r ∷ rs) = (r ≡ negsuc 1) × AllLost rs

-- Once the connection is marked as lost, every later send fails with -2, whatever the system answers,
-- also when connecting again succeeds.
pub eg_tcp_send-lost : (calls : List NetOs) → AllLost (send_all calls false)
unfolding eg_tcp_send reconnect
eg_tcp_send-lost [] = tt
eg_tcp_send-lost (os ∷ rest) = ground (arith, eg_tcp_send-lost rest)

-- What `eg_net_init` leaves: the new `net_state`, whether the network thread is created, and whether the assertion
-- on the task fails.
pub record NetInit : Type 0 where
  pub net_state : Bool
  pub started : Bool
  pub fault : Bool

-- `eg_net_init`; `task_ok` is whether the task can be created.
unfoldable pub eg_net_init : NetOs → Bool → Bool → NetInit
eg_net_init os task_ok net_state =
    if not os.socket_ok
    then record { net_state = net_state; started = false; fault = false }
    else if not os.pton_ok
    then record { net_state = net_state; started = false; fault = false }
    else if not os.connect_ok
    then record { net_state = false; started = false; fault = false }
    else record { net_state = net_state; started = task_ok; fault = not task_ok }

-- When the initialisation has a socket and an address but cannot connect, the network thread is not
-- started and no assertion fails; and every later send fails with -2, whatever the system answers, also
-- when connecting again succeeds.
pub eg_net_init-lost :
    (os : NetOs) (task_ok net_state : Bool) (calls : List NetOs)
    → os.socket_ok ≡ true
    → os.pton_ok ≡ true
    → os.connect_ok ≡ false
    → let made = eg_net_init os task_ok net_state in
      (made.started ≡ false) × ((made.fault ≡ false) × AllLost (send_all calls made.net_state))
unfolding eg_net_init
eg_net_init-lost os task_ok net_state calls s p c =
    rw (s, p, c) (refl, (refl, eg_tcp_send-lost calls))
