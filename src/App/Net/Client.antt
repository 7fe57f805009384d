-- ===== src/App/Net/Client.antt =====
-- `eg_tcp_client` of app/sys/eg_net.c, which the program does not call any more: a client that prints what a server
-- sends.
use pc.Base.{
  ℕ, zero, suc, ◌≡◌, refl, arith, if◌then◌else◌, ltb, Bool, true, false, not, List, [], ◌∷◌, length,
  replicate,
}
use pc.App.Net.Link.{NetOs}

-- MAXDATASIZE, the bytes of the buffer
abbrev pub maxdatasize : ℕ
maxdatasize = 100000

-- What one `recv` gives.
pub data Received : Type 0 where
  -- the result -1
  fails : Received
  -- some bytes: none when the server has closed the connection
  bytes : List ℕ → Received

pub data Client : Type 0 where
  -- `exit`, with the status, and whether the socket is closed before
  exits : ℕ → Bool → Client
  -- what it has printed after what was received
  waits : List (List ℕ) → Client
  -- the null behind the bytes is written past the end of the buffer
  overruns : Client

-- One more message is printed in front of what follows.
abbrev pub printed : List ℕ → Client → Client
printed bs (waits rest) = waits (bs ∷ rest)
printed bs (exits status closed) = exits status closed
printed bs overruns = overruns

-- The loop `while(1)`, for what it receives
unfoldable pub client_loop : List Received → Client
client_loop [] = waits []
client_loop (fails ∷ rs) = exits 1 true
client_loop (bytes bs ∷ rs) =
    let rest = client_loop rs in if ltb (length bs) maxdatasize then printed bs rest else overruns

unfoldable pub eg_tcp_client : NetOs → List Received → Client
unfolding client_loop
eg_tcp_client os rs =
    if not os.socket_ok
    then exits 1 false
    else if not os.pton_ok
    then exits 0 false
    else if not os.connect_ok
    then exits 1 false
    else client_loop rs

-- A server that has closed the connection, for some calls of `recv`.
abbrev pub closed_server : ℕ → List Received
closed_server zero = []
closed_server (suc n) = bytes [] ∷ closed_server n

closed-waits : (n : ℕ) → client_loop (closed_server n) ≡ waits (replicate n [])
unfolding client_loop
closed-waits zero = refl
closed-waits (suc n) = rw (closed-waits n) refl

-- A connected client whose server has closed the connection prints an empty message for every call of recv
-- and never ends.
pub eg_tcp_client-closed :
    (os : NetOs) (n : ℕ)
    → os.socket_ok ≡ true
    → os.pton_ok ≡ true
    → os.connect_ok ≡ true
    → eg_tcp_client os (closed_server n) ≡ waits (replicate n [])
unfolding eg_tcp_client
eg_tcp_client-closed os n s p c = rw (s, p, c) (closed-waits n)

-- A full buffer of received bytes makes it write past the end of the buffer.
pub eg_tcp_client-full :
    (os : NetOs) (bs : List ℕ) (rs : List Received)
    → os.socket_ok ≡ true
    → os.pton_ok ≡ true
    → os.connect_ok ≡ true
    → length bs ≡ maxdatasize
    → eg_tcp_client os (bytes bs ∷ rs) ≡ overruns
unfolding eg_tcp_client client_loop
eg_tcp_client-full os bs rs s p c e = rw (s, p, c) (ground arith)
