-- ===== src/App/Ubus.antt =====
-- The ubus client of app/sys/eg_9531.c: `client_main`, `eg_ubus_thread_entry`, `eg_comm_init`, the callbacks and
-- `get_file_len`. What the ubus library answers is an argument; the calls made are listed in order.
use pc.Base.{ℕ, ◌+◌, ◌≡◌, arith, if◌then◌else◌, Bool, true, not, ◌&&◌, List, [], ◌∷◌, ◌++◌, length}
use pc.Base.Int.{ℤ, pos, negsuc, ◌+ℤ◌, ◌-ℤ◌}
use pc.Timer.State.{is_zero}
use pc.Osal.Deadline.{Timeval, quot, scale}
use pc.Osal.Thread.{ThreadOs, osal_task_create}

pub record UbusOs : Type 0 where
  pub connect_ok : Bool
  pub add_object_ret : ℤ
  pub lookup_id_ret : ℤ

pub data Call : Type 0 where
  uloop_init : Call
  ubus_connect : Call
  ubus_add_uloop : Call
  ubus_add_object : Call
  ubus_lookup_id : Call
  blob_buf_init : Call
  -- the message is given the identifier of the object
  adds_id : Call
  ubus_invoke : Call
  -- the message is given the counter
  adds_counter : ℕ → Call
  ubus_notify : Call
  -- milliseconds
  uloop_timeout_set : ℕ → Call
  uloop_run : Call
  ubus_free : Call
  uloop_done : Call

-- `test_client_notify_cb`: the new counter, and the calls
unfoldable pub test_client_notify_cb : ℕ → ℕ × List Call
test_client_notify_cb counter =
    (counter + 1, blob_buf_init ∷ adds_counter counter ∷ ubus_notify ∷ uloop_timeout_set 10000 ∷ [])

-- `delta / max`, in microseconds, which it prints
unfoldable pub average : Timeval → Timeval → ℤ
average tv1 tv2 =
    quot (scale (pos tv2.sec -ℤ pos tv1.sec) 1000000 +ℤ (pos tv2.usec -ℤ pos tv1.usec)) 1000

unfoldable pub client_main : UbusOs → ℕ → ℕ × List Call
unfolding test_client_notify_cb
client_main os counter =
    let (counter', notified) = test_client_notify_cb counter in
    if not (is_zero os.add_object_ret)
    then (counter, ubus_add_object ∷ [])
    else if not (is_zero os.lookup_id_ret)
    then (counter, ubus_add_object ∷ ubus_lookup_id ∷ [])
    else (
      counter',
      ubus_add_object ∷ ubus_lookup_id ∷ blob_buf_init ∷ adds_id ∷ ubus_invoke ∷ notified
          ++ uloop_run ∷ [],
    )

-- `eg_ubus_thread_entry`: the result, as an integer, and the calls
unfoldable pub eg_ubus_thread_entry : UbusOs → ℤ × List Call
unfolding client_main
eg_ubus_thread_entry os =
    let (counter, calls) = client_main os 0 in
    if os.connect_ok
    then (pos 0, uloop_init ∷ ubus_connect ∷ ubus_add_uloop ∷ calls ++ ubus_free ∷ uloop_done ∷ [])
    else (negsuc 0, uloop_init ∷ ubus_connect ∷ [])

-- `eg_comm_init`: whether the assertion on the task holds; `block` is whether there is memory for the task.
unfoldable pub eg_comm_init : ThreadOs → Bool → Bool
unfolding osal_task_create
eg_comm_init os block = (osal_task_create os block true (pos 8388608) (pos 30)).0

-- `get_file_len`, with the file's position after it
unfoldable pub get_file_len : List ℕ → ℕ × ℕ
get_file_len file = (length file, 0)

abbrev pub inits : List Call → ℕ
inits [] = 0
inits (uloop_init ∷ cs) = 1 + inits cs
inits (_ ∷ cs) = inits cs

abbrev pub dones : List Call → ℕ
dones [] = 0
dones (uloop_done ∷ cs) = 1 + dones cs
dones (_ ∷ cs) = dones cs

abbrev pub frees : List Call → ℕ
frees [] = 0
frees (ubus_free ∷ cs) = 1 + frees cs
frees (_ ∷ cs) = frees cs

abbrev pub runs : List Call → ℕ
runs [] = 0
runs (uloop_run ∷ cs) = 1 + runs cs
runs (_ ∷ cs) = runs cs

-- The thread of the ubus client initialises uloop once, and ends it and frees the connection once if it
-- can connect, and otherwise never; it returns 0 if it can connect and -1 otherwise; and it runs the
-- loop exactly when it can connect, add its object and find the other.
pub eg_ubus_thread_entry-balance :
    (os : UbusOs)
    → let r = eg_ubus_thread_entry os in
      let connected : ℕ = if os.connect_ok then 1 else 0 in
      ((inits r.1 ≡ 1) × ((dones r.1 ≡ connected) × (frees r.1 ≡ connected)))
      × ((r.0 ≡ (if os.connect_ok then pos 0 else negsuc 0))
          × (runs r.1 ≡ (
              if os.connect_ok && (is_zero os.add_object_ret && is_zero os.lookup_id_ret)
              then 1
              else 0)))
unfolding eg_ubus_thread_entry client_main test_client_notify_cb
eg_ubus_thread_entry-balance os = ground arith
