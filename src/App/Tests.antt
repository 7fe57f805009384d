-- ===== src/App/Tests.antt =====
-- The programs of app/sys at work.
use pc.Base.{
  ◌+◌, ◌*◌, ◌&&◌, ℕ, ◌≡◌, refl, arith, if◌then◌else◌, true, false, some, none, List, [], ◌∷◌,
  length, take, ◌++◌,
}
use pc.Base.Int.{pos, negsuc, ltb_ℤ}
use pc.Timer.State.{is_zero}
use pc.App.Bytes.{number_of, cv_ntohs, cv_ntohl, cv_ntoh-network}
use pc.App.Ubus.{
  UbusOs, eg_ubus_thread_entry, inits, dones, frees, runs, eg_ubus_thread_entry-balance,
}
use pc.App.Usb.Threads.{
  LuaReader, eg_usb_thread_entry, test_thread_entry, transmits, terms, returned,
  eg_usb_thread_entry-counts,
}
use pc.App.Net.Frame.{overruns, frame_head, net_round, net_thread_entry}
use pc.App.Net.Frame.Rounds.{net_round-overruns}
use pc.App.Net.Frame.Session.{Frame, AllFrames, reads, replies, net_thread_entry-frames}
use pc.App.Net.Link.{NetOs, send_all, AllLost, eg_net_init, eg_net_init-lost}
use pc.App.Usb.Clock.{Tm, IsDay, Tells, time_head, time_acs, get_sys_time, get_sys_time-Tells}

abbrev well : NetOs
well = record { socket_ok = true; pton_ok = true; connect_ok = true; send_ok = true }

abbrev refused : NetOs
refused = record { socket_ok = true; pton_ok = true; connect_ok = false; send_ok = true }

eg_net_init-lost_example :
    let made = eg_net_init refused true true in
    (made.started ≡ false)
    × ((made.fault ≡ false) × AllLost (send_all (well ∷ well ∷ []) made.net_state))
eg_net_init-lost_example = eg_net_init-lost refused true true (well ∷ well ∷ []) refl refl refl

-- "1-1.4"
abbrev third : List ℕ
third = 49 ∷ 45 ∷ 49 ∷ 46 ∷ 52 ∷ []

-- A frame with the command to connect and two bytes.
abbrev connect : Frame
connect = record {
  upper = true;
  b8 = 48;
  command = 1;
  bytes = 171 ∷ 7 ∷ [];
  ending = 48 ∷ 51 ∷ 48 ∷ 48 ∷ 69 ∷ 55 ∷ 48 ∷ 52 ∷ [];
}

connect-AllFrames : AllFrames (connect ∷ [])
connect-AllFrames = (
  record {
    digit = omega arith;
    all_bytes = (omega arith, (omega arith, tt));
    fits = omega arith;
    ended = refl;
  },
  tt,
)

net_thread_entry-frames_example :
    net_thread_entry [] (reads connect ∷ []) ≡ replies [] (connect ∷ [])
net_thread_entry-frames_example = net_thread_entry-frames [] (connect ∷ []) connect-AllFrames

net_round-overruns_example :
    net_round [] (some (frame_head true 48 1 300)) (λ _. some (48 ∷ [])) ≡ overruns
net_round-overruns_example =
    net_round-overruns true 48 1 300 (48 ∷ []) [] (λ _. some (48 ∷ [])) (omega arith) (omega arith)
      refl

-- Sunday 25 December 2016, 23:59
abbrev christmas : Tm
christmas = record {
  tm_year = 116;
  tm_mon = 11;
  tm_mday = 25;
  tm_wday = 0;
  tm_hour = 23;
  tm_min = 59;
}

christmas-IsDay : IsDay christmas
christmas-IsDay = record {
  year = omega arith;
  mon = omega arith;
  mday = omega arith;
  hour = omega arith;
  min = omega arith;
}

christmas-sent :
    get_sys_time false christmas true ≡ some (time_head ++ take 17 (time_acs false christmas))
unfolding get_sys_time
christmas-sent = refl

get_sys_time-Tells_example :
    (length (time_acs false christmas) ≡ 18)
    × Tells christmas (time_head ++ take 17 (time_acs false christmas))
get_sys_time-Tells_example =
    get_sys_time-Tells false christmas (time_head ++ take 17 (time_acs false christmas))
      christmas-IsDay christmas-sent

-- A reader that can be connected and answers two bytes.
abbrev answering : LuaReader
answering = record {
  connect_ret = pos 0;
  transmit_ret = λ round. pos 2;
  output = λ round i. 144;
  pop_value_ret = pos 0;
}

eg_usb_thread_entry-counts_example :
    let served = eg_usb_thread_entry answering third 3 in
    let tested = test_thread_entry answering third 3 in
    ((transmits served.0 ≡ 0) × (terms served.0 ≡ returned served.1))
    × ((transmits tested.0 ≡ (if ltb_ℤ answering.connect_ret (pos 0) then 0 else 3))
        × ((terms tested.0 ≡ returned tested.1)
            × ((served.1 ≡ (
                  if ltb_ℤ answering.connect_ret (pos 0)
                  then some answering.pop_value_ret
                  else none))
                × (tested.1 ≡ (
                    if ltb_ℤ answering.connect_ret (pos 0)
                    then some answering.pop_value_ret
                    else none)))))
eg_usb_thread_entry-counts_example = eg_usb_thread_entry-counts answering third 3

abbrev found : UbusOs
found = record { connect_ok = true; add_object_ret = pos 0; lookup_id_ret = pos 0 }

eg_ubus_thread_entry-balance_example :
    let r = eg_ubus_thread_entry found in
    let connected : ℕ = if found.connect_ok then 1 else 0 in
    ((inits r.1 ≡ 1) × ((dones r.1 ≡ connected) × (frees r.1 ≡ connected)))
    × ((r.0 ≡ (if found.connect_ok then pos 0 else negsuc 0))
        × (runs r.1 ≡ (
            if found.connect_ok && (is_zero found.add_object_ret && is_zero found.lookup_id_ret)
            then 1
            else 0)))
eg_ubus_thread_entry-balance_example = eg_ubus_thread_entry-balance found

cv_ntoh-network_example :
    (cv_ntohs true (number_of (18 ∷ 52 ∷ [])) ≡ some (18 * 256 + 52))
    × (cv_ntohl true (number_of (18 ∷ 52 ∷ 86 ∷ 120 ∷ []))
        ≡ some (((18 * 256 + 52) * 256 + 86) * 256 + 120))
cv_ntoh-network_example =
    cv_ntoh-network 18 52 86 120 (omega arith) (omega arith) (omega arith) (omega arith)
