-- ===== src/App/Net/Frame/Session.antt =====
-- The network thread on a stream of frames, round after round.
use pc.Base.{
  ℕ, ◌<◌, ◌≤◌, ◌≡◌, refl, ap, ◌==◌, if◌then◌else◌, Bool, Option, some, List, [], ◌∷◌, ◌++◌, length,
  map,
}
use pc.App.Net.Hex.{to_text, AllBytes}
use pc.App.Net.Frame.{
  Printed, connected, connect_failed, sends_to_usb, nothing, is_null, overwrite, frame_head,
  eg_tcp_main_proc, net_thread_entry,
}
use pc.App.Net.Frame.Rounds.{net_round-frame}

-- A frame as the server sends it: a digit for its command, its bytes in hexadecimal, and eight characters.
pub record Frame : Type 0 where
  pub upper : Bool
  pub b8 : ℕ
  pub command : ℕ
  pub bytes : List ℕ
  pub ending : List ℕ

pub record IsFrame (f : Frame) : Type 0 where
  pub digit : f.command < 10
  pub all_bytes : AllBytes f.bytes
  pub fits : length f.bytes ≤ 256
  pub ended : length f.ending ≡ 8

abbrev pub AllFrames : List Frame → Type 0
AllFrames [] = Unit {0}
AllFrames (f ∷ fs) = IsFrame f × AllFrames fs

-- The two reads of `recv` that take in a frame.
abbrev pub reads : Frame → Option (List ℕ) × (ℕ → Option (List ℕ))
reads f = (
  some (frame_head f.upper f.b8 f.command (length f.bytes)),
  λ _. some (to_text f.upper f.bytes ++ f.ending),
)

-- What a frame calls for, by its command and the bytes.
abbrev pub reply : ℕ → List ℕ → Printed
reply command bytes =
    if command == 1
    then if is_null bytes then connected else connect_failed
    else if command == 5
    then sends_to_usb
    else nothing

abbrev pub replies : List ℕ → List Frame → List Printed
replies array [] = []
replies array (f ∷ fs) =
    reply f.command (overwrite f.bytes array) ∷ replies (overwrite f.bytes array) fs

-- When the server sends frames with a digit for the command, at most 256 bytes each, written in
-- hexadecimal, in upper or in lower case, and an ending of eight characters, and each read gets what it
-- asks for, the network thread does for every frame, in order, what its command asks for with the bytes
-- that were sent, which lie at the start of the array over those of the frames before.
pub net_thread_entry-frames :
    (array : List ℕ) (fs : List Frame)
    → AllFrames fs
    → net_thread_entry array (map reads fs) ≡ replies array fs
unfolding net_thread_entry eg_tcp_main_proc
net_thread_entry-frames array [] h = refl
net_thread_entry-frames array (f ∷ fs) h =
    rw
      (
        net_round-frame f.upper f.b8 f.command f.bytes f.ending array
            (λ _. some (to_text f.upper f.bytes ++ f.ending)) h.0.digit h.0.all_bytes h.0.fits
            h.0.ended refl,
        net_thread_entry,
      )
      (ap (λ rs. reply f.command (overwrite f.bytes array) ∷ rs)
        (net_thread_entry-frames (overwrite f.bytes array) fs h.1))
