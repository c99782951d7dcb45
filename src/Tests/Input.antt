-- ===== src/Tests/Input.antt =====
-- Input events at concrete inputs.
use deskhub.Base.{List, [], ◌∷◌, ◌++◌, ◌≡◌, refl, arith, map, length, All, ◌≤◌, ◌+◌, max}
use mathlib.Core.List.{Sublist}
use deskhub.Protocol.Wire.{payload_of}
use deskhub.Protocol.Wire.Lists.{InputEvent}
use deskhub.Protocol.Wire.Lists.RoundTrip.{EventFits}
use deskhub.Input.Receiver.{new_receiver, receive_all}
use deskhub.Input.Sender.{
  new_sender, set_session_id, queue, flush, Call, queue_call, flush_call, run, queued_by,
  history_max, input_redundancy,
}
use deskhub.Input.Sender.Window.{Tracks, new_sender-Tracks, queue-Tracks}
use deskhub.Input.Delivery.{arrived, arrived-Sublist, receive_all-run}

abbrev key_down : InputEvent
key_down = record { type = 1; timestamp_us = 1000; a = 65; b = 30; state = 1; absolute = 0 }

abbrev key_up : InputEvent
key_up = record key_down { timestamp_us = 1100; state = 0 }

abbrev keys : List Call
keys = queue_call key_down ∷ flush_call 1050 ∷ queue_call key_up ∷ flush_call 1150 ∷ []

keys-EventFits : All EventFits (queued_by keys)
keys-EventFits = (
  record { timestamp_us = omega arith; a = omega arith; b = omega arith },
  (record { timestamp_us = omega arith; a = omega arith; b = omega arith }, tt),
)

-- The second datagram comes twice, before the first.
arrived-Sublist_example :
    Sublist
      (receive_all new_receiver
        (arrived (run (set_session_id new_sender 77) keys).0 (1 ∷ 1 ∷ 0 ∷ []))).0
      (key_down ∷ key_up ∷ [])
arrived-Sublist_example =
    arrived-Sublist 77 keys (1 ∷ 1 ∷ 0 ∷ []) (omega arith) (omega arith) keys-EventFits

receive_all-run_example :
    let (ds, s) = run (set_session_id new_sender 77) keys in
    (receive_all new_receiver (map payload_of (ds ++ (flush s 30000).0))).0 ≡ key_down ∷ key_up ∷ []
receive_all-run_example = receive_all-run 77 keys 30000 (omega arith) (omega arith) keys-EventFits

queue-Tracks_example :
    Tracks (key_down ∷ key_up ∷ []) 1 (queue (set_session_id new_sender 77) key_down)
    × (length (queue (set_session_id new_sender 77) key_down).history
        ≤ max history_max
            ((queue (set_session_id new_sender 77) key_down).unsent + input_redundancy))
    × ((queue (set_session_id new_sender 77) key_down).unsent ≡ 0 + 1)
unfolding set_session_id
queue-Tracks_example =
    queue-Tracks (key_down ∷ key_up ∷ []) 0 (set_session_id new_sender 77) key_down (key_up ∷ [])
      (omega arith) refl (new_sender-Tracks (key_down ∷ key_up ∷ []) 77 (omega arith))
