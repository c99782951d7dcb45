-- ===== src/Tests/Transport.antt =====
-- The Reassembler at concrete inputs.
use deskhub.Transport.Reassembler.Eviction.{push-older}
use deskhub.Transport.Reassembler.SlotLaws.{new_pending-FrameValid}
use deskhub.Base.{false}
use deskhub.Protocol.Wire.Media.{FecPacketView}
use deskhub.Transport.Reassembler.Intake.{push_fec}
use deskhub.Base.{replicate, ℕ, ◌≡◌, some}
use deskhub.Transport.Reassembler.State.{Pending}
use deskhub.Transport.Reassembler.Intake.{new_pending}
use deskhub.Transport.Reassembler.Recovery.{solve, strided, group_indices}
use deskhub.Transport.Reassembler.Parity.{only, group_parity, solve-group_parity}
use deskhub.Base.{refl, true, List, [], ◌∷◌, arith}
use deskhub.Base.OrderedMap.{put, find}
use deskhub.Protocol.Wire.Media.{VideoPacketView}
use deskhub.Transport.Reassembler.State.{Reassembler, Frame, new_reassembler}
use deskhub.Transport.Reassembler.Intake.{push}
use deskhub.Transport.Reassembler.Recovery.{fill_piece, try_recover}
use deskhub.Transport.Reassembler.Delivery.{pop_ready}
use deskhub.Transport.Reassembler.Valid.{IsValid}
use deskhub.Transport.Reassembler.Order.{Delivered, pop_ready-Delivered, next_id}
use deskhub.Transport.Reassembler.Window.{Keeps}
use deskhub.Transport.Reassembler.Arrival.{push-Keeps}
use deskhub.Transport.Reassembler.Run.{
  Call, push_call, pop_call, run, Ascending, run-new_reassembler,
}

abbrev whole_frame : VideoPacketView
whole_frame = record {
  hdr = record { frame_id = 5; timestamp_us = 900; pkt_index = 0; pkt_count = 1 };
  idr = true;
  frame_end = true;
  payload = 10 ∷ 11 ∷ [];
}

abbrev half_frame : VideoPacketView
half_frame = record whole_frame {
  hdr = record { frame_id = 6; timestamp_us = 950; pkt_index = 1; pkt_count = 2 };
}

abbrev arrivals : List Call
arrivals =
    push_call half_frame 1000 ∷ push_call whole_frame 1500 ∷ pop_call 2000 ∷ pop_call 2500 ∷ []

run-new_reassembler_example :
    let r = run (new_reassembler 16667) arrivals in Ascending 0 r.0 × IsValid r.1
run-new_reassembler_example =
    run-new_reassembler 16667 arrivals (omega arith, (omega arith, (tt, (tt, tt))))

abbrev with_frame : Reassembler
with_frame = push (new_reassembler 16667) whole_frame 1000

new-Keeps : Keeps 0 (new_reassembler 16667)
unfolding new_reassembler next_id
new-Keeps = record {
  valid = record { sorted = tt; few = omega arith; frames = tt };
  floor = record { barrier = omega arith; frames = tt };
}

with_frame-Keeps : Keeps 0 with_frame
with_frame-Keeps = push-Keeps 0 (new_reassembler 16667) whole_frame 1000 (omega arith) new-Keeps

abbrev fetched : Frame
fetched = record {
  frame_id = 5;
  timestamp_us = 900;
  idr = true;
  first_seen_us = 1000;
  nal = 10 ∷ 11 ∷ [];
}

pop_ready-Delivered_example : Delivered 0 with_frame fetched (pop_ready with_frame 2000).1
unfolding pop_ready push new_reassembler find fill_piece try_recover put
pop_ready-Delivered_example =
    pop_ready-Delivered 0 with_frame 2000 fetched (pop_ready with_frame 2000).1
      with_frame-Keeps.valid with_frame-Keeps.floor refl

abbrev with_half : Reassembler
with_half = push (new_reassembler 16667) half_frame 1000

abbrev sent_pieces : List (List ℕ)
sent_pieces = (10 ∷ 11 ∷ []) ∷ (12 ∷ []) ∷ []

abbrev second_lost : Pending
second_lost = record (new_pending 2 900 1000) { pieces = (10 ∷ 11 ∷ []) ∷ [] ∷ [] }

solve-group_parity_example :
    solve second_lost 0 (group_parity sent_pieces (group_indices 2 0) (replicate 6 0)) 1
    ≡ some (12 ∷ [])
unfolding only strided
solve-group_parity_example =
    solve-group_parity second_lost 0 1 4 sent_pieces refl refl (omega arith, (omega arith, tt))
      (omega arith) (omega arith) (omega arith)

abbrev one_packet : Pending
one_packet = new_pending 1 900 1000

-- The frames 11 to 18 are pending, and 9 is the last that was handed out.
abbrev full_window : Reassembler
unfolding new_reassembler
full_window = record (new_reassembler 16667) {
  pending =
      (11, one_packet)
      ∷ (12, one_packet)
      ∷ (13, one_packet)
      ∷ (14, one_packet)
      ∷ (15, one_packet)
      ∷ (16, one_packet)
      ∷ (17, one_packet)
      ∷ (18, one_packet)
      ∷ [];
  have_barrier = true;
  barrier_id = 9;
}

full_window-IsValid : IsValid full_window
unfolding full_window
full_window-IsValid =
    let v = new_pending-FrameValid 1 900 1000 (omega arith) in
    record {
      sorted = (
        omega arith,
        (
          omega arith,
          (omega arith, (omega arith, (omega arith, (omega arith, (omega arith, tt))))),
        ),
      );
      few = omega arith;
      frames = (v, (v, (v, (v, (v, (v, (v, (v, tt))))))));
    }

abbrev older_packet : VideoPacketView
older_packet = record whole_frame {
  hdr = record { frame_id = 10; timestamp_us = 900; pkt_index = 0; pkt_count = 2 };
}

abbrev older_parity : FecPacketView
older_parity = record {
  hdr = record { frame_id = 10; timestamp_us = 900; group_index = 0; pkt_count = 2 };
  idr = false;
  parity = replicate 6 0;
}

-- The second packet of the frame 10 comes after a call of the renderer.
push-older_example :
    let s' = (run (push full_window older_packet 2000) (pop_call 2050 ∷ [])).1 in
    ((push s'
        (record older_packet { hdr = record older_packet.hdr { pkt_index = 1 } })
        2100).pending
      ≡ s'.pending)
    × ((push_fec s' older_parity 2100).pending ≡ s'.pending)
unfolding full_window
push-older_example =
    push-older full_window older_packet
      (record older_packet { hdr = record older_packet.hdr { pkt_index = 1 } }) older_parity
      (pop_call 2050 ∷ []) 2000 2100 full_window-IsValid (omega arith) (omega arith) refl
      (
        omega arith,
        (
          omega arith,
          (
            omega arith,
            (omega arith, (omega arith, (omega arith, (omega arith, (omega arith, tt))))),
          ),
        ),
      )
      refl (tt, tt) refl refl
