-- ===== src/Tests/Link.antt =====
-- The Packetizer and the stream at concrete inputs.
use deskhub.Base.{true, [], ◌∷◌, ◌≡◌, refl, arith, All}
use deskhub.Protocol.MsgType
use deskhub.Protocol.ByteOrder.{u16_of, u32_of, u64_of}
use deskhub.Protocol.Wire.Header.{header_of}
use deskhub.Protocol.Wire.{datagram, video_chan, parse_common_header, payload_of}
use deskhub.Protocol.Wire.Media.{FecPacketView, parse_fec_packet, fec_payload}
use deskhub.Transport.Reassembler.State.{new_reassembler}
use deskhub.Transport.Reassembler.Recovery.{xor_piece}
use deskhub.Transport.Reassembler.Run.{push_fec_call, pop_call, run}
use deskhub.Transport.Packetizer.{Packetizer, outgoing, fec_on, send_frame, zero_row}
use deskhub.Transport.Packetizer.Sending.{Sends, send_frame-Sends}
use deskhub.Transport.Link.{Stream, ReadFrom, stream-restored}

abbrev with_parity : Packetizer
with_parity = record { session_id = 77; fec = true }

send_frame-Sends_example :
    Sends
      (outgoing with_parity (10 ∷ 11 ∷ 12 ∷ []) 5 900 true)
      (fec_on with_parity (10 ∷ 11 ∷ 12 ∷ []))
      (send_frame with_parity (10 ∷ 11 ∷ 12 ∷ []) 5 900 true)
send_frame-Sends_example =
    send_frame-Sends with_parity (10 ∷ 11 ∷ 12 ∷ []) 5 900 true (omega arith) (omega arith)
      (omega arith) (omega arith) (omega arith)

-- Every frame has three bytes, and parities are on.
abbrev three_bytes : Stream
three_bytes = record {
  packetizer = with_parity;
  nals = λ id. 10 ∷ 11 ∷ 12 ∷ [];
  times = λ id. 900;
  idrs = λ id. true;
  session_id = omega arith;
  times_fit = λ id. omega arith;
}

-- Of a frame of one packet only the parity comes.
abbrev parity_packet : FecPacketView
parity_packet = record {
  hdr = record { frame_id = 5; timestamp_us = 900; pkt_count = 1; group_index = 0 };
  idr = true;
  parity = xor_piece zero_row (10 ∷ 11 ∷ 12 ∷ []);
}

parity_packet-ReadFrom : ReadFrom three_bytes MsgType.fec_packet parse_fec_packet parity_packet
unfolding send_frame parse_fec_packet parse_common_header payload_of u32_of u16_of u64_of
parity_packet-ReadFrom = record {
  id = 5;
  id_fits = omega arith;
  place = 1;
  d =
      datagram MsgType.fec_packet 1 video_chan 77
        (fec_payload parity_packet.hdr parity_packet.parity);
  found = refl;
  header = header_of MsgType.fec_packet 1 video_chan 77;
  header_read = refl;
  header_type = refl;
  message_read = refl;
}

stream-restored_example :
    All
      (λ frame. frame.nal ≡ 10 ∷ 11 ∷ 12 ∷ [])
      (run (new_reassembler 16667) (push_fec_call parity_packet 1000 ∷ pop_call 2000 ∷ [])).0
stream-restored_example =
    stream-restored three_bytes 16667 (push_fec_call parity_packet 1000 ∷ pop_call 2000 ∷ [])
      (parity_packet-ReadFrom, (tt, tt))
