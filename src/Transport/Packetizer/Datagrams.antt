-- ===== src/Transport/Packetizer/Datagrams.antt =====
-- A datagram of the Packetizer and the packet that is read from it.
use deskhub.Base.{
  ℕ, suc, ◌*◌, ◌%◌, ◌^◌, ◌≤◌, ◌<◌, ◌≡◌, refl, ◌∙◌, List, [], ◌∷◌, arith, length, ◌==◌,
  if◌then◌else◌, length-replicate, length-take, drop,
}
use deskhub.Base.Words.{to_u16}
use deskhub.Base.Result.{ok}
use deskhub.Protocol.MsgType
use deskhub.Protocol.Wire.{parse_common_header, payload_of, video_chan, max_datagram}
use deskhub.Protocol.Wire.Header.{header_of}
use deskhub.Protocol.Wire.Media.{
  VideoPacketView, FecPacketView, max_video_payload, max_fec_groups, num_groups, video_flags,
  video_flag_idr, parse_video_packet, parse_fec_packet,
}
use deskhub.Protocol.Wire.Media.RoundTrip.{
  parse_video_packet-build_video_packet, parse_fec_packet-build_fec_packet,
}
use deskhub.Transport.Reassembler.Recovery.{group_indices}
use deskhub.Transport.Reassembler.Parity.{group_parity, length-group_parity}
use deskhub.Transport.Packetizer.{
  Outgoing, chunk, packet_count, zero_row, parity_stride, video_header, fec_header, video_datagram,
  fec_datagram,
}
use deskhub.Transport.Packetizer.Chunks.{chunks}

-- The packet `i` of the frame.
abbrev pub video_view : Outgoing → ℕ → VideoPacketView
video_view o i = record {
  hdr = record {
    frame_id = o.frame_id;
    timestamp_us = o.timestamp_us;
    pkt_index = i;
    pkt_count = o.count;
  };
  idr = o.idr;
  frame_end = suc i == o.count;
  payload = chunk o.nal i;
}

-- The parity of the group `g`: of the chunks of its packets, in order.
abbrev pub group_row : Outgoing → ℕ → List ℕ
group_row o g = group_parity (chunks o.nal) (group_indices o.count g) zero_row

abbrev pub fec_view : Outgoing → ℕ → FecPacketView
fec_view o g = record {
  hdr = record {
    frame_id = o.frame_id;
    timestamp_us = o.timestamp_us;
    pkt_count = o.count;
    group_index = g;
  };
  idr = o.idr;
  parity = group_row o g;
}

-- The datagram is read as the packet `i` of the frame.
pub record CarriesVideo (o : Outgoing) (i : ℕ) (d : List ℕ) : Type 0 where
  pub size : length d ≤ max_datagram
  pub header :
      parse_common_header d
      ≡ ok (
          header_of MsgType.video_packet
            (video_flags o.idr (suc i == o.count))
            video_chan
            o.session_id)
  pub message :
      parse_video_packet
        (header_of MsgType.video_packet
          (video_flags o.idr (suc i == o.count))
          video_chan
          o.session_id)
        (payload_of d)
      ≡ ok (video_view o i)

-- The datagram is read as the parity of the group `g`.
pub record CarriesFec (o : Outgoing) (g : ℕ) (d : List ℕ) : Type 0 where
  pub size : length d ≤ max_datagram
  pub header :
      parse_common_header d
      ≡ ok (
          header_of MsgType.fec_packet
            (if o.idr then video_flag_idr else 0)
            video_chan
            o.session_id)
  pub message :
      parse_fec_packet
        (header_of MsgType.fec_packet (if o.idr then video_flag_idr else 0) video_chan o.session_id)
        (payload_of d)
      ≡ ok (fec_view o g)

-- The datagrams are numbered from `i` on.
abbrev pub Numbered : (ℕ → List ℕ → Type 0) → ℕ → List (List ℕ) → Type 0
Numbered P i [] = Unit
Numbered P i (d ∷ ds) = P i d × Numbered P (suc i) ds

-- The numbers fit their types, and the count is that of the frame's packets.
pub record OutgoingFits (o : Outgoing) : Type 0 where
  pub session_id : o.session_id < 2 ^ 32
  pub frame_id : o.frame_id < 2 ^ 32
  pub timestamp_us : o.timestamp_us < 2 ^ 64
  pub count : o.count ≡ packet_count o.nal
  pub low_count : o.count ≤ 65535

pub video_datagram-CarriesVideo :
    (o : Outgoing) (i : ℕ)
    → OutgoingFits o
    → i < o.count
    → (d : List ℕ) × (video_datagram o i ≡ ok d) × CarriesVideo o i d
video_datagram-CarriesVideo o i f h =
    let size = length-take max_video_payload (drop (i * max_video_payload) o.nal) in
    let d =
      parse_video_packet-build_video_packet max_datagram o.session_id f.session_id
        (video_header o i) o.idr (suc i == o.count) (chunk o.nal i)
        (record {
          frame_id = f.frame_id;
          timestamp_us = f.timestamp_us;
          pkt_index = omega (arith, h, f.low_count);
          pkt_count = omega arith;
        })
        (omega (arith, size)) (omega (arith, size)) in
    let index : to_u16 i ≡ i = omega (arith, h, f.low_count) in
    let count : to_u16 o.count ≡ o.count = omega (arith, f.low_count) in
    (
      d.sent,
      d.built_ok,
      record {
        size = omega (arith, d.sent_size, size);
        header = d.header_read;
        message = d.message_read ∙ (rw (index, count) refl);
      },
    )

pub fec_datagram-CarriesFec :
    (o : Outgoing) (g : ℕ)
    → OutgoingFits o
    → g < num_groups o.count
    → num_groups o.count ≤ max_fec_groups
    → (d : List ℕ) × (fec_datagram o g (group_row o g) ≡ ok d) × CarriesFec o g d
fec_datagram-CarriesFec o g f h few =
    let size : length (group_row o g) ≡ 1176 =
      length-group_parity (chunks o.nal) (group_indices o.count g) zero_row
      ∙ length-replicate {A = ℕ} parity_stride 0 in
    let index : g % 2 ^ 8 ≡ g = omega (arith, h, few) in
    let count : to_u16 o.count ≡ o.count = omega (arith, f.low_count) in
    let d =
      parse_fec_packet-build_fec_packet max_datagram o.session_id f.session_id (fec_header o g)
        o.idr (group_row o g)
        (record {
          frame_id = f.frame_id;
          timestamp_us = f.timestamp_us;
          pkt_count = omega arith;
          group_index = rw (index, count) h;
        })
        (omega (arith, size)) (omega (arith, size)) (omega (arith, size)) in
    (
      d.sent,
      d.built_ok,
      record {
        size = omega (arith, d.sent_size, size);
        header = d.header_read;
        message = d.message_read ∙ (rw (index, count) refl);
      },
    )
