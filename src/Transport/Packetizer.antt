-- ===== src/Transport/Packetizer.antt =====
-- core/src/transport/Packetizer.cpp: a frame cut into packets, with a parity for each group of
-- them.
pub mod Chunks
pub mod Rows
pub mod Datagrams
pub mod Sending
use deskhub.Base.{
  ℕ, zero, suc, ◌+◌, ◌-◌, ◌*◌, ◌/◌, ◌%◌, ◌^◌, Bool, true, false, ◌&&◌, ◌||◌, List, [], ◌∷◌, ◌++◌,
  length, ltb, leb, ◌==◌, if◌then◌else◌, take, drop, set, replicate, Option, none, some,
}
use deskhub.Base.Words.{to_u16}
use deskhub.Base.Result.{Answer, ok, reject, fault}
use deskhub.Protocol.Wire.{max_datagram}
use deskhub.Protocol.Wire.Media.{
  VideoHeader, FecHeader, max_video_payload, fec_len_prefix, max_fec_groups, num_groups,
  build_video_packet, build_fec_packet,
}
use deskhub.Transport.Reassembler.Recovery.{piece, xor_piece}

-- The settings. The parities, `parity_`, are made anew for each frame, a list of rows in place of
-- one block of `kParityStride` bytes after the other.
pub record Packetizer : Type 0 where
  pub session_id : ℕ
  pub fec : Bool

abbrev pub new_packetizer : Packetizer
new_packetizer = record { session_id = 0; fec = false }

unfoldable pub set_session_id : Packetizer → ℕ → Packetizer
set_session_id p id = record p { session_id = id }

unfoldable pub set_fec_enabled : Packetizer → Bool → Packetizer
set_fec_enabled p on = record p { fec = on }

abbrev pub parity_stride : ℕ
parity_stride = fec_len_prefix + max_video_payload

-- What the loops of `SendFrame` read: the frame, with the session and the number of its packets.
pub record Outgoing : Type 0 where
  pub session_id : ℕ
  pub nal : List ℕ
  pub count : ℕ
  pub frame_id : ℕ
  pub timestamp_us : ℕ
  pub idr : Bool

-- `nal.subspan(off, len)`: what is left from `off` on, as much as a packet may carry.
abbrev pub chunk : List ℕ → ℕ → List ℕ
chunk nal i = take max_video_payload (drop (i * max_video_payload) nal)

abbrev pub video_header : Outgoing → ℕ → VideoHeader
video_header o i = record {
  frame_id = o.frame_id;
  timestamp_us = o.timestamp_us;
  pkt_index = to_u16 i;
  pkt_count = to_u16 o.count;
}

abbrev pub fec_header : Outgoing → ℕ → FecHeader
fec_header o g = record {
  frame_id = o.frame_id;
  timestamp_us = o.timestamp_us;
  pkt_count = to_u16 o.count;
  group_index = g % 2 ^ 8;
}

abbrev pub video_datagram : Outgoing → ℕ → Answer (List ℕ)
video_datagram o i =
    build_video_packet max_datagram o.session_id (video_header o i) o.idr (suc i == o.count)
      (chunk o.nal i)

abbrev pub fec_datagram : Outgoing → ℕ → List ℕ → Answer (List ℕ)
fec_datagram o g row = build_fec_packet max_datagram o.session_id (fec_header o g) o.idr row

-- The chunk goes into the parity of its group.
unfoldable pub add_parity : Outgoing → Bool → ℕ → List (List ℕ) → List (List ℕ)
unfolding xor_piece
add_parity o fec i rows =
    if fec
    then (let g = i % num_groups o.count in set rows g (xor_piece (piece rows g) (chunk o.nal i)))
    else rows

-- The rounds from `i` on, `n` of them: the parities, `none` where a packet could not be built, and
-- the datagrams given to `send`.
unfoldable pub video_loop :
    Outgoing → Bool → (n i : ℕ) → List (List ℕ) → Option (List (List ℕ)) × List (List ℕ)
unfolding build_video_packet add_parity
video_loop o fec zero i rows = (some rows, [])
video_loop o fec (suc n) i rows = elim (video_datagram o i) [
  | ok d ↦ let (rows', ds) = video_loop o fec n (suc i) (add_parity o fec i rows) in (rows', d ∷ ds)
  | reject ↦ (none, [])
  | fault ↦ (none, [])
]

-- The rounds from the group `g` on, a row for each: false where a packet could not be built.
unfoldable pub fec_loop : Outgoing → ℕ → List (List ℕ) → Bool × List (List ℕ)
unfolding build_fec_packet
fec_loop o g [] = (true, [])
fec_loop o g (row ∷ rows) = elim (fec_datagram o g row) [
  | ok d ↦ let (sent_all, ds) = fec_loop o (suc g) rows in (sent_all, d ∷ ds)
  | reject ↦ (false, [])
  | fault ↦ (false, [])
]

-- What follows the packets: the parities, if any. The answer and all the datagrams.
unfoldable pub finish_frame :
    Outgoing → Bool → Option (List (List ℕ)) × List (List ℕ) → ℕ × List (List ℕ)
unfolding fec_loop
finish_frame o fec (none, ds) = (0, ds)
finish_frame o fec (some rows, ds) =
    let (sent_all, more) = fec_loop o 0 rows in
    if fec then (if sent_all then o.count else 0, ds ++ more) else (o.count, ds)

abbrev pub packet_count : List ℕ → ℕ
packet_count nal = (length nal + max_video_payload - 1) / max_video_payload

abbrev pub fec_on : Packetizer → List ℕ → Bool
fec_on p nal = p.fec && leb (num_groups (packet_count nal)) max_fec_groups

abbrev pub outgoing : Packetizer → List ℕ → ℕ → ℕ → Bool → Outgoing
outgoing p nal frame_id timestamp_us idr = record {
  session_id = p.session_id;
  nal = nal;
  count = packet_count nal;
  frame_id = frame_id;
  timestamp_us = timestamp_us;
  idr = idr;
}

abbrev pub zero_row : List ℕ
zero_row = replicate parity_stride 0

-- The answer and the datagrams given to `send`, oldest first; `send` is set.
unfoldable pub send_frame :
    Packetizer → List ℕ → (frame_id timestamp_us : ℕ) → Bool → ℕ × List (List ℕ)
unfolding video_loop finish_frame
send_frame p nal frame_id timestamp_us idr =
    let o = outgoing p nal frame_id timestamp_us idr in
    let fec = fec_on p nal in
    if length nal == 0 || ltb 65535 (packet_count nal)
    then (0, [])
    else finish_frame o fec (
        video_loop o fec (packet_count nal) 0
          (if fec then replicate (num_groups (packet_count nal)) zero_row else []))
