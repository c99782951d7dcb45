-- ===== src/Transport/Reassembler/Intake.antt =====
-- Reassembler.cpp: `Slot`, `Push` and `PushFec`, which take packets in.
use deskhub.Base.{
  ℕ, zero, suc, ◌/◌, ◌%◌, ◌^◌, false, not, ◌||◌, ◌&&◌, [], ◌∷◌, length, ltb, leb, ◌==◌,
  if◌then◌else◌, Option, none, some, replicate,
}
use deskhub.Base.Words.{add64, sub64, to_u32}
use deskhub.Base.OrderedMap.{find, put}
use deskhub.Protocol.Wire.Media.{VideoPacketView, FecPacketView, fec_len_prefix, num_groups}
use deskhub.Transport.Reassembler.State.{Reassembler, Pending, evicted, max_pending_frames}
use deskhub.Transport.Reassembler.Loss.{drop_frame, note_late_packet}
use deskhub.Transport.Reassembler.Recovery.{piece, fill_piece, try_recover}

-- `while (pending_.size() >= kMaxPendingFrames) Drop(pending_.begin(), ...)`. Each round takes a
-- frame away, so the number of frames is enough.
unfoldable pub evict : ℕ → ℕ → Reassembler → Reassembler
evict zero now_us s = s
evict (suc fuel) now_us s = elim s.pending [
  | [] ↦ s
  | (id, f) ∷ _ ↦
      if ltb (length s.pending) max_pending_frames
      then s
      else evict fuel now_us (drop_frame s id f evicted now_us)
]

abbrev pub new_pending : ℕ → ℕ → ℕ → Pending
new_pending pkt_count timestamp_us now_us = record {
  pieces = replicate pkt_count [];
  parity = [];
  pkt_count = pkt_count;
  received = 0;
  max_index_seen = 0;
  timestamp_us = timestamp_us;
  idr = false;
  first_seen_us = now_us;
  last_push_us = 0;
  last_nack_us = 0;
  bytes = 0;
}

abbrev pub store : Reassembler → ℕ → Pending → Reassembler
store s id f = record s { pending = put id f s.pending }

-- A frame that is there is taken only with the same number of packets.
unfoldable pub touch : Reassembler → ℕ → Pending → ℕ → ℕ → Option Pending × Reassembler
touch s id f pkt_count now_us =
    if f.pkt_count == pkt_count
    then (
      some (record f { last_push_us = now_us }),
      store s id (record f { last_push_us = now_us }),
    )
    else (none, s)

-- The frame that takes the packet, and `none` for the source's null pointer.
unfoldable pub slot :
    Reassembler → (id pkt_count timestamp_us now_us : ℕ) → Option Pending × Reassembler
unfolding evict touch
slot s id pkt_count timestamp_us now_us =
    if s.have_barrier && leb id s.barrier_id then (none, s) else elim (find id s.pending) [
      | some f ↦ touch s id f pkt_count now_us
      | none ↦
          let f = new_pending pkt_count timestamp_us now_us in
          touch (store (evict (length s.pending) now_us s) id f) id f pkt_count now_us
    ]

-- `TryRecover` on a frame that is pending.
unfoldable pub recover : Reassembler → ℕ → Pending → ℕ → Reassembler
recover s id f group = elim (try_recover f group) [
  | none ↦ s
  | some f' ↦ record (store s id f') {
    stats = record s.stats { packets_recovered = add64 s.stats.packets_recovered 1 };
  }
]

-- The clock of the arrivals: the largest gap between two packets.
unfoldable pub note_arrival : Reassembler → ℕ → Reassembler
note_arrival s now_us =
    let gap_ms = to_u32 (sub64 now_us s.last_push_us / 1000) in
    record s {
      stats = record s.stats { packets_received = add64 s.stats.packets_received 1 };
      max_gap_ms =
          if not (s.last_push_us == 0) && ltb s.max_gap_ms gap_ms then gap_ms else s.max_gap_ms;
      last_push_us = now_us;
    }

-- The packet goes into its frame, unless it is out of range or has been there already.
unfoldable pub place : Reassembler → Pending → VideoPacketView → Reassembler
unfolding recover
place s f pkt =
    if leb f.pkt_count pkt.hdr.pkt_index
    then s
    else (let seen = record f {
      max_index_seen =
          if ltb f.max_index_seen pkt.hdr.pkt_index then pkt.hdr.pkt_index else f.max_index_seen;
    } in
        if not (length (piece seen.pieces pkt.hdr.pkt_index) == 0)
        then store s pkt.hdr.frame_id seen
        else (let filled = fill_piece seen pkt.hdr.pkt_index pkt.payload in
            let taken = record filled { idr = f.idr || pkt.idr } in
            let s' = store s pkt.hdr.frame_id taken in
            let groups = num_groups taken.pkt_count in
            if groups == 0
            then s'
            else recover s' pkt.hdr.frame_id taken (pkt.hdr.pkt_index % groups % 2 ^ 8)))

unfoldable pub note_if_late : Reassembler → ℕ → ℕ → Reassembler
unfolding note_late_packet
note_if_late s id now_us =
    if s.have_barrier && leb id s.barrier_id then note_late_packet s id now_us else s

-- `if (!fp) return;`
unfoldable pub place_in : Option Pending × Reassembler → VideoPacketView → Reassembler
unfolding place
place_in (none, s) pkt = s
place_in (some f, s) pkt = place s f pkt

unfoldable pub push : Reassembler → VideoPacketView → ℕ → Reassembler
unfolding note_arrival note_if_late slot place_in
push s0 pkt now_us =
    let s1 = note_arrival s0 now_us in
    if length pkt.payload == 0
    then s1
    else (let s2 = note_if_late s1 pkt.hdr.frame_id now_us in
        place_in (slot s2 pkt.hdr.frame_id pkt.hdr.pkt_count pkt.hdr.timestamp_us now_us) pkt)

unfoldable pub keep_parity : Reassembler → Pending → FecPacketView → Reassembler
unfolding recover
keep_parity s f pkt =
    let kept = record f {
      idr = f.idr || pkt.idr;
      parity = put pkt.hdr.group_index pkt.parity f.parity;
    } in
    recover (store s pkt.hdr.frame_id kept) pkt.hdr.frame_id kept pkt.hdr.group_index

-- The first parity of a group stays.
unfoldable pub place_parity : Reassembler → Pending → FecPacketView → Reassembler
unfolding keep_parity
place_parity s f pkt = elim (find pkt.hdr.group_index f.parity) [
  | some (b ∷ par) ↦ store s pkt.hdr.frame_id (record f { idr = f.idr || pkt.idr })
  | _ ↦ keep_parity s f pkt
]

unfoldable pub place_parity_in : Option Pending × Reassembler → FecPacketView → Reassembler
unfolding place_parity
place_parity_in (none, s) pkt = s
place_parity_in (some f, s) pkt = place_parity s f pkt

unfoldable pub push_fec : Reassembler → FecPacketView → ℕ → Reassembler
unfolding slot place_parity_in
push_fec s0 pkt now_us =
    let s1 = record s0 {
      stats = record s0.stats { fec_received = add64 s0.stats.fec_received 1 };
    } in
    if ltb (length pkt.parity) fec_len_prefix
    then s1
    else place_parity_in (slot s1 pkt.hdr.frame_id pkt.hdr.pkt_count pkt.hdr.timestamp_us now_us)
        pkt
