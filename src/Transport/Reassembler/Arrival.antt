-- ===== src/Transport/Reassembler/Arrival.antt =====
-- A packet that arrives keeps the state valid.
use deskhub.Base.{
  ℕ, ◌^◌, ◌<◌, refl, ◌||◌, ◌&&◌, [], ◌∷◌, arith, length, ltb, leb, if◌then◌else◌, ◌==◌, Option,
  none, some, Option-cases, Bool-cases, inl, inr,
}
use deskhub.Base.Words.{add64}
use deskhub.Base.OrderedMap.{find}
use deskhub.Protocol.Wire.Media.{VideoPacketView, FecPacketView, num_groups, fec_len_prefix}
use deskhub.Transport.Reassembler.State.{Reassembler, Pending}
use deskhub.Transport.Reassembler.Loss.{note_late_packet}
use deskhub.Transport.Reassembler.Recovery.{piece, fill_piece}
use deskhub.Transport.Reassembler.Intake.{
  store, note_arrival, place, push, place_parity, keep_parity, place_in, place_parity_in, push_fec,
  note_if_late,
}
use deskhub.Transport.Reassembler.Valid.{FrameValid}
use deskhub.Transport.Reassembler.Upkeep.{fill_piece-FrameValid}
use deskhub.Transport.Reassembler.Window.{Keeps, Keeps-same}
use deskhub.Transport.Reassembler.SlotLaws.{
  same_pieces, Slotted, put_back-Keeps, put_back-Slotted, SlotAnswer, slot-SlotAnswer,
  recover-Keeps,
}

place-Keeps :
    (k : ℕ) (s : Reassembler) (f : Pending) (pkt : VideoPacketView)
    → 0 < length pkt.payload
    → Slotted k pkt.hdr.frame_id pkt.hdr.pkt_count f s
    → Keeps k (place s f pkt)
unfolding place
place-Keeps k s f pkt some_bytes x =
    let i = pkt.hdr.pkt_index in
    let seen : Pending = record f {
      max_index_seen = if ltb f.max_index_seen i then i else f.max_index_seen;
    } in
    let seen_valid : FrameValid seen = same_pieces f seen refl refl refl x.valid in
    elim (Bool-cases (leb f.pkt_count i)) [
      | inl out ↦ rw out x.keeps
      | inr inside ↦ elim (Bool-cases (length (piece f.pieces i) == 0)) [
        | inr there ↦ rw (inside, there) (put_back-Keeps k _ _ f seen s x seen_valid)
        | inl empty ↦
            let taken : Pending = record (fill_piece seen i pkt.payload) {
              idr = f.idr || pkt.idr;
            } in
            let valid : FrameValid taken =
              same_pieces (fill_piece seen i pkt.payload) taken refl refl refl (
                fill_piece-FrameValid seen i pkt.payload seen_valid (ground arith) (ground arith)
                  some_bytes) in
            elim (Bool-cases (num_groups taken.pkt_count == 0)) [
              | inl none_left ↦
                  rw (inside, empty, none_left) (put_back-Keeps k _ _ f taken s x valid)
              | inr grouped ↦
                  rw (inside, empty, grouped)
                    (recover-Keeps k _ taken.pkt_count (store s pkt.hdr.frame_id taken) taken _
                      (put_back-Slotted k _ _ _ f taken s x valid refl))
            ]
      ]
    ]

keep_parity-Keeps :
    (k : ℕ) (s : Reassembler) (f : Pending) (pkt : FecPacketView)
    → Slotted k pkt.hdr.frame_id pkt.hdr.pkt_count f s
    → Keeps k (keep_parity s f pkt)
unfolding keep_parity
keep_parity-Keeps k s f pkt x =
    recover-Keeps k _ f.pkt_count _ _ pkt.hdr.group_index
      (put_back-Slotted k _ _ f.pkt_count f _ s x (same_pieces f _ refl refl refl x.valid) refl)

place_parity-Keeps :
    (k : ℕ) (s : Reassembler) (f : Pending) (pkt : FecPacketView)
    → Slotted k pkt.hdr.frame_id pkt.hdr.pkt_count f s
    → Keeps k (place_parity s f pkt)
unfolding place_parity
place_parity-Keeps k s f pkt x = elim (Option-cases (find pkt.hdr.group_index f.parity)) [
  | inl e ↦ rw (e, place_parity) (keep_parity-Keeps k s f pkt x)
  | inr ([], e) ↦ rw (e, place_parity) (keep_parity-Keeps k s f pkt x)
  | inr (b ∷ par, e) ↦
      rw (e, place_parity) (put_back-Keeps k _ _ f _ s x (same_pieces f _ refl refl refl x.valid))
]

pub place_in-Keeps :
    (k : ℕ) (r : Option Pending × Reassembler) (pkt : VideoPacketView)
    → 0 < length pkt.payload
    → SlotAnswer k pkt.hdr.frame_id pkt.hdr.pkt_count r
    → Keeps k (place_in r pkt)
unfolding place_in
place_in-Keeps k (none, s) pkt n v = v
place_in-Keeps k (some f, s) pkt n x = place-Keeps k s f pkt n x

place_parity_in-Keeps :
    (k : ℕ) (r : Option Pending × Reassembler) (pkt : FecPacketView)
    → SlotAnswer k pkt.hdr.frame_id pkt.hdr.pkt_count r
    → Keeps k (place_parity_in r pkt)
unfolding place_parity_in
place_parity_in-Keeps k (none, s) pkt v = v
place_parity_in-Keeps k (some f, s) pkt x = place_parity-Keeps k s f pkt x

note_if_late-Keeps :
    (k : ℕ) (s : Reassembler) (id now_us : ℕ) → Keeps k s → Keeps k (note_if_late s id now_us)
unfolding note_if_late note_late_packet
note_if_late-Keeps k s id now_us v = elim (Bool-cases (s.have_barrier && leb id s.barrier_id)) [
  | inl late ↦ rw late (Keeps-same k s _ refl refl refl v)
  | inr fresh ↦ rw fresh v
]

-- A video packet keeps the state valid, and the floor.
pub push-Keeps :
    (k : ℕ) (s : Reassembler) (pkt : VideoPacketView) (now_us : ℕ)
    → pkt.hdr.pkt_count < 2 ^ 16
    → Keeps k s
    → Keeps k (push s pkt now_us)
unfolding push
push-Keeps k s pkt now_us c v =
    let s1 = note_arrival s now_us in
    let v1 : Keeps k s1 = unfold note_arrival in Keeps-same k s _ refl refl refl v in
    elim (Bool-cases (length pkt.payload == 0)) [
      | inl nothing ↦ rw nothing v1
      | inr some_bytes ↦ rw some_bytes (
          place_in-Keeps k _ pkt (ground arith) (
            slot-SlotAnswer k (note_if_late s1 pkt.hdr.frame_id now_us) pkt.hdr.frame_id
              pkt.hdr.pkt_count pkt.hdr.timestamp_us now_us c
              (note_if_late-Keeps k s1 pkt.hdr.frame_id now_us v1)))
    ]

-- A parity packet keeps the state valid, and the floor.
pub push_fec-Keeps :
    (k : ℕ) (s : Reassembler) (pkt : FecPacketView) (now_us : ℕ)
    → pkt.hdr.pkt_count < 2 ^ 16
    → Keeps k s
    → Keeps k (push_fec s pkt now_us)
unfolding push_fec
push_fec-Keeps k s pkt now_us c v =
    let s1 = record s { stats = record s.stats { fec_received = add64 s.stats.fec_received 1 } } in
    let v1 : Keeps k s1 = Keeps-same k s _ refl refl refl v in
    elim (Bool-cases (ltb (length pkt.parity) fec_len_prefix)) [
      | inl short ↦ rw short v1
      | inr long ↦ rw long (
          place_parity_in-Keeps k _ pkt (
            slot-SlotAnswer k s1 pkt.hdr.frame_id pkt.hdr.pkt_count pkt.hdr.timestamp_us now_us c
              v1))
    ]
