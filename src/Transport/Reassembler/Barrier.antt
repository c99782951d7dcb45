-- ===== src/Transport/Reassembler/Barrier.antt =====
-- The barrier below which no packet is taken: which calls leave it, and which raise it.
use deskhub.Base.{
  ℕ, zero, suc, ◌≤◌, ◌≡◌, refl, ap, ◌∙◌, true, ◌&&◌, [], ◌∷◌, arith, length, leb, ltb, ◌==◌, Option,
  none, some, Option-cases, Bool-cases, inl, inr,
}
use deskhub.Base.OrderedMap.{OrderedMap, OrderedMap-cases, find}
use deskhub.Protocol.Wire.Media.{VideoPacketView, FecPacketView, num_groups, fec_len_prefix}
use deskhub.Transport.Reassembler.State.{Reassembler, Pending, max_pending_frames, evicted}
use deskhub.Transport.Reassembler.Loss.{drop_frame, note_late_packet}
use deskhub.Transport.Reassembler.Recovery.{piece, fill_piece, try_recover}
use deskhub.Transport.Reassembler.Intake.{
  evict, new_pending, store, touch, slot, recover, note_arrival, note_if_late, place, place_in,
  push, keep_parity, place_parity, place_parity_in, push_fec,
}
use deskhub.Transport.Reassembler.Valid.{Dropped, drop_frame-Dropped}
use deskhub.Transport.Reassembler.Window.{evict-stop, evict-drop}

-- The barrier is at `id` or above.
pub record Blocked (id : ℕ) (s : Reassembler) : Type 0 where
  pub have_barrier : s.have_barrier ≡ true
  pub barrier_id : id ≤ s.barrier_id

-- A packet of a frame up to the barrier is refused, and changes nothing.
pub slot_of_Blocked :
    (s : Reassembler) (id pkt_count timestamp_us now_us : ℕ)
    → Blocked id s
    → slot s id pkt_count timestamp_us now_us ≡ (none, s)
unfolding slot
slot_of_Blocked s id pkt_count timestamp_us now_us b = ground (arith, b.have_barrier, b.barrier_id)

pub Dropped-Blocked :
    (id : ℕ) (s s' : Reassembler) (j : ℕ) (rest : OrderedMap Pending)
    → Dropped s j rest s'
    → Blocked id s
    → Blocked id s'
Dropped-Blocked id s s' j rest d b = record {
  have_barrier = d.have_barrier;
  barrier_id = ground (arith, d.barrier_id, b.have_barrier, b.barrier_id);
}

evict-keeps_Blocked :
    (fuel now_us id : ℕ) (s : Reassembler) → Blocked id s → Blocked id (evict fuel now_us s)
evict-keeps_Blocked zero now_us id s b = unfold evict in b
evict-keeps_Blocked (suc fuel) now_us id s b = elim (OrderedMap-cases s.pending) [
  | inl e ↦ rw (evict-stop fuel now_us s (omega (arith, ap length e))) b
  | inr (j, f, rest, e) ↦ elim (Bool-cases (ltb (length s.pending) max_pending_frames)) [
    | inl small ↦ rw (evict-stop fuel now_us s (ground arith)) b
    | inr full ↦
        let d = drop_frame-Dropped s j f rest evicted now_us e in
        rw (evict-drop fuel now_us s j f rest e (ground arith)) (
          evict-keeps_Blocked fuel now_us id (drop_frame s j f evicted now_us)
            (Dropped-Blocked id s _ j rest d b))
  ]
]

module _ (id : ℕ) where
  pub same-Blocked :
      (s s' : Reassembler)
      → s'.have_barrier ≡ s.have_barrier
      → s'.barrier_id ≡ s.barrier_id
      → Blocked id s
      → Blocked id s'
  same-Blocked s s' h k b = record {
    have_barrier = h ∙ b.have_barrier;
    barrier_id = omega (arith, k, b.barrier_id);
  }

  pub touch-Blocked :
      (s : Reassembler) (j : ℕ) (f : Pending) (pkt_count now_us : ℕ)
      → Blocked id s
      → Blocked id (touch s j f pkt_count now_us).1
  unfolding touch
  touch-Blocked s j f pkt_count now_us b = elim (Bool-cases (f.pkt_count == pkt_count)) [
    | inl e ↦ rw e (same-Blocked s _ refl refl b)
    | inr e ↦ rw e b
  ]

  slot-Blocked :
      (s : Reassembler) (j pkt_count timestamp_us now_us : ℕ)
      → Blocked id s
      → Blocked id (slot s j pkt_count timestamp_us now_us).1
  unfolding slot
  slot-Blocked s j pkt_count timestamp_us now_us b =
      elim (Bool-cases (s.have_barrier && leb j s.barrier_id)) [
        | inl late ↦ rw late b
        | inr fresh ↦ elim (Option-cases (find j s.pending)) [
          | inl e ↦
              let x = evict-keeps_Blocked (length s.pending) now_us id s b in
              let f = new_pending pkt_count timestamp_us now_us in
              let made = store (evict (length s.pending) now_us s) j f in
              rw (fresh, e)
                (touch-Blocked made j f pkt_count now_us (same-Blocked _ made refl refl x))
          | inr (f, e) ↦ rw (fresh, e) (touch-Blocked s j f pkt_count now_us b)
        ]
      ]

  recover-Blocked :
      (s : Reassembler) (j : ℕ) (f : Pending) (group : ℕ)
      → Blocked id s
      → Blocked id (recover s j f group)
  unfolding recover
  recover-Blocked s j f group b = elim (Option-cases (try_recover f group)) [
    | inl e ↦ rw (e, recover) b
    | inr (f', e) ↦ rw (e, recover) (same-Blocked s _ refl refl b)
  ]

  place-Blocked :
      (s : Reassembler) (f : Pending) (pkt : VideoPacketView)
      → Blocked id s
      → Blocked id (place s f pkt)
  unfolding place
  place-Blocked s f pkt b = elim (Bool-cases (leb f.pkt_count pkt.hdr.pkt_index)) [
    | inl out ↦ rw out b
    | inr inside ↦ elim (Bool-cases (length (piece f.pieces pkt.hdr.pkt_index) == 0)) [
      | inr there ↦ rw (inside, there) (same-Blocked s _ refl refl b)
      | inl empty ↦ elim (Bool-cases (num_groups f.pkt_count == 0)) [
        | inl none_left ↦
            unfold fill_piece in rw (inside, empty, none_left) (same-Blocked s _ refl refl b)
        | inr grouped ↦
            unfold fill_piece in
            rw (inside, empty, grouped)
              (recover-Blocked _ pkt.hdr.frame_id _ _ (same-Blocked s _ refl refl b))
      ]
    ]
  ]

  pub place_in-Blocked :
      (r : Option Pending × Reassembler) (pkt : VideoPacketView)
      → Blocked id r.1
      → Blocked id (place_in r pkt)
  unfolding place_in
  place_in-Blocked (none, s) pkt b = b
  place_in-Blocked (some f, s) pkt b = place-Blocked s f pkt b

  keep_parity-Blocked :
      (s : Reassembler) (f : Pending) (pkt : FecPacketView)
      → Blocked id s
      → Blocked id (keep_parity s f pkt)
  unfolding keep_parity
  keep_parity-Blocked s f pkt b =
      recover-Blocked _ pkt.hdr.frame_id _ pkt.hdr.group_index (same-Blocked s _ refl refl b)

  place_parity-Blocked :
      (s : Reassembler) (f : Pending) (pkt : FecPacketView)
      → Blocked id s
      → Blocked id (place_parity s f pkt)
  unfolding place_parity
  place_parity-Blocked s f pkt b = elim (Option-cases (find pkt.hdr.group_index f.parity)) [
    | inl e ↦ rw (e, place_parity) (keep_parity-Blocked s f pkt b)
    | inr ([], e) ↦ rw (e, place_parity) (keep_parity-Blocked s f pkt b)
    | inr (x ∷ par, e) ↦ rw (e, place_parity) (same-Blocked s _ refl refl b)
  ]

  place_parity_in-Blocked :
      (r : Option Pending × Reassembler) (pkt : FecPacketView)
      → Blocked id r.1
      → Blocked id (place_parity_in r pkt)
  unfolding place_parity_in
  place_parity_in-Blocked (none, s) pkt b = b
  place_parity_in-Blocked (some f, s) pkt b = place_parity-Blocked s f pkt b

  pub note_if_late-Blocked :
      (s : Reassembler) (j now_us : ℕ) → Blocked id s → Blocked id (note_if_late s j now_us)
  unfolding note_if_late note_late_packet
  note_if_late-Blocked s j now_us b = elim (Bool-cases (s.have_barrier && leb j s.barrier_id)) [
    | inl late ↦ rw late (same-Blocked s _ refl refl b)
    | inr fresh ↦ rw fresh b
  ]

  pub note_arrival-Blocked :
      (s : Reassembler) (now_us : ℕ) → Blocked id s → Blocked id (note_arrival s now_us)
  unfolding note_arrival
  note_arrival-Blocked s now_us b = same-Blocked s _ refl refl b

  pub push-Blocked :
      (s : Reassembler) (pkt : VideoPacketView) (now_us : ℕ)
      → Blocked id s
      → Blocked id (push s pkt now_us)
  unfolding push
  push-Blocked s pkt now_us b =
      let b1 = note_arrival-Blocked s now_us b in
      elim (Bool-cases (length pkt.payload == 0)) [
        | inl nothing ↦ rw nothing b1
        | inr some_bytes ↦ rw some_bytes (
            place_in-Blocked _ pkt (
              slot-Blocked _ pkt.hdr.frame_id pkt.hdr.pkt_count pkt.hdr.timestamp_us now_us
                (note_if_late-Blocked _ pkt.hdr.frame_id now_us b1)))
      ]

  pub push_fec-Blocked :
      (s : Reassembler) (pkt : FecPacketView) (now_us : ℕ)
      → Blocked id s
      → Blocked id (push_fec s pkt now_us)
  unfolding push_fec
  push_fec-Blocked s pkt now_us b = elim (Bool-cases (ltb (length pkt.parity) fec_len_prefix)) [
    | inl short ↦ rw short (same-Blocked s _ refl refl b)
    | inr long ↦ rw long (
        place_parity_in-Blocked _ pkt (
          slot-Blocked _ pkt.hdr.frame_id pkt.hdr.pkt_count pkt.hdr.timestamp_us now_us
            (same-Blocked s _ refl refl b)))
  ]
