-- ===== src/Transport/Reassembler/Eviction.antt =====
-- A frame that is older than all that are pending, in a window that is full.
use deskhub.Base.{
  ℕ, ◌^◌, ◌≤◌, ◌<◌, ◌≡◌, refl, ap, ◌∙◌, sym, true, false, ◌&&◌, List, ◌∷◌, arith, length, leb, ltb,
  ◌==◌, subst, Option, All, Bool-cases, inl, inr,
}
use deskhub.Base.Words.{add64}
use deskhub.Base.OrderedMap.{Above, OrderedMap-cases, find_of_Above}
use deskhub.Protocol.Wire.Media.{VideoPacketView, FecPacketView, fec_len_prefix}
use deskhub.Transport.Reassembler.State.{Reassembler, Pending, max_pending_frames, evicted}
use deskhub.Transport.Reassembler.Loss.{drop_frame, note_late_packet}
use deskhub.Transport.Reassembler.Intake.{
  evict, new_pending, store, slot, note_arrival, note_if_late, place_in, place_parity_in, push,
  push_fec,
}
use deskhub.Transport.Reassembler.Valid.{IsValid, From, drop_frame-Dropped}
use deskhub.Transport.Reassembler.Order.{next_id, From-Above, tail-IsValid}
use deskhub.Transport.Reassembler.Window.{Keeps, evict-stop, evict-drop}
use deskhub.Transport.Reassembler.SlotLaws.{
  SlotAnswer, touch-SlotAnswer, made-Slotted, new_pending-FrameValid,
}
use deskhub.Transport.Reassembler.Arrival.{place_in-Keeps}
use deskhub.Transport.Reassembler.Run.{Call, CallFits, run}
use deskhub.Transport.Reassembler.Barrier.{
  Blocked, slot_of_Blocked, same-Blocked, touch-Blocked, place_in-Blocked,
}
use deskhub.Transport.Reassembler.Refusal.{Refuses, run-Refuses}

-- The oldest pending frame makes room, and the barrier is past the older frame.
record Evicted (id : ℕ) (s : Reassembler) : Type 0 where
  keeps : Keeps id s
  room : length s.pending < max_pending_frames
  blocked : Blocked id s

evict-Evicted :
    (id now_us : ℕ) (s : Reassembler)
    → IsValid s
    → length s.pending ≡ max_pending_frames
    → Above id s.pending
    → Evicted id (evict (length s.pending) now_us s)
unfolding next_id
evict-Evicted id now_us s v full above = elim (OrderedMap-cases s.pending) [
  | inl e ↦ absurd (omega (arith, full, ap length e))
  | inr (j, f, rest, e) ↦
      let s1 = drop_frame s j f evicted now_us in
      let d = drop_frame-Dropped s j f rest evicted now_us e in
      let up : Above id ((j, f) ∷ rest) = subst (Above id) e above in
      let once : evict (length s.pending) now_us s ≡ s1 =
        ap (λ n. evict n now_us s) full
        ∙ evict-drop 7 now_us s j f rest e (omega (arith, full))
        ∙ evict-stop 6 now_us s1 (omega (arith, full, ap length e, ap length d.pending)) in
      let barrier : id ≤ s1.barrier_id = ground (arith, d.barrier_id, up.0) in
      subst (λ x. Evicted id x) (sym once)
        (record {
          keeps = record {
            valid = tail-IsValid s s1 j f rest e d.pending v;
            floor = record {
              barrier = ground (arith, d.have_barrier, barrier);
              frames =
                  subst (From id) (sym d.pending) (From-Above id j rest (omega (arith, up.0)) up.1);
            };
          };
          room = omega (arith, full, ap length e, ap length d.pending);
          blocked = record { have_barrier = d.have_barrier; barrier_id = barrier };
        })
]

-- The older frame is stored, and the barrier is past it.
slot-older :
    (s : Reassembler) (id pkt_count timestamp_us now_us : ℕ)
    → IsValid s
    → pkt_count < 2 ^ 16
    → length s.pending ≡ max_pending_frames
    → Above id s.pending
    → (s.have_barrier && leb id s.barrier_id) ≡ false
    → SlotAnswer id id pkt_count (slot s id pkt_count timestamp_us now_us)
      × Blocked id (slot s id pkt_count timestamp_us now_us).1
unfolding slot
slot-older s id pkt_count timestamp_us now_us v c full above fresh =
    let e = evict-Evicted id now_us s v full above in
    let s1 = evict (length s.pending) now_us s in
    let f = new_pending pkt_count timestamp_us now_us in
    let absent = find_of_Above id id s.pending above (omega arith) in
    (
      rw (fresh, absent)
          (touch-SlotAnswer id id f pkt_count now_us (store s1 id f) (
            made-Slotted id id f s1 (e.keeps, e.room) (omega arith)
              (new_pending-FrameValid pkt_count timestamp_us now_us c))),
      rw (fresh, absent)
          (touch-Blocked id (store s1 id f) id f pkt_count now_us
            (same-Blocked id s1 (store s1 id f) refl refl e.blocked)),
    )

module _ (s : Reassembler) (pkt : VideoPacketView) (now_us : ℕ) where
  push-Refuses :
      IsValid s
      → pkt.hdr.pkt_count < 2 ^ 16
      → 0 < length pkt.payload
      → length s.pending ≡ max_pending_frames
      → Above pkt.hdr.frame_id s.pending
      → (s.have_barrier && leb pkt.hdr.frame_id s.barrier_id) ≡ false
      → Refuses pkt.hdr.frame_id (push s pkt now_us)
  unfolding push
  push-Refuses v c some_bytes full above fresh =
      let id = pkt.hdr.frame_id in
      let s1 = note_arrival s now_us in
      let v1 : IsValid s1 =
        unfold note_arrival in record { sorted = v.sorted; few = v.few; frames = v.frames } in
      let filled : (length pkt.payload == 0) ≡ false = ground (arith, some_bytes) in
      let quiet : note_if_late s1 id now_us ≡ s1 =
        unfold note_arrival note_if_late in rw fresh refl in
      let open_slot : Reassembler → Option Pending × Reassembler =
        λ x. slot x id pkt.hdr.pkt_count pkt.hdr.timestamp_us now_us in
      let (answer, blocked) =
        slot-older s1 id pkt.hdr.pkt_count pkt.hdr.timestamp_us now_us v1 c
          (unfold note_arrival in full) (unfold note_arrival in above)
          (unfold note_arrival in fresh) in
      let placed : push s pkt now_us ≡ place_in (open_slot (note_if_late s1 id now_us)) pkt =
        rw filled refl in
      subst (Refuses id) (sym (placed ∙ ap (λ (x : Reassembler). place_in (open_slot x) pkt) quiet))
        (record {
          level = id;
          above = omega arith;
          keeps = place_in-Keeps id (open_slot s1) pkt some_bytes answer;
          blocked = place_in-Blocked id (open_slot s1) pkt blocked;
        })

-- A packet of a frame that the barrier is past leaves the pending frames as they are.
push-late :
    (s : Reassembler) (pkt : VideoPacketView) (now_us : ℕ)
    → Blocked pkt.hdr.frame_id s
    → (push s pkt now_us).pending ≡ s.pending
unfolding push
push-late s pkt now_us b =
    let id = pkt.hdr.frame_id in
    let s2 = note_if_late (note_arrival s now_us) id now_us in
    let late : (s.have_barrier && leb id s.barrier_id) ≡ true =
      ground (arith, b.have_barrier, b.barrier_id) in
    let noted : s2 ≡ note_late_packet (note_arrival s now_us) id now_us =
      unfold note_arrival note_if_late in rw late refl in
    let b2 : Blocked id s2 =
      subst (Blocked id) (sym noted)
        (unfold note_arrival note_late_packet in same-Blocked id s _ refl refl b) in
    let kept : s2.pending ≡ s.pending =
      ap (λ (x : Reassembler). x.pending) noted ∙ (unfold note_arrival note_late_packet in refl) in
    let refused = slot_of_Blocked s2 id pkt.hdr.pkt_count pkt.hdr.timestamp_us now_us b2 in
    elim (Bool-cases (length pkt.payload == 0)) [
      | inl e ↦ rw e (unfold note_arrival in refl)
      | inr e ↦
          let left : push s pkt now_us ≡ s2 =
            rw e (ap (λ r. place_in r pkt) refused ∙ (unfold place_in in refl)) in
          ap (λ (x : Reassembler). x.pending) left ∙ kept
    ]

push_fec-late :
    (s : Reassembler) (pkt : FecPacketView) (now_us : ℕ)
    → Blocked pkt.hdr.frame_id s
    → (push_fec s pkt now_us).pending ≡ s.pending
unfolding push_fec place_parity_in
push_fec-late s pkt now_us b =
    let s1 : Reassembler = record s {
      stats = record s.stats { fec_received = add64 s.stats.fec_received 1 };
    } in
    let refused =
      slot_of_Blocked s1 pkt.hdr.frame_id pkt.hdr.pkt_count pkt.hdr.timestamp_us now_us
        (same-Blocked pkt.hdr.frame_id s s1 refl refl b) in
    elim (Bool-cases (ltb (length pkt.parity) fec_len_prefix)) [
      | inl e ↦ rw e refl
      | inr e ↦ rw (e, refused) refl
    ]

-- In a valid state with eight frames pending, a packet comes with bytes, of a frame that is older
-- than all of them and above the barrier, with a 16-bit count. After any further calls, with
-- packets of 16-bit counts, a video packet or a parity packet of that frame leaves the pending
-- frames as they are.
pub push-older :
    (s : Reassembler) (first pkt : VideoPacketView) (fec : FecPacketView) (calls : List Call)
    (now_us now_us' : ℕ)
    → IsValid s
    → first.hdr.pkt_count < 2 ^ 16
    → 0 < length first.payload
    → length s.pending ≡ max_pending_frames
    → Above first.hdr.frame_id s.pending
    → (s.have_barrier && leb first.hdr.frame_id s.barrier_id) ≡ false
    → All CallFits calls
    → pkt.hdr.frame_id ≡ first.hdr.frame_id
    → fec.hdr.frame_id ≡ first.hdr.frame_id
    → let s' = (run (push s first now_us) calls).1 in
      ((push s' pkt now_us').pending ≡ s'.pending)
      × ((push_fec s' fec now_us').pending ≡ s'.pending)
push-older s first pkt fec calls now_us now_us' v c some_bytes full above fresh fit same_pkt
      same_fec =
    let s' = (run (push s first now_us) calls).1 in
    let refuses =
      run-Refuses first.hdr.frame_id calls (push s first now_us) fit
        (push-Refuses s first now_us v c some_bytes full above fresh) in
    (
      push-late s' pkt now_us' (subst (λ id. Blocked id s') (sym same_pkt) refuses.blocked),
      push_fec-late s' fec now_us' (subst (λ id. Blocked id s') (sym same_fec) refuses.blocked),
    )
