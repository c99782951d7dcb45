-- ===== src/Transport/Reassembler/Restore.antt =====
-- What is handed out where every packet comes from what one sender sent.
use deskhub.Base.{
  ℕ, zero, suc, ◌<◌, ◌≡◌, refl, ap, ◌∙◌, true, ◌&&◌, List, [], ◌∷◌, arith, length, ◌==◌, ltb, leb,
  All, Option, none, some, Bool-cases, Option-cases, inl, inr,
}
use deskhub.Base.Words.{add64}
use deskhub.Base.OrderedMap.{OrderedMap, Each, find, find-Each, erase-Each, OrderedMap-cases}
use deskhub.Protocol.Wire.Media.{VideoPacketView, FecPacketView, fec_len_prefix}
use deskhub.Transport.Reassembler.State.{
  Reassembler, Pending, Frame, new_reassembler, set_fps, set_rtt_us, take_loss_event,
  take_max_gap_ms, is_complete,
}
use deskhub.Transport.Reassembler.Loss.{drop_frame, note_late_packet}
use deskhub.Transport.Reassembler.Recovery.{piece, group_indices}
use deskhub.Transport.Reassembler.Intake.{
  slot, place_in, place_parity, place_parity_in, note_arrival, note_if_late, push, push_fec,
}
use deskhub.Transport.Reassembler.Delivery.{
  joined_pieces, frame_of, verdict, pop_loop, pop_ready, nack_of, nack_first, plan_nack,
}
use deskhub.Transport.Reassembler.Parity.{group_parity}
use deskhub.Transport.Reassembler.Valid.{
  FrameValid, filled_count, filled_count-lt, drop_frame-Dropped,
}
use deskhub.Transport.Reassembler.Order.{
  Verdict-cases, pop_loop-empty, pop_loop-discard, pop_loop-deliver, pop_loop-wait,
  pop_ready-Delivered,
}
use deskhub.Transport.Reassembler.Window.{Keeps}
use deskhub.Transport.Reassembler.Run.{
  NackAnswer-cases, Call, push_call, push_fec_call, pop_call, nack_call, fps_call, rtt_call,
  loss_call, gap_call, CallFits, step, add_frame, run, StepKeeps, step-StepKeeps,
  new_reassembler-Keeps,
}
use deskhub.Transport.Reassembler.Integrity.{PieceFits, Agrees, no_parity}
use deskhub.Transport.Reassembler.Faithful.{
  same-Agrees, Faithful, FaithfulAnswer, store-Faithful, tail-Faithful, slot-FaithfulAnswer,
  place-Faithful, keep_parity-Faithful,
}

-- Lists of one length with the same pieces are the same.
pieces-ext :
    (a b : List (List ℕ))
    → length a ≡ length b
    → ((i : ℕ) → i < length a → piece a i ≡ piece b i)
    → a ≡ b
pieces-ext [] [] l h = refl
pieces-ext [] (q ∷ b) l h = absurd (omega (arith, l))
pieces-ext (p ∷ a) [] l h = absurd (omega (arith, l))
pieces-ext (p ∷ a) (q ∷ b) l h =
    let head : p ≡ q = h 0 (omega arith) in
    let tail : a ≡ b = pieces-ext a b (omega (arith, l)) (λ i k. h (suc i) (omega (arith, k))) in cc

-- A frame that is complete has the pieces that were sent.
complete-Agrees :
    (sent : List (List ℕ)) (f : Pending)
    → Agrees sent f
    → FrameValid f
    → is_complete f ≡ true
    → f.pieces ≡ sent
unfolding is_complete
complete-Agrees sent f a v e =
    let full : filled_count f.pieces ≡ length f.pieces = ground (arith, v.received, v.pieces) in
    pieces-ext f.pieces sent a.size (λ i k. elim (a.pieces i) [
      | inl gone ↦ absurd (omega (arith, full, filled_count-lt f.pieces i k gone))
      | inr same ↦ same
    ])

-- The packet is one that was sent.
pub record VideoSent (sent : List (List ℕ)) (pkt : VideoPacketView) : Type 0 where
  pub pkt_count : pkt.hdr.pkt_count ≡ length sent
  pub payload : pkt.payload ≡ piece sent pkt.hdr.pkt_index

pub record FecSent (sent : List (List ℕ)) (pkt : FecPacketView) : Type 0 where
  pub pkt_count : pkt.hdr.pkt_count ≡ length sent
  pub parity :
      pkt.parity ≡ group_parity sent (group_indices (length sent) pkt.hdr.group_index) no_parity

-- What is pushed was sent.
abbrev pub CallSent : (ℕ → List (List ℕ)) → Call → Type 0
CallSent source (push_call pkt now_us) = VideoSent (source pkt.hdr.frame_id) pkt
CallSent source (push_fec_call pkt now_us) = FecSent (source pkt.hdr.frame_id) pkt
CallSent source (pop_call now_us) = Unit
CallSent source (nack_call now_us rtt_us room) = Unit
CallSent source (fps_call fps) = Unit
CallSent source (rtt_call rtt_us) = Unit
CallSent source loss_call = Unit
CallSent source gap_call = Unit

module _ (source : ℕ → List (List ℕ)) (fit : (id : ℕ) → All PieceFits (source id)) where
  place_in-Faithful :
      (r : Option Pending × Reassembler) (pkt : VideoPacketView)
      → VideoSent (source pkt.hdr.frame_id) pkt
      → FaithfulAnswer source pkt.hdr.frame_id r
      → Faithful source (place_in r pkt)
  unfolding place_in
  place_in-Faithful (none, s) pkt c h = h
  place_in-Faithful (some f, s) pkt c h = place-Faithful source fit s f pkt c.payload h.0 h.1

  push-Faithful :
      (s : Reassembler) (pkt : VideoPacketView) (now_us : ℕ)
      → VideoSent (source pkt.hdr.frame_id) pkt
      → Faithful source s
      → Faithful source (push s pkt now_us)
  unfolding push note_arrival note_if_late note_late_packet
  push-Faithful s pkt now_us c h =
      let s1 = note_arrival s now_us in
      let s2 = note_if_late s1 pkt.hdr.frame_id now_us in
      let h2 : Faithful source s2 =
        elim (Bool-cases (s1.have_barrier && leb pkt.hdr.frame_id s1.barrier_id)) [
          | inl late ↦ rw late h
          | inr fresh ↦ rw fresh h
        ] in
      elim (Bool-cases (length pkt.payload == 0)) [
        | inl nothing ↦ rw nothing h
        | inr some_bytes ↦ rw some_bytes (
            place_in-Faithful
              (slot s2 pkt.hdr.frame_id pkt.hdr.pkt_count pkt.hdr.timestamp_us now_us) pkt c
              (slot-FaithfulAnswer source s2 pkt.hdr.frame_id pkt.hdr.pkt_count pkt.hdr.timestamp_us
                now_us c.pkt_count h2))
      ]

  place_parity_in-Faithful :
      (r : Option Pending × Reassembler) (pkt : FecPacketView)
      → FecSent (source pkt.hdr.frame_id) pkt
      → FaithfulAnswer source pkt.hdr.frame_id r
      → Faithful source (place_parity_in r pkt)
  unfolding place_parity_in place_parity
  place_parity_in-Faithful (none, s) pkt c h = h
  place_parity_in-Faithful (some f, s) pkt c h =
      let kept = keep_parity-Faithful source fit s f pkt c.parity h.0 h.1 in
      elim (Option-cases (find pkt.hdr.group_index f.parity)) [
        | inl e ↦ rw (e, place_parity) kept
        | inr ([], e) ↦ rw (e, place_parity) kept
        | inr (b ∷ par, e) ↦
            rw (e, place_parity)
              (store-Faithful source s pkt.hdr.frame_id _
                (same-Agrees (source pkt.hdr.frame_id) f _ refl refl refl h.0) h.1)
      ]

  push_fec-Faithful :
      (s : Reassembler) (pkt : FecPacketView) (now_us : ℕ)
      → FecSent (source pkt.hdr.frame_id) pkt
      → Faithful source s
      → Faithful source (push_fec s pkt now_us)
  unfolding push_fec
  push_fec-Faithful s pkt now_us c h =
      let s1 = record s {
        stats = record s.stats { fec_received = add64 s.stats.fec_received 1 };
      } in
      elim (Bool-cases (ltb (length pkt.parity) fec_len_prefix)) [
        | inl short ↦ rw short h
        | inr long ↦ rw long (
            place_parity_in-Faithful
              (slot s1 pkt.hdr.frame_id pkt.hdr.pkt_count pkt.hdr.timestamp_us now_us) pkt c
              (slot-FaithfulAnswer source s1 pkt.hdr.frame_id pkt.hdr.pkt_count pkt.hdr.timestamp_us
                now_us c.pkt_count h))
      ]

  pop_loop-Faithful :
      (fuel : ℕ) (s : Reassembler) (now_us : ℕ)
      → Faithful source s
      → Faithful source (pop_loop fuel s now_us).1
  pop_loop-Faithful zero s now_us h = unfold pop_loop in h
  pop_loop-Faithful (suc fuel) s now_us h = elim (OrderedMap-cases s.pending) [
    | inl e ↦ rw (pop_loop-empty fuel s now_us e) h
    | inr (id, f, rest, e) ↦ elim (Verdict-cases (verdict s f rest now_us)) [
      | inl (r, d) ↦
          let s1 = drop_frame s id f r now_us in
          rw (pop_loop-discard fuel s now_us id f rest e r d) (
            pop_loop-Faithful fuel s1 now_us (
              tail-Faithful source s s1 id f rest e
                (drop_frame-Dropped s id f rest r now_us e).pending h))
      | inr (inl d) ↦
          rw (pop_loop-deliver fuel s now_us id f rest e d)
            (erase-Each (λ id f. Agrees (source id) f) id s.pending h)
      | inr (inr d) ↦ rw (pop_loop-wait fuel s now_us id f rest e d) h
    ]
  ]

  nack_first-Faithful :
      (s : Reassembler) (m : OrderedMap Pending) (now_us rtt_us room : ℕ)
      → Faithful source s
      → Each (λ id f. Agrees (source id) f) m
      → Faithful source (nack_first s m now_us rtt_us room).1
  unfolding nack_first
  nack_first-Faithful s [] now_us rtt_us room h k = h
  nack_first-Faithful s ((id, f) ∷ m) now_us rtt_us room h k =
      elim (NackAnswer-cases (nack_of s f now_us rtt_us room)) [
        | inl e ↦ rw (e, nack_first) (nack_first-Faithful s m now_us rtt_us room h k.1)
        | inr (inl e) ↦ rw (e, nack_first) h
        | inr (inr (indices, e)) ↦
            rw (e, nack_first)
              (store-Faithful source s id _ (same-Agrees (source id) f _ refl refl refl k.0) h)
      ]

  step-Faithful :
      (s : Reassembler) (call : Call)
      → CallSent source call
      → Faithful source s
      → Faithful source (step s call).1
  unfolding step pop_ready plan_nack set_fps set_rtt_us take_loss_event take_max_gap_ms
  step-Faithful s (push_call pkt now_us) c h = push-Faithful s pkt now_us c h
  step-Faithful s (push_fec_call pkt now_us) c h = push_fec-Faithful s pkt now_us c h
  step-Faithful s (pop_call now_us) c h = pop_loop-Faithful (suc (length s.pending)) s now_us h
  step-Faithful s (nack_call now_us rtt_us room) c h = elim (Bool-cases (room == 0)) [
    | inl e ↦ rw e h
    | inr e ↦ rw e (nack_first-Faithful s s.pending now_us rtt_us room h h)
  ]
  step-Faithful s (fps_call fps) c h = elim (Bool-cases (fps == 0)) [
    | inl e ↦ rw e h
    | inr e ↦ rw e h
  ]
  step-Faithful s (rtt_call rtt_us) c h = h
  step-Faithful s loss_call c h = h
  step-Faithful s gap_call c h = h

  -- A frame that is handed out has the bytes that were sent.
  abbrev Restored : Option Frame → Type 0
  Restored none = Unit
  Restored (some frame) = frame.nal ≡ joined_pieces (source frame.frame_id)

  pop-Restored :
      (k : ℕ) (s : Reassembler) (now_us : ℕ) (r : Option Frame × Reassembler)
      → Keeps k s
      → Faithful source s
      → pop_ready s now_us ≡ r
      → Restored r.0
  pop-Restored k s now_us (none, s') v h e = tt
  pop-Restored k s now_us (some frame, s') v h e =
      let d = pop_ready-Delivered k s now_us frame s' v.valid v.floor e in
      let a =
        find-Each (λ id f. Agrees (source id) f) frame.frame_id d.source s.pending h
          d.source_found in
      ap (λ x. x.nal) d.bytes
      ∙ (unfold frame_of in
          ap joined_pieces
            (complete-Agrees (source frame.frame_id) d.source a d.source_valid d.source_complete))

  step-Restored :
      (k : ℕ) (s : Reassembler) (call : Call)
      → Keeps k s
      → Faithful source s
      → Restored (step s call).0
  unfolding step
  step-Restored k s (push_call pkt now_us) v h = tt
  step-Restored k s (push_fec_call pkt now_us) v h = tt
  step-Restored k s (pop_call now_us) v h = pop-Restored k s now_us _ v h refl
  step-Restored k s (nack_call now_us rtt_us room) v h = tt
  step-Restored k s (fps_call fps) v h = tt
  step-Restored k s (rtt_call rtt_us) v h = tt
  step-Restored k s loss_call v h = tt
  step-Restored k s gap_call v h = tt

  abbrev pub AllRestored : List Frame → Type 0
  AllRestored frames = All (λ frame. frame.nal ≡ joined_pieces (source frame.frame_id)) frames

  add_frame-Restored :
      (out : Option Frame) (frames : List Frame)
      → Restored out
      → AllRestored frames
      → AllRestored (add_frame out frames)
  add_frame-Restored none frames x h = h
  add_frame-Restored (some frame) frames x h = (x, h)

  StepKeeps-Keeps : (k : ℕ) (r : Option Frame × Reassembler) → StepKeeps k r → (n : ℕ) × Keeps n r.1
  StepKeeps-Keeps k (none, s) v = (k, v)
  StepKeeps-Keeps k (some frame, s) v = (suc frame.frame_id, v.1)

  run-AllRestored :
      (calls : List Call) (k : ℕ) (s : Reassembler)
      → All CallFits calls
      → All (CallSent source) calls
      → Keeps k s
      → Faithful source s
      → AllRestored (run s calls).0
  unfolding run
  run-AllRestored [] k s c sent v h = tt
  run-AllRestored (call ∷ calls) k s c sent v h =
      let (n, later) = StepKeeps-Keeps k (step s call) (step-StepKeeps k s call c.0 v) in
      add_frame-Restored (step s call).0 (run (step s call).1 calls).0 (step-Restored k s call v h)
        (run-AllRestored calls n (step s call).1 c.1 sent.1 later (step-Faithful s call sent.0 h))

-- For every frame number let `source` be the pieces that were sent, none empty and none longer than
-- a packet may carry. Whatever is called in whatever order on a new Reassembler, packets lost,
-- repeated and out of order, as long as each packet that comes is one of those sent with a 16-bit
-- count, or the parity of a group of them, each frame handed out has the bytes that were sent under
-- its number, also where packets of it were lost and made again from a parity.
pub run-restored :
    (source : ℕ → List (List ℕ)) (frame_interval_us : ℕ) (calls : List Call)
    → ((id : ℕ) → All PieceFits (source id))
    → All CallFits calls
    → All (CallSent source) calls
    → All
        (λ frame. frame.nal ≡ joined_pieces (source frame.frame_id))
        (run (new_reassembler frame_interval_us) calls).0
unfolding new_reassembler
run-restored source frame_interval_us calls fit c sent =
    run-AllRestored source fit calls 0 (new_reassembler frame_interval_us) c sent
      (new_reassembler-Keeps frame_interval_us) tt
