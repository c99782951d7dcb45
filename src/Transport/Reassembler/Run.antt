-- ===== src/Transport/Reassembler/Run.antt =====
-- Any sequence of calls of the Reassembler.
use deskhub.Base.{
  ℕ, suc, ◌^◌, ◌≤◌, ◌<◌, ◌≡◌, refl, List, [], ◌∷◌, arith, ◌==◌, Option, none, some, All, Bool-cases,
  ◌⊎◌, inl, inr,
}
use deskhub.Base.OrderedMap.{
  OrderedMap, Each, find, find-Each, find_of_Above, IsSorted-find, length-put_of_IsSorted,
}
use deskhub.Protocol.Wire.Media.{VideoPacketView, FecPacketView}
use deskhub.Transport.Reassembler.State.{
  Reassembler, Pending, Frame, new_reassembler, set_fps, set_rtt_us, take_max_gap_ms,
  take_loss_event,
}
use deskhub.Transport.Reassembler.Intake.{push, push_fec}
use deskhub.Transport.Reassembler.Delivery.{
  pop_ready, plan_nack, nack_first, nack_of, NackAnswer, pass, stop, ask,
}
use deskhub.Transport.Reassembler.Valid.{FrameValid, IsValid, From}
use deskhub.Transport.Reassembler.Order.{next_id, pop_ready-Delivered, pop_ready-Waiting}
use deskhub.Transport.Reassembler.Window.{Keeps, Keeps-same, store-Keeps}
use deskhub.Transport.Reassembler.SlotLaws.{same_pieces}
use deskhub.Transport.Reassembler.Arrival.{push-Keeps, push_fec-Keeps}

find-From :
    (k id : ℕ) (f : Pending) (m : OrderedMap Pending) → From k m → find id m ≡ some f → k ≤ id
unfolding find
find-From k id f [] h e = absurd (cc)
find-From k id f ((j, g) ∷ m) h e = ground (arith, find_of_Above j id m h.1)

pub NackAnswer-cases :
    (x : NackAnswer) → (x ≡ pass) ⊎ (x ≡ stop) ⊎ ((indices : List ℕ) × (x ≡ ask indices))
NackAnswer-cases pass = inl refl
NackAnswer-cases stop = inr (inl refl)
NackAnswer-cases (ask indices) = inr (inr (indices, refl))

-- The time of the last request is noted on a frame that is pending.
nack_first-Keeps :
    (k : ℕ) (s : Reassembler) (m : OrderedMap Pending) (now_us rtt_us room : ℕ)
    → Keeps k s
    → Each (λ i f. find i s.pending ≡ some f) m
    → Keeps k (nack_first s m now_us rtt_us room).1
unfolding nack_first
nack_first-Keeps k s [] now_us rtt_us room v h = v
nack_first-Keeps k s ((id, f) ∷ m) now_us rtt_us room v h =
    elim (NackAnswer-cases (nack_of s f now_us rtt_us room)) [
      | inl e ↦ rw (e, nack_first) (nack_first-Keeps k s m now_us rtt_us room v h.1)
      | inr (inl e) ↦ rw (e, nack_first) v
      | inr (inr (indices, e)) ↦
          let valid = find-Each (λ i f. FrameValid f) id f s.pending v.valid.frames h.0 in
          rw (e, nack_first)
            (store-Keeps k s id _ v (find-From k id f s.pending v.floor.frames h.0)
              (same_pieces f _ refl refl refl valid)
              (omega
                (arith, v.valid.few, length-put_of_IsSorted id _ f s.pending v.valid.sorted h.0)))
    ]

-- A request for packets keeps the state valid, and the floor.
pub plan_nack-Keeps :
    (k : ℕ) (s : Reassembler) (now_us rtt_us room : ℕ)
    → Keeps k s
    → Keeps k (plan_nack s now_us rtt_us room).1
unfolding plan_nack
plan_nack-Keeps k s now_us rtt_us room v = elim (Bool-cases (room == 0)) [
  | inl e ↦ rw e v
  | inr e ↦
      rw e (
        nack_first-Keeps k s s.pending now_us rtt_us room v
          (IsSorted-find s.pending v.valid.sorted))
]

-- A call of the Reassembler; the clock is an argument of it.
pub data Call : Type 0 where
  push_call : VideoPacketView → ℕ → Call
  push_fec_call : FecPacketView → ℕ → Call
  pop_call : ℕ → Call
  nack_call : ℕ → ℕ → ℕ → Call
  fps_call : ℕ → Call
  rtt_call : ℕ → Call
  loss_call : Call
  gap_call : Call

-- A packet's count is a 16-bit number.
abbrev pub CallFits : Call → Type 0
CallFits (push_call pkt now_us) = pkt.hdr.pkt_count < 2 ^ 16
CallFits (push_fec_call pkt now_us) = pkt.hdr.pkt_count < 2 ^ 16
CallFits (pop_call now_us) = Unit
CallFits (nack_call now_us rtt_us room) = Unit
CallFits (fps_call fps) = Unit
CallFits (rtt_call rtt_us) = Unit
CallFits loss_call = Unit
CallFits gap_call = Unit

unfoldable pub step : Reassembler → Call → Option Frame × Reassembler
unfolding push push_fec pop_ready plan_nack set_fps set_rtt_us take_loss_event take_max_gap_ms
step s (push_call pkt now_us) = (none, push s pkt now_us)
step s (push_fec_call pkt now_us) = (none, push_fec s pkt now_us)
step s (pop_call now_us) = pop_ready s now_us
step s (nack_call now_us rtt_us room) = (none, (plan_nack s now_us rtt_us room).1)
step s (fps_call fps) = (none, set_fps s fps)
step s (rtt_call rtt_us) = (none, set_rtt_us s rtt_us)
step s loss_call = (none, (take_loss_event s).1)
step s gap_call = (none, (take_max_gap_ms s).1)

abbrev pub add_frame : Option Frame → List Frame → List Frame
add_frame none frames = frames
add_frame (some frame) frames = frame ∷ frames

-- The frames handed out by a sequence of calls, oldest first, and the state after it.
unfoldable pub run : Reassembler → List Call → List Frame × Reassembler
unfolding step
run s [] = ([], s)
run s (call ∷ calls) =
    let (out, s') = step s call in let (frames, s'') = run s' calls in (add_frame out frames, s'')

-- Frames from the number `k` on, each above the one before it.
abbrev pub Ascending : ℕ → List Frame → Type 0
Ascending k [] = Unit
Ascending k (frame ∷ frames) = (k ≤ frame.frame_id) × Ascending (suc frame.frame_id) frames

-- What a call answers.
abbrev pub StepKeeps : ℕ → Option Frame × Reassembler → Type 0
StepKeeps k (none, s) = Keeps k s
StepKeeps k (some frame, s) = (k ≤ frame.frame_id) × Keeps (suc frame.frame_id) s

pop-StepKeeps :
    (k : ℕ) (s : Reassembler) (now_us : ℕ) (r : Option Frame × Reassembler)
    → Keeps k s
    → pop_ready s now_us ≡ r
    → StepKeeps k r
pop-StepKeeps k s now_us (none, s') v e =
    let w = pop_ready-Waiting k s now_us s' v.valid v.floor e in
    record { valid = w.valid; floor = w.floor }
pop-StepKeeps k s now_us (some frame, s') v e =
    let d = pop_ready-Delivered k s now_us frame s' v.valid v.floor e in
    (d.above, record { valid = d.valid; floor = d.floor })

pub step-StepKeeps :
    (k : ℕ) (s : Reassembler) (call : Call) → CallFits call → Keeps k s → StepKeeps k (step s call)
unfolding step
step-StepKeeps k s (push_call pkt now_us) c v = push-Keeps k s pkt now_us c v
step-StepKeeps k s (push_fec_call pkt now_us) c v = push_fec-Keeps k s pkt now_us c v
step-StepKeeps k s (pop_call now_us) c v = pop-StepKeeps k s now_us _ v refl
step-StepKeeps k s (nack_call now_us rtt_us room) c v = plan_nack-Keeps k s now_us rtt_us room v
step-StepKeeps k s (fps_call fps) c v =
    unfold set_fps in
    elim (Bool-cases (fps == 0)) [
      | inl e ↦ rw e v
      | inr e ↦ rw e (Keeps-same k s _ refl refl refl v)
    ]
step-StepKeeps k s (rtt_call rtt_us) c v = unfold set_rtt_us in Keeps-same k s _ refl refl refl v
step-StepKeeps k s loss_call c v = unfold take_loss_event in Keeps-same k s _ refl refl refl v
step-StepKeeps k s gap_call c v = unfold take_max_gap_ms in Keeps-same k s _ refl refl refl v

-- What a sequence of calls answers.
abbrev RunKeeps : ℕ → List Frame × Reassembler → Type 0
RunKeeps k r = Ascending k r.0 × IsValid r.1

add_frame-RunKeeps :
    (calls : List Call) (k : ℕ) (r : Option Frame × Reassembler)
    → ((k : ℕ) (s : Reassembler) → Keeps k s → RunKeeps k (run s calls))
    → StepKeeps k r
    → RunKeeps k (add_frame r.0 (run r.1 calls).0, (run r.1 calls).1)
add_frame-RunKeeps calls k (none, s) ih v = ih k s v
add_frame-RunKeeps calls k (some frame, s) ih v =
    let later = ih (suc frame.frame_id) s v.1 in ((v.0, later.0), later.1)

run-RunKeeps :
    (calls : List Call) (k : ℕ) (s : Reassembler)
    → All CallFits calls
    → Keeps k s
    → RunKeeps k (run s calls)
unfolding run
run-RunKeeps [] k s c v = (tt, v.valid)
run-RunKeeps (call ∷ calls) k s c v =
    add_frame-RunKeeps calls k (step s call) (λ k s. run-RunKeeps calls k s c.1)
      (step-StepKeeps k s call c.0 v)

pub new_reassembler-Keeps : (frame_interval_us : ℕ) → Keeps 0 (new_reassembler frame_interval_us)
unfolding new_reassembler next_id
new_reassembler-Keeps frame_interval_us = record {
  valid = record { sorted = tt; few = omega arith; frames = tt };
  floor = record { barrier = omega arith; frames = tt };
}

-- Whatever is called in whatever order on a new Reassembler, packets with 16-bit counts, the
-- numbers of the frames handed out ascend, so none comes twice, and the state stays valid: eight
-- frames at most are pending, sorted by number, each with the count of its pieces that are there.
pub run-new_reassembler :
    (frame_interval_us : ℕ) (calls : List Call)
    → All CallFits calls
    → let r = run (new_reassembler frame_interval_us) calls in Ascending 0 r.0 × IsValid r.1
run-new_reassembler frame_interval_us calls c =
    run-RunKeeps calls 0 (new_reassembler frame_interval_us) c
      (new_reassembler-Keeps frame_interval_us)
