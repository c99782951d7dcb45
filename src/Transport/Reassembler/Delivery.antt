-- ===== src/Transport/Reassembler/Delivery.antt =====
-- Reassembler.cpp: `PopReady`, which hands frames out, and `PlanNack`, which asks for packets
-- again.
use deskhub.Base.{
  ℕ, zero, suc, Bool, true, false, not, ◌||◌, ◌&&◌, List, [], ◌∷◌, ◌++◌, length, ltb, leb, ◌==◌,
  if◌then◌else◌, Option, none, some,
}
use deskhub.Base.Words.{add64, sub64}
use deskhub.Base.OrderedMap.{OrderedMap, put, erase}
use deskhub.Transport.Reassembler.State.{
  Reassembler, Pending, Frame, DropReason, timeout, overtaken, pre_idr, is_complete,
  hard_timeout_us, stall_timeout_us, nack_hold_us, nack_min_interval_us,
}
use deskhub.Transport.Reassembler.Loss.{drop_frame}

-- The bytes of the pieces, in order.
unfoldable pub joined_pieces : List (List ℕ) → List ℕ
joined_pieces [] = []
joined_pieces (p ∷ pieces) = p ++ joined_pieces pieces

unfoldable pub complete_count : OrderedMap Pending → ℕ
unfolding is_complete
complete_count [] = 0
complete_count ((id, f) ∷ rest) = let n = complete_count rest in if is_complete f then suc n else n

-- What a round of the loop does with the oldest frame.
pub data Verdict : Type 0 where
  discard : DropReason → Verdict
  deliver : Verdict
  wait : Verdict

unfoldable pub is_stalled : Reassembler → Pending → ℕ → Bool
unfolding stall_timeout_us
is_stalled s f now_us =
    let activity_us =
      if ltb f.last_push_us f.last_nack_us then f.last_nack_us else f.last_push_us in
    ltb (hard_timeout_us s) (sub64 now_us f.first_seen_us)
    || ltb (stall_timeout_us s) (sub64 now_us activity_us)

unfoldable pub verdict : Reassembler → Pending → OrderedMap Pending → ℕ → Verdict
unfolding is_complete is_stalled complete_count
verdict s f newer now_us =
    if is_complete f
    then (if s.waiting_for_idr && not f.idr then discard pre_idr else deliver)
    else if is_stalled s f now_us
    then discard timeout
    else if not f.idr && leb 2 (complete_count newer)
    then discard overtaken
    else wait

unfoldable pub frame_of : ℕ → Pending → Frame
unfolding joined_pieces
frame_of id f = record {
  frame_id = id;
  timestamp_us = f.timestamp_us;
  idr = f.idr;
  first_seen_us = f.first_seen_us;
  nal = joined_pieces f.pieces;
}

abbrev pub deliver_head : Reassembler → ℕ → Reassembler
deliver_head s id = record s {
  have_barrier = true;
  barrier_id = id;
  waiting_for_idr = false;
  stats = record s.stats { frames_completed = add64 s.stats.frames_completed 1 };
  pending = erase id s.pending;
}

unfoldable pub pop_loop : ℕ → Reassembler → ℕ → Option Frame × Reassembler
unfolding verdict frame_of
pop_loop zero s now_us = (none, s)
pop_loop (suc fuel) s now_us = elim s.pending [
  | [] ↦ (none, s)
  | (id, f) ∷ newer ↦ elim (verdict s f newer now_us) [
    | discard reason ↦ pop_loop fuel (drop_frame s id f reason now_us) now_us
    | deliver ↦ (some (frame_of id f), deliver_head s id)
    | wait ↦ (none, s)
  ]
]

-- A round that goes on has dropped a frame, so one round more than there are frames is enough.
unfoldable pub pop_ready : Reassembler → ℕ → Option Frame × Reassembler
unfolding pop_loop
pop_ready s now_us = pop_loop (suc (length s.pending)) s now_us

-- The indices of the empty pieces below `scan_limit`, `room` of them at most.
unfoldable pub nack_scan : List (List ℕ) → ℕ → ℕ → ℕ → List ℕ
nack_scan [] i scan_limit room = []
nack_scan (p ∷ pieces) i scan_limit zero = []
nack_scan ([] ∷ pieces) i scan_limit (suc room) =
    let rest = nack_scan pieces (suc i) scan_limit room in if ltb i scan_limit then i ∷ rest else []
nack_scan ((b ∷ p) ∷ pieces) i scan_limit (suc room) =
    let rest = nack_scan pieces (suc i) scan_limit (suc room) in
    if ltb i scan_limit then rest else []

-- What a frame answers to the search for packets to ask for.
pub data NackAnswer : Type 0 where
  pass : NackAnswer
  stop : NackAnswer
  ask : List ℕ → NackAnswer

unfoldable pub nack_of : Reassembler → Pending → ℕ → ℕ → ℕ → NackAnswer
unfolding is_complete nack_scan
nack_of s f now_us rtt_us room =
    let age_us = sub64 now_us f.first_seen_us in
    let interval = if ltb nack_min_interval_us rtt_us then rtt_us else nack_min_interval_us in
    let tail_stalled = leb s.frame_interval_us (sub64 now_us f.last_push_us) in
    let found =
      nack_scan f.pieces 0 (if tail_stalled then f.pkt_count else f.max_index_seen) room in
    if is_complete f || leb (hard_timeout_us s) age_us
    then pass
    else if ltb age_us nack_hold_us
        || (not (f.last_nack_us == 0) && ltb (sub64 now_us f.last_nack_us) interval)
        || (length found == 0)
    then stop
    else ask found

unfoldable pub nack_first :
    Reassembler → OrderedMap Pending → ℕ → ℕ → ℕ → Option (ℕ × List ℕ) × Reassembler
unfolding nack_of
nack_first s [] now_us rtt_us room = (none, s)
nack_first s ((id, f) ∷ newer) now_us rtt_us room = elim (nack_of s f now_us rtt_us room) [
  | pass ↦ nack_first s newer now_us rtt_us room
  | stop ↦ (none, s)
  | ask indices ↦ (
    some (id, indices),
    record s { pending = put id (record f { last_nack_us = now_us }) s.pending },
  )
]

-- The frame and the packets of it to ask for; `none` is the answer 0. `room` is `out.size()`.
unfoldable pub plan_nack : Reassembler → ℕ → ℕ → ℕ → Option (ℕ × List ℕ) × Reassembler
unfolding nack_first
plan_nack s now_us rtt_us room =
    if room == 0 then (none, s) else nack_first s s.pending now_us rtt_us room
