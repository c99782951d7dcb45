-- ===== src/Transport/Reassembler/Valid.antt =====
-- What holds of every frame that is pending, and of the pending frames together.
use deskhub.Base.{
  ℕ, zero, suc, ◌^◌, ◌≤◌, ◌<◌, ◌≡◌, refl, true, not, ◌||◌, List, [], ◌∷◌, arith, length, ltb,
  if◌then◌else◌, set, replicate, ap, ◌∙◌,
}
use deskhub.Base.OrderedMap.{OrderedMap, Above, IsSorted, Each, erase, erase-head}
use deskhub.Transport.Reassembler.State.{
  Reassembler, Pending, DropReason, max_pending_frames, Callback, timeout, overtaken, evicted,
  pre_idr,
}
use deskhub.Transport.Reassembler.Loss.{
  drop_frame, count_loss, count_skip, raise_barrier, forget, scan_of,
}
use deskhub.Transport.Reassembler.Recovery.{piece}

-- The number of pieces that are there.
unfoldable pub filled_count : List (List ℕ) → ℕ
filled_count [] = 0
filled_count ([] ∷ pieces) = filled_count pieces
filled_count ((b ∷ p) ∷ pieces) = suc (filled_count pieces)

pub record FrameValid (f : Pending) : Type 0 where
  pub pieces : length f.pieces ≡ f.pkt_count
  pub pkt_count : f.pkt_count < 2 ^ 16
  pub received : f.received ≡ filled_count f.pieces

abbrev pub AllValid : OrderedMap Pending → Type 0
AllValid m = Each (λ id f. FrameValid f) m

pub record IsValid (s : Reassembler) : Type 0 where
  pub sorted : IsSorted s.pending
  pub few : length s.pending ≤ max_pending_frames
  pub frames : AllValid s.pending

pub filled_count-set :
    (pieces : List (List ℕ)) (i : ℕ) (p : List ℕ)
    → i < length pieces
    → length (piece pieces i) ≡ 0
    → 0 < length p
    → filled_count (set pieces i p) ≡ suc (filled_count pieces)
unfolding filled_count
filled_count-set [] i p h e n = elim h [ ]
filled_count-set ([] ∷ pieces) zero [] h e n = elim n [ ]
filled_count-set ([] ∷ pieces) zero (b ∷ p) h e n = refl
filled_count-set ((c ∷ q) ∷ pieces) zero p h e n = absurd (omega (arith, e))
filled_count-set ([] ∷ pieces) (suc i) p h e n = filled_count-set pieces i p (omega arith) e n
filled_count-set ((c ∷ q) ∷ pieces) (suc i) p h e n =
    ap suc (filled_count-set pieces i p (omega arith) e n)

pub filled_count-le : (pieces : List (List ℕ)) → filled_count pieces ≤ length pieces
unfolding filled_count
filled_count-le [] = omega arith
filled_count-le ([] ∷ pieces) = omega (arith, filled_count-le pieces)
filled_count-le ((b ∷ p) ∷ pieces) = omega (arith, filled_count-le pieces)

pub filled_count-lt :
    (pieces : List (List ℕ)) (i : ℕ)
    → i < length pieces
    → length (piece pieces i) ≡ 0
    → filled_count pieces < length pieces
unfolding filled_count
filled_count-lt [] i h e = elim h [ ]
filled_count-lt ([] ∷ pieces) zero h e = omega (arith, filled_count-le pieces)
filled_count-lt ((c ∷ q) ∷ pieces) zero h e = absurd (omega (arith, e))
filled_count-lt ([] ∷ pieces) (suc i) h e = omega (arith, filled_count-le pieces)
filled_count-lt ((c ∷ q) ∷ pieces) (suc i) h e =
    omega (arith, filled_count-lt pieces i (omega arith) e)

pub filled_count-replicate : (n : ℕ) → filled_count (replicate n []) ≡ 0
unfolding filled_count
filled_count-replicate zero = refl
filled_count-replicate (suc n) = filled_count-replicate n

-- The frames that are numbered from `k` on, ascending.
abbrev pub From : ℕ → OrderedMap Pending → Type 0
From k [] = Unit
From k ((j, f) ∷ m) = (k ≤ j) × Above j m

-- What giving up the oldest frame does, whatever the reason.
pub record Dropped (s : Reassembler) (id : ℕ) (rest : OrderedMap Pending) (s' : Reassembler)
    : Type 0 where
  pub pending : s'.pending ≡ rest
  pub have_barrier : s'.have_barrier ≡ true
  pub barrier_id :
      s'.barrier_id ≡ (if not s.have_barrier || ltb s.barrier_id id then id else s.barrier_id)
  pub waiting_for_idr : s'.waiting_for_idr ≡ s.waiting_for_idr
  pub frame_interval_us : s'.frame_interval_us ≡ s.frame_interval_us
  pub rtt_us : s'.rtt_us ≡ s.rtt_us

-- The barrier rises; nothing else changes.
record Raised (s : Reassembler) (id : ℕ) (s' : Reassembler) : Type 0 where
  pub pending : s'.pending ≡ s.pending
  pub have_barrier : s'.have_barrier ≡ true
  pub barrier_id :
      s'.barrier_id ≡ (if not s.have_barrier || ltb s.barrier_id id then id else s.barrier_id)
  pub waiting_for_idr : s'.waiting_for_idr ≡ s.waiting_for_idr
  pub frame_interval_us : s'.frame_interval_us ≡ s.frame_interval_us
  pub rtt_us : s'.rtt_us ≡ s.rtt_us

raise_barrier-Raised : (s : Reassembler) (id : ℕ) → Raised s id (raise_barrier s id)
unfolding raise_barrier
raise_barrier-Raised s id = record {
  pending = ground arith;
  have_barrier = ground arith;
  barrier_id = ground arith;
  waiting_for_idr = ground arith;
  frame_interval_us = ground arith;
  rtt_us = ground arith;
}

forget-Dropped :
    (s s0 : Reassembler) (id : ℕ) (f : Pending) (rest : OrderedMap Pending) (calls : List Callback)
    → s.pending ≡ (id, f) ∷ rest
    → Raised s id s0
    → Dropped s id rest (forget s0 id calls)
unfolding forget
forget-Dropped s s0 id f rest calls e r = record {
  pending = ap (erase id) (r.pending ∙ e) ∙ erase-head id f rest;
  have_barrier = r.have_barrier;
  barrier_id = r.barrier_id;
  waiting_for_idr = r.waiting_for_idr;
  frame_interval_us = r.frame_interval_us;
  rtt_us = r.rtt_us;
}

lost-Raised :
    (s : Reassembler) (id : ℕ) (f : Pending) (now_us : ℕ)
    → Raised s id (raise_barrier (count_loss s id f now_us (scan_of s f)) id)
unfolding count_loss
lost-Raised s id f now_us =
    let r = raise_barrier-Raised (count_loss s id f now_us (scan_of s f)) id in
    record {
      pending = r.pending;
      have_barrier = r.have_barrier;
      barrier_id = r.barrier_id;
      waiting_for_idr = r.waiting_for_idr;
      frame_interval_us = r.frame_interval_us;
      rtt_us = r.rtt_us;
    }

skipped-Raised : (s : Reassembler) (id : ℕ) → Raised s id (raise_barrier (count_skip s) id)
unfolding count_skip
skipped-Raised s id =
    let r = raise_barrier-Raised (count_skip s) id in
    record {
      pending = r.pending;
      have_barrier = r.have_barrier;
      barrier_id = r.barrier_id;
      waiting_for_idr = r.waiting_for_idr;
      frame_interval_us = r.frame_interval_us;
      rtt_us = r.rtt_us;
    }

-- After a drop the frame is gone and the barrier is at its number at least.
pub drop_frame-Dropped :
    (s : Reassembler) (id : ℕ) (f : Pending) (rest : OrderedMap Pending) (reason : DropReason)
    (now_us : ℕ)
    → s.pending ≡ (id, f) ∷ rest
    → Dropped s id rest (drop_frame s id f reason now_us)
unfolding drop_frame
drop_frame-Dropped s id f rest timeout now_us e =
    forget-Dropped s _ id f rest _ e (lost-Raised s id f now_us)
drop_frame-Dropped s id f rest overtaken now_us e =
    forget-Dropped s _ id f rest _ e (lost-Raised s id f now_us)
drop_frame-Dropped s id f rest evicted now_us e =
    forget-Dropped s _ id f rest _ e (lost-Raised s id f now_us)
drop_frame-Dropped s id f rest pre_idr now_us e =
    forget-Dropped s _ id f rest _ e (skipped-Raised s id)
