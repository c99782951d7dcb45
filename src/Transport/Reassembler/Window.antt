-- ===== src/Transport/Reassembler/Window.antt =====
-- The window of pending frames: how entries come and go.
use deskhub.Base.{
  ℕ, zero, suc, ◌≤◌, ◌<◌, ◌≡◌, [], ◌∷◌, arith, length, ltb, ap, sym, subst, Bool-cases, inl, inr,
}
use deskhub.Base.OrderedMap.{
  OrderedMap, IsSorted, put, put-Each, put-IsSorted, put-Above, OrderedMap-cases,
}
use deskhub.Transport.Reassembler.State.{Reassembler, Pending, max_pending_frames, evicted}
use deskhub.Transport.Reassembler.Loss.{drop_frame}
use deskhub.Transport.Reassembler.Intake.{evict, store}
use deskhub.Transport.Reassembler.Valid.{
  FrameValid, AllValid, IsValid, From, Dropped, drop_frame-Dropped,
}
use deskhub.Transport.Reassembler.Order.{next_id, Floor, Dropped-Floor, tail-IsValid}

-- A valid state that will hand out no frame below `k`.
pub record Keeps (k : ℕ) (s : Reassembler) : Type 0 where
  pub valid : IsValid s
  pub floor : Floor k s

pub put-From :
    (k id : ℕ) (f : Pending) (m : OrderedMap Pending) → k ≤ id → From k m → From k (put id f m)
unfolding put
put-From k id f [] h a = (h, tt)
put-From k id f ((j, g) ∷ m) h a = ground (arith, put-Above j id f m)

-- Only the pending frames and the barrier matter.
pub Keeps-same :
    (k : ℕ) (s s' : Reassembler)
    → s'.pending ≡ s.pending
    → s'.have_barrier ≡ s.have_barrier
    → s'.barrier_id ≡ s.barrier_id
    → Keeps k s
    → Keeps k s'
unfolding next_id
Keeps-same k s s' p h b v = record {
  valid = record {
    sorted = subst IsSorted (sym p) v.valid.sorted;
    few = subst (λ m. length m ≤ max_pending_frames) (sym p) v.valid.few;
    frames = subst AllValid (sym p) v.valid.frames;
  };
  floor = record {
    barrier = ground (arith, v.floor.barrier);
    frames = subst (From k) (sym p) v.floor.frames;
  };
}

pub store-Keeps :
    (k : ℕ) (s : Reassembler) (id : ℕ) (f : Pending)
    → Keeps k s
    → k ≤ id
    → FrameValid f
    → length (put id f s.pending) ≤ max_pending_frames
    → Keeps k (store s id f)
unfolding next_id
store-Keeps k s id f v h fv n = record {
  valid = record {
    sorted = put-IsSorted id f s.pending v.valid.sorted;
    few = n;
    frames = put-Each (λ id f. FrameValid f) id f s.pending fv v.valid.frames;
  };
  floor = record { barrier = v.floor.barrier; frames = put-From k id f s.pending h v.floor.frames };
}

pub Dropped-Keeps :
    (k : ℕ) (s s' : Reassembler) (id : ℕ) (f : Pending) (rest : OrderedMap Pending)
    → s.pending ≡ (id, f) ∷ rest
    → Dropped s id rest s'
    → Keeps k s
    → Keeps k s'
Dropped-Keeps k s s' id f rest e d v = record {
  valid = tail-IsValid s s' id f rest e d.pending v.valid;
  floor = Dropped-Floor k s s' id f rest e d v.floor;
}

module _ (fuel now_us : ℕ) (s : Reassembler) where
  pub evict-stop : length s.pending < max_pending_frames → evict (suc fuel) now_us s ≡ s
  unfolding evict
  evict-stop n = elim (OrderedMap-cases s.pending) [
    | inl e ↦ ground arith
    | inr (id, f, rest, e) ↦ ground arith
  ]

  pub evict-drop :
      (id : ℕ) (f : Pending) (rest : OrderedMap Pending)
      → s.pending ≡ (id, f) ∷ rest
      → max_pending_frames ≤ length s.pending
      → evict (suc fuel) now_us s ≡ evict fuel now_us (drop_frame s id f evicted now_us)
  unfolding evict
  evict-drop id f rest e n = ground arith

-- The oldest frames make room for one more.
abbrev pub HasRoom : ℕ → Reassembler → Type 0
HasRoom k s = Keeps k s × (length s.pending < max_pending_frames)

pub evict-HasRoom :
    (fuel now_us k : ℕ) (s : Reassembler)
    → length s.pending ≤ fuel
    → Keeps k s
    → HasRoom k (evict fuel now_us s)
evict-HasRoom zero now_us k s n v = (unfold evict in v, unfold evict in omega arith)
evict-HasRoom (suc fuel) now_us k s n v = elim (OrderedMap-cases s.pending) [
  | inl e ↦
      rw (evict-stop fuel now_us s (omega (arith, ap length e))) (v, omega (arith, ap length e))
  | inr (id, f, rest, e) ↦ elim (Bool-cases (ltb (length s.pending) max_pending_frames)) [
    | inl small ↦ rw (evict-stop fuel now_us s (ground arith)) (v, ground arith)
    | inr full ↦
        let d = drop_frame-Dropped s id f rest evicted now_us e in
        rw (evict-drop fuel now_us s id f rest e (ground arith)) (
          evict-HasRoom fuel now_us k (drop_frame s id f evicted now_us)
            (omega (arith, ap length e, ap length d.pending))
            (Dropped-Keeps k s (drop_frame s id f evicted now_us) id f rest e d v))
  ]
]
