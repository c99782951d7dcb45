-- ===== src/Transport/Reassembler/Order.antt =====
-- The order in which frames are handed out, and what is handed out.
use deskhub.Base.{
  ℕ, zero, suc, ◌≤◌, ◌<◌, ◌≡◌, refl, true, false, [], ◌∷◌, arith, length, if◌then◌else◌, ap, ◌∙◌,
  sym, subst, none, some, ◌⊎◌, inl, inr,
}
use deskhub.Base.OrderedMap.{
  OrderedMap, Above, IsSorted, Above-IsSorted, erase, erase-head, find, find-tail, OrderedMap-cases,
}
use deskhub.Transport.Reassembler.State.{Reassembler, Pending, Frame, DropReason, is_complete}
use deskhub.Transport.Reassembler.Loss.{drop_frame}
use deskhub.Transport.Reassembler.Delivery.{
  Verdict, discard, deliver, wait, verdict, frame_of, deliver_head, pop_loop, pop_ready,
}
use deskhub.Transport.Reassembler.Valid.{
  FrameValid, AllValid, IsValid, From, Dropped, drop_frame-Dropped,
}

-- The number after the barrier, 0 if there is none.
unfoldable pub next_id : Reassembler → ℕ
next_id s = if s.have_barrier then suc s.barrier_id else 0

-- No frame below `k` will be handed out.
pub record Floor (k : ℕ) (s : Reassembler) : Type 0 where
  pub barrier : k ≤ next_id s
  pub frames : From k s.pending

pub From-Above : (k id : ℕ) (rest : OrderedMap Pending) → k ≤ suc id → Above id rest → From k rest
From-Above k id [] h a = tt
From-Above k id ((j, f) ∷ rest) h a = (omega arith, a.1)

From-IsSorted : (k : ℕ) (m : OrderedMap Pending) → From k m → IsSorted m
From-IsSorted k [] h = tt
From-IsSorted k ((j, f) ∷ m) h = h.1

-- Giving up the oldest frame lowers no floor.
pub Dropped-Floor :
    (k : ℕ) (s s' : Reassembler) (id : ℕ) (f : Pending) (rest : OrderedMap Pending)
    → s.pending ≡ (id, f) ∷ rest
    → Dropped s id rest s'
    → Floor k s
    → Floor k s'
unfolding next_id
Dropped-Floor k s s' id f rest e d fl =
    let fr : From k ((id, f) ∷ rest) = subst (From k) e fl.frames in
    record {
      barrier = ground (arith, d.have_barrier, d.barrier_id, fl.barrier);
      frames = subst (From k) (sym d.pending) (From-Above k id rest (omega (arith, fr.0)) fr.1);
    }

pub tail-IsValid :
    (s s' : Reassembler) (id : ℕ) (f : Pending) (rest : OrderedMap Pending)
    → s.pending ≡ (id, f) ∷ rest
    → s'.pending ≡ rest
    → IsValid s
    → IsValid s'
tail-IsValid s s' id f rest e d v = record {
  sorted = subst IsSorted (sym d) (Above-IsSorted id rest (subst IsSorted e v.sorted));
  few = omega (arith, v.few, ap length e, ap length d);
  frames = subst AllValid (sym d) (subst AllValid e v.frames).1;
}

-- What is handed out: a frame that was pending, complete, and the floor is now above it.
pub record Delivered (k : ℕ) (s : Reassembler) (frame : Frame) (s' : Reassembler) : Type 0 where
  pub above : k ≤ frame.frame_id
  pub floor : Floor (suc frame.frame_id) s'
  pub valid : IsValid s'
  pub source : Pending
  pub source_found : find frame.frame_id s.pending ≡ some source
  pub source_complete : is_complete source ≡ true
  pub source_valid : FrameValid source
  pub bytes : frame ≡ frame_of frame.frame_id source
  pub starts_idr : s.waiting_for_idr ≡ true → frame.idr ≡ true
  pub waits_no_more : s'.waiting_for_idr ≡ false

deliver_head-Delivered :
    (k : ℕ) (s : Reassembler) (id : ℕ) (f : Pending) (rest : OrderedMap Pending) (now_us : ℕ)
    → s.pending ≡ (id, f) ∷ rest
    → verdict s f rest now_us ≡ deliver
    → IsValid s
    → Floor k s
    → Delivered k s (frame_of id f) (deliver_head s id)
unfolding frame_of next_id find
deliver_head-Delivered k s id f rest now_us e d v fl =
    let fr : From k ((id, f) ∷ rest) = subst (From k) e fl.frames in
    let gone : (deliver_head s id).pending ≡ rest = ap (erase id) e ∙ erase-head id f rest in
    record {
      above = fr.0;
      floor = record {
        barrier = omega arith;
        frames = subst (From (suc id)) (sym gone) (From-Above (suc id) id rest (omega arith) fr.1);
      };
      valid = tail-IsValid s (deliver_head s id) id f rest e gone v;
      source = f;
      source_found = ap (find id) e ∙ ground arith;
      source_complete = unfold verdict in ground (arith, d);
      source_valid = (subst AllValid e v.frames).0;
      bytes = refl;
      starts_idr = unfold verdict in ground (arith, d);
      waits_no_more = refl;
    }

pub Verdict-cases :
    (x : Verdict) → ((r : DropReason) × (x ≡ discard r)) ⊎ (x ≡ deliver) ⊎ (x ≡ wait)
Verdict-cases (discard r) = inl (r, refl)
Verdict-cases deliver = inr (inl refl)
Verdict-cases wait = inr (inr refl)

module _ (fuel : ℕ) (s : Reassembler) (now_us : ℕ) where
  pub pop_loop-empty : s.pending ≡ [] → pop_loop (suc fuel) s now_us ≡ (none, s)
  unfolding pop_loop
  pop_loop-empty e = rw e

  module _ (id : ℕ) (f : Pending) (rest : OrderedMap Pending) (e : s.pending ≡ (id, f) ∷ rest) where
    pub pop_loop-discard :
        (r : DropReason)
        → verdict s f rest now_us ≡ discard r
        → pop_loop (suc fuel) s now_us ≡ pop_loop fuel (drop_frame s id f r now_us) now_us
    unfolding pop_loop
    pop_loop-discard r d = ground arith

    pub pop_loop-deliver :
        verdict s f rest now_us ≡ deliver
        → pop_loop (suc fuel) s now_us ≡ (some (frame_of id f), deliver_head s id)
    unfolding pop_loop
    pop_loop-deliver d = ground arith

    pub pop_loop-wait : verdict s f rest now_us ≡ wait → pop_loop (suc fuel) s now_us ≡ (none, s)
    unfolding pop_loop
    pop_loop-wait d = ground arith

-- What a frame that is handed out after a drop says of the state before the drop.
Delivered-earlier :
    (k : ℕ) (s s1 : Reassembler) (id : ℕ) (f : Pending) (rest : OrderedMap Pending) (frame : Frame)
    (s' : Reassembler)
    → s.pending ≡ (id, f) ∷ rest
    → IsValid s
    → Dropped s id rest s1
    → Delivered k s1 frame s'
    → Delivered k s frame s'
Delivered-earlier k s s1 id f rest frame s' e v d x = record {
  above = x.above;
  floor = x.floor;
  valid = x.valid;
  source = x.source;
  source_found =
      ap (find frame.frame_id) e
      ∙ find-tail frame.frame_id id x.source f rest (subst IsSorted e v.sorted)
          (ap (find frame.frame_id) (sym d.pending) ∙ x.source_found);
  source_complete = x.source_complete;
  source_valid = x.source_valid;
  bytes = x.bytes;
  starts_idr = λ h. x.starts_idr (d.waiting_for_idr ∙ h);
  waits_no_more = x.waits_no_more;
}

pop_loop-Delivered :
    (fuel k : ℕ) (s : Reassembler) (now_us : ℕ) (frame : Frame) (s' : Reassembler)
    → IsValid s
    → Floor k s
    → pop_loop fuel s now_us ≡ (some frame, s')
    → Delivered k s frame s'
pop_loop-Delivered zero k s now_us frame s' v fl h = absurd (unfold pop_loop in cc)
pop_loop-Delivered (suc fuel) k s now_us frame s' v fl h = elim (OrderedMap-cases s.pending) [
  | inl e ↦ absurd (cc (pop_loop-empty fuel s now_us e))
  | inr (id, f, rest, e) ↦ elim (Verdict-cases (verdict s f rest now_us)) [
    | inl (r, d) ↦
        let dr = drop_frame-Dropped s id f rest r now_us e in
        let s1 = drop_frame s id f r now_us in
        Delivered-earlier k s s1 id f rest frame s' e v dr (
          pop_loop-Delivered fuel k s1 now_us frame s' (tail-IsValid s s1 id f rest e dr.pending v)
            (Dropped-Floor k s s1 id f rest e dr fl)
            (sym (pop_loop-discard fuel s now_us id f rest e r d) ∙ h))
    | inr (inl d) ↦
        let same = sym (pop_loop-deliver fuel s now_us id f rest e d) ∙ h in
        let frame_same : frame_of id f ≡ frame = cc in
        let state_same : deliver_head s id ≡ s' = ap (λ x. x.1) same in
        subst (λ x. Delivered k s x s') frame_same
          (subst (λ x. Delivered k s (frame_of id f) x) state_same
            (deliver_head-Delivered k s id f rest now_us e d v fl))
    | inr (inr d) ↦ absurd (cc (pop_loop-wait fuel s now_us id f rest e d))
  ]
]

-- In a valid state in which no frame below `k` can come, the frame that `PopReady` hands out was
-- pending, is numbered `k` or above, has the bytes of all its pieces in order, none missing, and is
-- one that stands alone if the state waited for one; afterwards no frame up to it can come.
pub pop_ready-Delivered :
    (k : ℕ) (s : Reassembler) (now_us : ℕ) (frame : Frame) (s' : Reassembler)
    → IsValid s
    → Floor k s
    → pop_ready s now_us ≡ (some frame, s')
    → Delivered k s frame s'
unfolding pop_ready
pop_ready-Delivered k s now_us frame s' v fl h =
    pop_loop-Delivered (suc (length s.pending)) k s now_us frame s' v fl h

abbrev pub HeadWaits : Reassembler → ℕ → OrderedMap Pending → Type 0
HeadWaits s now_us [] = Unit
HeadWaits s now_us ((id, f) ∷ newer) = verdict s f newer now_us ≡ wait

-- What `PopReady` leaves where it hands nothing out: no frame, or an oldest frame to wait for.
pub record Waiting (k : ℕ) (s s' : Reassembler) (now_us : ℕ) : Type 0 where
  pub floor : Floor k s'
  pub valid : IsValid s'
  pub waiting_for_idr : s'.waiting_for_idr ≡ s.waiting_for_idr
  pub head : HeadWaits s' now_us s'.pending

pop_loop-Waiting :
    (fuel k : ℕ) (s : Reassembler) (now_us : ℕ) (s' : Reassembler)
    → length s.pending < fuel
    → IsValid s
    → Floor k s
    → pop_loop fuel s now_us ≡ (none, s')
    → Waiting k s s' now_us
pop_loop-Waiting zero k s now_us s' n v fl h = elim n [ ]
pop_loop-Waiting (suc fuel) k s now_us s' n v fl h = elim (OrderedMap-cases s.pending) [
  | inl e ↦
      subst (λ x. Waiting k s x now_us) (ap (λ x. x.1) (sym (pop_loop-empty fuel s now_us e) ∙ h))
        (record {
          floor = fl;
          valid = v;
          waiting_for_idr = refl;
          head = subst (HeadWaits s now_us) (sym e) tt;
        })
  | inr (id, f, rest, e) ↦ elim (Verdict-cases (verdict s f rest now_us)) [
    | inl (r, d) ↦
        let dr = drop_frame-Dropped s id f rest r now_us e in
        let s1 = drop_frame s id f r now_us in
        let w =
          pop_loop-Waiting fuel k s1 now_us s' (omega (arith, ap length e, ap length dr.pending))
            (tail-IsValid s s1 id f rest e dr.pending v) (Dropped-Floor k s s1 id f rest e dr fl)
            (sym (pop_loop-discard fuel s now_us id f rest e r d) ∙ h) in
        record {
          floor = w.floor;
          valid = w.valid;
          waiting_for_idr = w.waiting_for_idr ∙ dr.waiting_for_idr;
          head = w.head;
        }
    | inr (inl d) ↦ absurd (cc (pop_loop-deliver fuel s now_us id f rest e d))
    | inr (inr d) ↦
        subst (λ x. Waiting k s x now_us)
          (ap (λ x. x.1) (sym (pop_loop-wait fuel s now_us id f rest e d) ∙ h))
          (record {
            floor = fl;
            valid = v;
            waiting_for_idr = refl;
            head = subst (HeadWaits s now_us) (sym e) d;
          })
  ]
]

pub pop_ready-Waiting :
    (k : ℕ) (s : Reassembler) (now_us : ℕ) (s' : Reassembler)
    → IsValid s
    → Floor k s
    → pop_ready s now_us ≡ (none, s')
    → Waiting k s s' now_us
unfolding pop_ready
pop_ready-Waiting k s now_us s' v fl h =
    pop_loop-Waiting (suc (length s.pending)) k s now_us s' (omega arith) v fl h
