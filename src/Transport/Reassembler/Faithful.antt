-- ===== src/Transport/Reassembler/Faithful.antt =====
-- Frames of which every packet comes from what one sender sent.
use deskhub.Base.{
  ℕ, zero, suc, ◌≡◌, refl, sym, ap, ◌∙◌, subst, ◌&&◌, ◌||◌, List, [], ◌∷◌, arith, length, ◌==◌, ltb,
  leb, replicate, length-replicate, if◌then◌else◌, All, Option, none, some, Bool-cases,
  Option-cases, ◌⊎◌, inl, inr,
}
use deskhub.Base.OrderedMap.{OrderedMap, Each, find, find-Each, put, put-Each, OrderedMap-cases}
use deskhub.Protocol.Wire.Media.{VideoPacketView, FecPacketView, num_groups}
use deskhub.Transport.Reassembler.State.{Reassembler, Pending, max_pending_frames, evicted}
use deskhub.Transport.Reassembler.Loss.{drop_frame}
use deskhub.Transport.Reassembler.Recovery.{piece, fill_piece, try_recover, group_indices}
use deskhub.Transport.Reassembler.Intake.{
  evict, new_pending, store, touch, slot, recover, place, keep_parity,
}
use deskhub.Transport.Reassembler.Parity.{group_parity}
use deskhub.Transport.Reassembler.Valid.{drop_frame-Dropped}
use deskhub.Transport.Reassembler.Window.{evict-stop, evict-drop}
use deskhub.Transport.Reassembler.Integrity.{
  PieceFits, Agrees, no_parity, fill_piece-Agrees, try_recover-Agrees,
}

piece-replicate : (n i : ℕ) → length (piece (replicate n []) i) ≡ 0
piece-replicate zero i = refl
piece-replicate (suc n) zero = refl
piece-replicate (suc n) (suc i) = piece-replicate n i

-- Only the pieces, the count and the parities matter.
pub same-Agrees :
    (sent : List (List ℕ)) (f f' : Pending)
    → f'.pieces ≡ f.pieces
    → f'.pkt_count ≡ f.pkt_count
    → f'.parity ≡ f.parity
    → Agrees sent f
    → Agrees sent f'
same-Agrees sent f f' p c r a = record {
  count = c ∙ a.count;
  size = ap length p ∙ a.size;
  pieces =
      λ i. subst (λ x. (length (piece x i) ≡ 0) ⊎ (piece x i ≡ piece sent i)) (sym p) (a.pieces i);
  parity =
      subst (Each (λ g par. par ≡ group_parity sent (group_indices (length sent) g) no_parity))
        (sym r) a.parity;
}

new_pending-Agrees :
    (sent : List (List ℕ)) (pkt_count timestamp_us now_us : ℕ)
    → pkt_count ≡ length sent
    → Agrees sent (new_pending pkt_count timestamp_us now_us)
new_pending-Agrees sent pkt_count timestamp_us now_us e = record {
  count = e;
  size = length-replicate pkt_count [] ∙ e;
  pieces = λ i. inl (piece-replicate pkt_count i);
  parity = tt;
}

module _ (source : ℕ → List (List ℕ)) where
  -- Every pending frame agrees with what was sent under its number.
  abbrev pub Faithful : Reassembler → Type 0
  Faithful s = Each (λ id f. Agrees (source id) f) s.pending

  -- What `Slot` answers.
  abbrev pub FaithfulAnswer : ℕ → Option Pending × Reassembler → Type 0
  FaithfulAnswer id (none, s) = Faithful s
  FaithfulAnswer id (some f, s) = Agrees (source id) f × Faithful s

  pub store-Faithful :
      (s : Reassembler) (id : ℕ) (f : Pending)
      → Agrees (source id) f
      → Faithful s
      → Faithful (store s id f)
  store-Faithful s id f a h = put-Each (λ id f. Agrees (source id) f) id f s.pending a h

  pub tail-Faithful :
      (s s' : Reassembler) (id : ℕ) (f : Pending) (rest : OrderedMap Pending)
      → s.pending ≡ (id, f) ∷ rest
      → s'.pending ≡ rest
      → Faithful s
      → Faithful s'
  tail-Faithful s s' id f rest e d h =
      let P = Each (λ id f. Agrees (source id) f) in subst P (sym d) (subst P e h).1

  evict-Faithful : (fuel now_us : ℕ) (s : Reassembler) → Faithful s → Faithful (evict fuel now_us s)
  evict-Faithful zero now_us s h = unfold evict in h
  evict-Faithful (suc fuel) now_us s h =
      elim (Bool-cases (ltb (length s.pending) max_pending_frames)) [
        | inl small ↦ rw (evict-stop fuel now_us s (ground arith)) h
        | inr full ↦ elim (OrderedMap-cases s.pending) [
          | inl e ↦ absurd (ground (arith, ap length e))
          | inr (id, f, rest, e) ↦ rw (evict-drop fuel now_us s id f rest e (ground arith)) (
              evict-Faithful fuel now_us (drop_frame s id f evicted now_us) (
                tail-Faithful s (drop_frame s id f evicted now_us) id f rest e
                  (drop_frame-Dropped s id f rest evicted now_us e).pending h))
        ]
      ]

  touch-FaithfulAnswer :
      (s : Reassembler) (id : ℕ) (f : Pending) (pkt_count now_us : ℕ)
      → Agrees (source id) f
      → Faithful s
      → FaithfulAnswer id (touch s id f pkt_count now_us)
  unfolding touch
  touch-FaithfulAnswer s id f pkt_count now_us a h =
      let b = same-Agrees (source id) f (record f { last_push_us = now_us }) refl refl refl a in
      elim (Bool-cases (f.pkt_count == pkt_count)) [
        | inl e ↦ rw e (b, store-Faithful s id _ b h)
        | inr e ↦ rw e h
      ]

  pub slot-FaithfulAnswer :
      (s : Reassembler) (id pkt_count timestamp_us now_us : ℕ)
      → pkt_count ≡ length (source id)
      → Faithful s
      → FaithfulAnswer id (slot s id pkt_count timestamp_us now_us)
  unfolding slot
  slot-FaithfulAnswer s id pkt_count timestamp_us now_us c h =
      elim (Bool-cases (s.have_barrier && leb id s.barrier_id)) [
        | inl late ↦ rw late h
        | inr fresh ↦ elim (Option-cases (find id s.pending)) [
          | inl e ↦
              let a = new_pending-Agrees (source id) pkt_count timestamp_us now_us c in
              let s1 = evict (length s.pending) now_us s in
              rw (fresh, e)
                (touch-FaithfulAnswer _ id _ pkt_count now_us a
                  (store-Faithful s1 id _ a (evict-Faithful (length s.pending) now_us s h)))
          | inr (f, e) ↦
              rw (fresh, e)
                (touch-FaithfulAnswer s id f pkt_count now_us
                  (find-Each (λ id f. Agrees (source id) f) id f s.pending h e) h)
        ]
      ]

  module _ (fit : (id : ℕ) → All PieceFits (source id)) where
    recover-Faithful :
        (s : Reassembler) (id : ℕ) (f : Pending) (group : ℕ)
        → Agrees (source id) f
        → Faithful s
        → Faithful (recover s id f group)
    unfolding recover
    recover-Faithful s id f group a h = elim (Option-cases (try_recover f group)) [
      | inl e ↦ rw (e, recover) h
      | inr (f', e) ↦
          rw (e, recover)
            (store-Faithful s id f' (try_recover-Agrees (source id) f f' group (fit id) a e) h)
    ]

    pub place-Faithful :
        (s : Reassembler) (f : Pending) (pkt : VideoPacketView)
        → pkt.payload ≡ piece (source pkt.hdr.frame_id) pkt.hdr.pkt_index
        → Agrees (source pkt.hdr.frame_id) f
        → Faithful s
        → Faithful (place s f pkt)
    unfolding place
    place-Faithful s f pkt same a h =
        let id = pkt.hdr.frame_id in
        let i = pkt.hdr.pkt_index in
        let seen : Pending = record f {
          max_index_seen = if ltb f.max_index_seen i then i else f.max_index_seen;
        } in
        let seen_agrees = same-Agrees (source id) f seen refl refl refl a in
        elim (Bool-cases (leb f.pkt_count i)) [
          | inl out ↦ rw out h
          | inr inside ↦ elim (Bool-cases (length (piece f.pieces i) == 0)) [
            | inr there ↦ rw (inside, there) (store-Faithful s id seen seen_agrees h)
            | inl empty ↦
                let taken : Pending = record (fill_piece seen i pkt.payload) {
                  idr = f.idr || pkt.idr;
                } in
                let filled =
                  subst (λ p. Agrees (source id) (fill_piece seen i p)) (sym same)
                    (fill_piece-Agrees (source id) seen i seen_agrees (ground (arith, a.count))) in
                let taken_agrees =
                  same-Agrees (source id) (fill_piece seen i pkt.payload) taken refl refl refl
                    filled in
                let stored = store-Faithful s id taken taken_agrees h in
                elim (Bool-cases (num_groups taken.pkt_count == 0)) [
                  | inl none_left ↦ rw (inside, empty, none_left) stored
                  | inr grouped ↦
                      rw (inside, empty, grouped)
                        (recover-Faithful (store s id taken) id taken _ taken_agrees stored)
                ]
          ]
        ]

    pub keep_parity-Faithful :
        (s : Reassembler) (f : Pending) (pkt : FecPacketView)
        → (let sent = source pkt.hdr.frame_id in
            pkt.parity
            ≡ group_parity sent (group_indices (length sent) pkt.hdr.group_index) no_parity)
        → Agrees (source pkt.hdr.frame_id) f
        → Faithful s
        → Faithful (keep_parity s f pkt)
    unfolding keep_parity
    keep_parity-Faithful s f pkt same a h =
        let id = pkt.hdr.frame_id in
        let kept : Pending = record f {
          idr = f.idr || pkt.idr;
          parity = put pkt.hdr.group_index pkt.parity f.parity;
        } in
        let kept_agrees : Agrees (source id) kept = record {
          count = a.count;
          size = a.size;
          pieces = a.pieces;
          parity =
              put-Each
                (λ g par.
                  par ≡ group_parity (source id) (group_indices (length (source id)) g) no_parity)
                pkt.hdr.group_index pkt.parity f.parity same a.parity;
        } in
        recover-Faithful (store s id kept) id kept pkt.hdr.group_index kept_agrees
          (store-Faithful s id kept kept_agrees h)
