-- ===== src/Transport/Reassembler/SlotLaws.antt =====
-- What `Slot` answers, and what putting a frame back or recovering a packet does.
use deskhub.Base.{
  ℕ, ◌^◌, ◌≤◌, ◌<◌, ◌≡◌, refl, ◌&&◌, [], arith, length, leb, ap, ◌∙◌, sym, ◌==◌, Option, none, some,
  Option-cases, Bool-cases, length-replicate, inl, inr,
}
use deskhub.Base.OrderedMap.{find, find-Each, length-put-le, length-put_of_IsSorted, find-put_self}
use deskhub.Transport.Reassembler.State.{Reassembler, Pending}
use deskhub.Transport.Reassembler.Recovery.{try_recover}
use deskhub.Transport.Reassembler.Intake.{evict, new_pending, store, touch, slot, recover}
use deskhub.Transport.Reassembler.Valid.{FrameValid, filled_count, filled_count-replicate}
use deskhub.Transport.Reassembler.Order.{next_id}
use deskhub.Transport.Reassembler.Upkeep.{try_recover-FrameValid}
use deskhub.Transport.Reassembler.Window.{Keeps, Keeps-same, store-Keeps, HasRoom, evict-HasRoom}

pub same_pieces :
    (f f' : Pending)
    → f'.pieces ≡ f.pieces
    → f'.pkt_count ≡ f.pkt_count
    → f'.received ≡ f.received
    → FrameValid f
    → FrameValid f'
same_pieces f f' p c r v = record {
  pieces = ap length p ∙ v.pieces ∙ sym c;
  pkt_count = omega (arith, c, v.pkt_count);
  received = r ∙ v.received ∙ ap filled_count (sym p);
}

-- What `Slot` answers: a frame that is pending, of as many packets as asked for.
pub record Slotted (k id pkt_count : ℕ) (f : Pending) (s : Reassembler) : Type 0 where
  pub keeps : Keeps k s
  pub above : k ≤ id
  pub valid : FrameValid f
  pub count : f.pkt_count ≡ pkt_count
  pub stored : find id s.pending ≡ some f

-- A frame that is pending is put back.
pub put_back-Keeps :
    (k id pkt_count : ℕ) (f f' : Pending) (s : Reassembler)
    → Slotted k id pkt_count f s
    → FrameValid f'
    → Keeps k (store s id f')
put_back-Keeps k id pkt_count f f' s x v = store-Keeps k s id f' x.keeps x.above v (
    omega (
      arith,
      x.keeps.valid.few,
      length-put_of_IsSorted id f' f s.pending x.keeps.valid.sorted x.stored,
    ))

pub put_back-Slotted :
    (k id pkt_count n : ℕ) (f f' : Pending) (s : Reassembler)
    → Slotted k id pkt_count f s
    → FrameValid f'
    → f'.pkt_count ≡ n
    → Slotted k id n f' (store s id f')
put_back-Slotted k id pkt_count n f f' s x v c = record {
  keeps = put_back-Keeps k id pkt_count f f' s x v;
  above = x.above;
  valid = v;
  count = c;
  stored = find-put_self id f' s.pending;
}

-- The answer of `Slot` with the state that it leaves.
abbrev pub SlotAnswer : (k id pkt_count : ℕ) → Option Pending × Reassembler → Type 0
SlotAnswer k id pkt_count (none, s) = Keeps k s
SlotAnswer k id pkt_count (some f, s) = Slotted k id pkt_count f s

pub touch-SlotAnswer :
    (k id : ℕ) (f : Pending) (pkt_count now_us : ℕ) (s : Reassembler)
    → Slotted k id f.pkt_count f s
    → SlotAnswer k id pkt_count (touch s id f pkt_count now_us)
unfolding touch
touch-SlotAnswer k id f pkt_count now_us s x = elim (Bool-cases (f.pkt_count == pkt_count)) [
  | inl e ↦ rw e (
      put_back-Slotted k id f.pkt_count pkt_count f (record f { last_push_us = now_us }) s x
        (same_pieces f _ refl refl refl x.valid) (ground arith))
  | inr e ↦ rw e x.keeps
]

pub new_pending-FrameValid :
    (pkt_count timestamp_us now_us : ℕ)
    → pkt_count < 2 ^ 16
    → FrameValid (new_pending pkt_count timestamp_us now_us)
new_pending-FrameValid pkt_count timestamp_us now_us h = record {
  pieces = length-replicate pkt_count [];
  pkt_count = h;
  received = sym (filled_count-replicate pkt_count);
}

-- A frame that is not pending is made.
pub made-Slotted :
    (k id : ℕ) (f : Pending) (s : Reassembler)
    → HasRoom k s
    → k ≤ id
    → FrameValid f
    → Slotted k id f.pkt_count f (store s id f)
made-Slotted k id f s room h v = record {
  keeps = store-Keeps k s id f room.0 h v (omega (arith, room.1, length-put-le id f s.pending));
  above = h;
  valid = v;
  count = refl;
  stored = find-put_self id f s.pending;
}

pub slot-SlotAnswer :
    (k : ℕ) (s : Reassembler) (id pkt_count timestamp_us now_us : ℕ)
    → pkt_count < 2 ^ 16
    → Keeps k s
    → SlotAnswer k id pkt_count (slot s id pkt_count timestamp_us now_us)
unfolding slot
slot-SlotAnswer k s id pkt_count timestamp_us now_us c v =
    elim (Bool-cases (s.have_barrier && leb id s.barrier_id)) [
      | inl late ↦ rw late v
      | inr fresh ↦
          let above : k ≤ id = unfold next_id in ground (arith, v.floor.barrier) in
          elim (Option-cases (find id s.pending)) [
            | inl e ↦
                let f = new_pending pkt_count timestamp_us now_us in
                let room = evict-HasRoom (length s.pending) now_us k s (omega arith) v in
                rw (fresh, e)
                  (touch-SlotAnswer k id f pkt_count now_us
                    (store (evict (length s.pending) now_us s) id f)
                    (made-Slotted k id f (evict (length s.pending) now_us s) room above
                      (new_pending-FrameValid pkt_count timestamp_us now_us c)))
            | inr (f, e) ↦
                rw (fresh, e)
                  (touch-SlotAnswer k id f pkt_count now_us s (record {
                    keeps = v;
                    above = above;
                    valid = find-Each (λ id f. FrameValid f) id f s.pending v.valid.frames e;
                    count = refl;
                    stored = e;
                  }))
          ]
    ]

pub recover-Keeps :
    (k id pkt_count : ℕ) (s : Reassembler) (f : Pending) (group : ℕ)
    → Slotted k id pkt_count f s
    → Keeps k (recover s id f group)
unfolding recover
recover-Keeps k id pkt_count s f group x = elim (Option-cases (try_recover f group)) [
  | inl e ↦ rw (e, recover) x.keeps
  | inr (f', e) ↦
      rw (e, recover)
        (Keeps-same k (store s id f') _ refl refl refl
          (put_back-Keeps k id pkt_count f f' s x (try_recover-FrameValid f f' group x.valid e)))
]
