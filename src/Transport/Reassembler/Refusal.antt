-- ===== src/Transport/Reassembler/Refusal.antt =====
-- What no call takes back: a barrier, and the frames below which none is pending.
use deskhub.Base.{
  ℕ, zero, suc, ◌≤◌, ◌≡◌, refl, ap, ◌∙◌, sym, subst, List, [], ◌∷◌, arith, length, ◌==◌, Option,
  none, some, All, Bool-cases, inl, inr,
}
use deskhub.Base.OrderedMap.{OrderedMap, OrderedMap-cases}
use deskhub.Transport.Reassembler.State.{
  Reassembler, Pending, Frame, set_fps, set_rtt_us, take_max_gap_ms, take_loss_event,
}
use deskhub.Transport.Reassembler.Loss.{drop_frame}
use deskhub.Transport.Reassembler.Delivery.{
  pop_ready, pop_loop, plan_nack, nack_first, nack_of, verdict,
}
use deskhub.Transport.Reassembler.Valid.{drop_frame-Dropped}
use deskhub.Transport.Reassembler.Order.{
  next_id, Verdict-cases, pop_loop-empty, pop_loop-discard, pop_loop-deliver, pop_loop-wait,
}
use deskhub.Transport.Reassembler.Window.{Keeps}
use deskhub.Transport.Reassembler.Run.{
  NackAnswer-cases, Call, CallFits, push_call, push_fec_call, pop_call, nack_call, fps_call,
  rtt_call, loss_call, gap_call, step, run, StepKeeps, step-StepKeeps,
}
use deskhub.Transport.Reassembler.Barrier.{
  Blocked, same-Blocked, Dropped-Blocked, push-Blocked, push_fec-Blocked,
}

nack_first-Blocked :
    (id : ℕ) (s : Reassembler) (m : OrderedMap Pending) (now_us rtt_us room : ℕ)
    → Blocked id s
    → Blocked id (nack_first s m now_us rtt_us room).1
unfolding nack_first
nack_first-Blocked id s [] now_us rtt_us room b = b
nack_first-Blocked id s ((j, f) ∷ m) now_us rtt_us room b =
    elim (NackAnswer-cases (nack_of s f now_us rtt_us room)) [
      | inl e ↦ rw (e, nack_first) (nack_first-Blocked id s m now_us rtt_us room b)
      | inr (inl e) ↦ rw (e, nack_first) b
      | inr (inr (indices, e)) ↦ rw (e, nack_first) (same-Blocked id s _ refl refl b)
    ]

plan_nack-Blocked :
    (id : ℕ) (s : Reassembler) (now_us rtt_us room : ℕ)
    → Blocked id s
    → Blocked id (plan_nack s now_us rtt_us room).1
unfolding plan_nack
plan_nack-Blocked id s now_us rtt_us room b = elim (Bool-cases (room == 0)) [
  | inl e ↦ rw e b
  | inr e ↦ rw e (nack_first-Blocked id s s.pending now_us rtt_us room b)
]

set_fps-Blocked : (id : ℕ) (s : Reassembler) (fps : ℕ) → Blocked id s → Blocked id (set_fps s fps)
unfolding set_fps
set_fps-Blocked id s fps b = elim (Bool-cases (fps == 0)) [
  | inl e ↦ rw e b
  | inr e ↦ rw e (same-Blocked id s _ refl refl b)
]

-- Where nothing is handed out, frames were dropped at most.
pop_loop-Blocked :
    (fuel id : ℕ) (s : Reassembler) (now_us : ℕ) (s' : Reassembler)
    → Blocked id s
    → pop_loop fuel s now_us ≡ (none, s')
    → Blocked id s'
pop_loop-Blocked zero id s now_us s' b h =
    let same : s ≡ s' = unfold pop_loop in ap (λ (x : Option Frame × Reassembler). x.1) h in
    subst (Blocked id) same b
pop_loop-Blocked (suc fuel) id s now_us s' b h = elim (OrderedMap-cases s.pending) [
  | inl e ↦ subst (Blocked id) (ap (λ x. x.1) (sym (pop_loop-empty fuel s now_us e) ∙ h)) b
  | inr (j, f, rest, e) ↦ elim (Verdict-cases (verdict s f rest now_us)) [
    | inl (r, d) ↦
        let dr = drop_frame-Dropped s j f rest r now_us e in
        pop_loop-Blocked fuel id (drop_frame s j f r now_us) now_us s'
          (Dropped-Blocked id s _ j rest dr b)
          (sym (pop_loop-discard fuel s now_us j f rest e r d) ∙ h)
    | inr (inl d) ↦ absurd (cc (pop_loop-deliver fuel s now_us j f rest e d))
    | inr (inr d) ↦
        subst (Blocked id) (ap (λ x. x.1) (sym (pop_loop-wait fuel s now_us j f rest e d) ∙ h)) b
  ]
]

-- No packet of a frame up to `id` is taken, and no frame below it is handed out.
pub record Refuses (id : ℕ) (s : Reassembler) : Type 0 where
  pub level : ℕ
  pub above : id ≤ level
  pub keeps : Keeps level s
  pub blocked : Blocked id s

-- A frame that is handed out leaves the barrier at its number.
handed_out-Refuses :
    (id k : ℕ) (frame : Frame) (s : Reassembler)
    → id ≤ k
    → k ≤ frame.frame_id
    → Keeps (suc frame.frame_id) s
    → Refuses id s
unfolding next_id
handed_out-Refuses id k frame s h low v =
    let barrier = v.floor.barrier in
    elim (Bool-cases s.have_barrier) [
      | inl e ↦ record {
        level = suc frame.frame_id;
        above = omega (arith, h, low);
        keeps = v;
        blocked = record { have_barrier = e; barrier_id = ground (arith, e, barrier, h, low) };
      }
      | inr e ↦ absurd (ground (arith, e, barrier))
    ]

pop-Refuses :
    (id : ℕ) (s : Reassembler) (now_us : ℕ) (r : Option Frame × Reassembler)
    → (v : Refuses id s) → pop_ready s now_us ≡ r
    → StepKeeps v.level r
    → Refuses id r.1
unfolding pop_ready
pop-Refuses id s now_us (none, s') v e w = record {
  level = v.level;
  above = v.above;
  keeps = w;
  blocked = pop_loop-Blocked (suc (length s.pending)) id s now_us s' v.blocked e;
}
pop-Refuses id s now_us (some frame, s') v e w =
    handed_out-Refuses id v.level frame s' v.above w.0 w.1

keep-Refuses :
    (id : ℕ) (s s' : Reassembler) (v : Refuses id s)
    → Keeps v.level s'
    → Blocked id s'
    → Refuses id s'
keep-Refuses id s s' v k b = record { level = v.level; above = v.above; keeps = k; blocked = b }

step-Refuses :
    (id : ℕ) (s : Reassembler) (call : Call)
    → CallFits call
    → Refuses id s
    → Refuses id (step s call).1
unfolding step
step-Refuses id s (pop_call now_us) c v =
    pop-Refuses id s now_us _ v refl (step-StepKeeps v.level s (pop_call now_us) c v.keeps)
step-Refuses id s (push_call pkt now_us) c v =
    keep-Refuses id s _ v (step-StepKeeps v.level s (push_call pkt now_us) c v.keeps)
      (push-Blocked id s pkt now_us v.blocked)
step-Refuses id s (push_fec_call pkt now_us) c v =
    keep-Refuses id s _ v (step-StepKeeps v.level s (push_fec_call pkt now_us) c v.keeps)
      (push_fec-Blocked id s pkt now_us v.blocked)
step-Refuses id s (nack_call now_us rtt_us room) c v =
    keep-Refuses id s _ v (step-StepKeeps v.level s (nack_call now_us rtt_us room) c v.keeps)
      (plan_nack-Blocked id s now_us rtt_us room v.blocked)
step-Refuses id s (fps_call fps) c v =
    keep-Refuses id s _ v (step-StepKeeps v.level s (fps_call fps) c v.keeps)
      (set_fps-Blocked id s fps v.blocked)
step-Refuses id s (rtt_call rtt_us) c v =
    keep-Refuses id s _ v (step-StepKeeps v.level s (rtt_call rtt_us) c v.keeps)
      (unfold set_rtt_us in same-Blocked id s _ refl refl v.blocked)
step-Refuses id s loss_call c v =
    keep-Refuses id s _ v (step-StepKeeps v.level s loss_call c v.keeps)
      (unfold take_loss_event in same-Blocked id s _ refl refl v.blocked)
step-Refuses id s gap_call c v =
    keep-Refuses id s _ v (step-StepKeeps v.level s gap_call c v.keeps)
      (unfold take_max_gap_ms in same-Blocked id s _ refl refl v.blocked)

-- No sequence of calls takes it back.
pub run-Refuses :
    (id : ℕ) (calls : List Call) (s : Reassembler)
    → All CallFits calls
    → Refuses id s
    → Refuses id (run s calls).1
unfolding run
run-Refuses id [] s c v = v
run-Refuses id (call ∷ calls) s c v =
    run-Refuses id calls (step s call).1 c.1 (step-Refuses id s call c.0 v)
