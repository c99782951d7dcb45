-- ===== src/Input/Delivery.antt =====
-- The InputSender of the viewer and the InputReceiver of the host.
use deskhub.Base.{
  ℕ, zero, suc, ◌+◌, ◌-◌, ◌^◌, ◌≤◌, ◌<◌, ◌≡◌, refl, sym, ap, ◌∙◌, subst, List, [], ◌∷◌, ◌++◌, map,
  arith, length, take, drop, max, All, none, some, get_elem?, Option-cases, inl, inr, length-drop,
  take-add, drop-drop, take_of_le,
}
use mathlib.Core.List.{Sublist}
use deskhub.Protocol.Wire.{payload_of}
use deskhub.Protocol.Wire.Lists.{InputEvent}
use deskhub.Protocol.Wire.Lists.RoundTrip.{EventFits}
use deskhub.Input.Receiver.{InputReceiver, new_receiver, handle_packet, receive_all}
use deskhub.Input.Receiver.Once.{
  next_seq, CarriesRange, Arrives, handle_packet-CarriesRange, receive_all-Sublist,
}
use deskhub.Input.Sender.{
  InputSender, new_sender, set_session_id, queue, flush, Call, queue_call, flush_call, step, run,
  queued_by,
}
use deskhub.Input.Sender.Window.{Tracks, new_sender-Tracks, queue-Tracks}
use deskhub.Input.Sender.Flushing.{Chain, Chain-append, flush-SendsAll}

-- What the receiver applies of datagrams that leave nothing out.
Chain-applied :
    (queued : List InputEvent) (ds : List (List ℕ)) (r : InputReceiver) (to : ℕ)
    → Chain queued (next_seq r) ds to
    → let x = receive_all r (map payload_of ds) in
      (next_seq r ≤ to) × (x.0 ≡ take (to - next_seq r) (drop (next_seq r) queued))
unfolding receive_all
Chain-applied queued [] r to h =
    let nothing : 0 ≡ to - next_seq r = omega (arith, h) in
    (omega (arith, h), ap (λ n. take n (drop (next_seq r) queued)) nothing)
Chain-applied queued (d ∷ ds) r to (c, low, high, rest) =
    let k = next_seq r in
    let end = c.first + c.count in
    let x = handle_packet r (payload_of d) in
    let (applied, next) = handle_packet-CarriesRange queued r (payload_of d) c in
    let from : max k c.first ≡ k = omega (arith, low) in
    let at : next_seq x.2 ≡ end = omega (arith, next, high) in
    let (more, later) =
      Chain-applied queued ds x.2 to (subst (λ n. Chain queued n ds to) (sym at) rest) in
    let split : k + (end - k) ≡ end = omega (arith, high) in
    let whole : (end - k) + (to - end) ≡ to - k = omega (arith, high, more, at) in
    (
      omega (arith, high, more, at),
      ap (λ l. l ++ (receive_all x.2 (map payload_of ds)).0)
            (applied ∙ ap (λ n. take (end - n) (drop n queued)) from)
          ∙ ap (λ l. take (end - k) (drop k queued) ++ l)
              (later
                ∙ ap (λ n. take (to - n) (drop n queued)) at
                ∙ ap (take (to - end))
                    (ap (λ n. drop n queued) (sym split) ∙ sym (drop-drop (end - k) k queued)))
          ∙ take-add (end - k) (to - end) (drop k queued)
          ∙ ap (λ n. take n (drop k queued)) whole,
    )

module _ (queued : List InputEvent) (fits : length queued < 2 ^ 32)
    (events : All EventFits queued) where
  -- What calls do that queue the events from the number `t` on.
  abbrev RunSends : ℕ → InputSender → List (List ℕ) × InputSender → Type 0
  RunSends t s r =
      Chain queued (t - s.unsent) r.0 (length queued - r.1.unsent)
      × Tracks queued (length queued) r.1

  run-RunSends :
      (calls : List Call) (t : ℕ) (s : InputSender)
      → drop t queued ≡ queued_by calls
      → Tracks queued t s
      → RunSends t s (run s calls)
  unfolding run step
  run-RunSends [] t s e x =
      let end : t ≡ length queued =
        omega (arith, x.inside, ap length (sym e), length-drop t queued) in
      (ap (λ n. n - s.unsent) end, subst (λ n. Tracks queued n s) end x)
  run-RunSends (queue_call e ∷ calls) t s h x =
      let (x', short, pending) = queue-Tracks queued t s e (queued_by calls) fits h x in
      let rest : drop (t + 1) queued ≡ queued_by calls =
        sym (drop-drop 1 t queued) ∙ ap (drop 1) h in
      let same : t + 1 - (queue s e).unsent ≡ t - s.unsent =
        omega (arith, pending, x.unsent, x.base_at) in
      let r = run-RunSends calls (t + 1) (queue s e) rest x' in
      (
        subst
            (λ n.
              Chain queued n (run (queue s e) calls).0
                (length queued - (run (queue s e) calls).1.unsent))
            same r.0,
        r.1,
      )
  run-RunSends (flush_call now_us ∷ calls) t s h x =
      let f = flush s now_us in
      let (chain, x', none_left) = flush-SendsAll queued fits events t s now_us x in
      let r = run-RunSends calls t f.1 h x' in
      let later = run f.1 calls in
      (
        Chain-append queued f.0 later.0 (t - s.unsent) (t - f.1.unsent)
            (length queued - later.1.unsent) chain r.0,
        r.1,
      )

  Chain-get :
      (ds : List (List ℕ)) (from to i : ℕ) (d : List ℕ)
      → Chain queued from ds to
      → get_elem? ds i ≡ some d
      → CarriesRange queued (payload_of d)
  Chain-get [] from to i d h e = absurd (cc)
  Chain-get (d' ∷ ds) from to zero d h e = subst (λ d. CarriesRange queued (payload_of d)) (cc) h.0
  Chain-get (d' ∷ ds) from to (suc i) d h e = Chain-get ds (h.0.first + h.0.count) to i d h.3 e

-- The payloads that come: those of the datagrams at the places `order`, which may leave some out,
-- repeat some and take them in any order.
unfoldable pub arrived : List (List ℕ) → List ℕ → List (List ℕ)
arrived ds [] = []
arrived ds (i ∷ order) = elim (get_elem? ds i) [
  | none ↦ arrived ds order
  | some d ↦ payload_of d ∷ arrived ds order
]

arrived-Arrives :
    (queued : List InputEvent) (ds : List (List ℕ)) (order : List ℕ)
    → ((i : ℕ) (d : List ℕ) → get_elem? ds i ≡ some d → CarriesRange queued (payload_of d))
    → All (Arrives queued) (arrived ds order)
unfolding arrived
arrived-Arrives queued ds [] h = tt
arrived-Arrives queued ds (i ∷ order) h = elim (Option-cases (get_elem? ds i)) [
  | inl e ↦ rw (e, arrived) (arrived-Arrives queued ds order h)
  | inr (d, e) ↦ rw (e, arrived) (inr (h i d e), arrived-Arrives queued ds order h)
]

-- Let a sender of a session with a 32-bit number queue and flush events, fewer than 2 ^ 32 and each
-- with numbers that fit their types, and let its datagrams be lost, repeated and put in any order
-- on the way to a new receiver. Then the events that the receiver applies are a part of those
-- queued, in the order in which they were queued, and none of them twice.
pub arrived-Sublist :
    (session_id : ℕ) (calls : List Call) (order : List ℕ)
    → session_id < 2 ^ 32
    → length (queued_by calls) < 2 ^ 32
    → All EventFits (queued_by calls)
    → let ds = (run (set_session_id new_sender session_id) calls).0 in
      Sublist (receive_all new_receiver (arrived ds order)).0 (queued_by calls)
arrived-Sublist session_id calls order sid fits events =
    let queued = queued_by calls in
    let s = set_session_id new_sender session_id in
    let ds = (run s calls).0 in
    let r =
      run-RunSends queued fits events calls 0 s refl (new_sender-Tracks queued session_id sid) in
    receive_all-Sublist queued (arrived ds order) (
      arrived-Arrives queued ds order (λ i d e.
        Chain-get queued fits events ds (0 - s.unsent) (length queued - (run s calls).1.unsent) i d
          r.0 e))

-- Let a sender of a session with a 32-bit number queue and flush events, fewer than 2 ^ 32 and each
-- with numbers that fit their types, and at last flush once more. If every datagram arrives, in
-- order, a new receiver applies exactly the events that were queued, each once and in order.
pub receive_all-run :
    (session_id : ℕ) (calls : List Call) (now_us : ℕ)
    → session_id < 2 ^ 32
    → length (queued_by calls) < 2 ^ 32
    → All EventFits (queued_by calls)
    → let (ds, s) = run (set_session_id new_sender session_id) calls in
      let last = (flush s now_us).0 in
      (receive_all new_receiver (map payload_of (ds ++ last))).0 ≡ queued_by calls
receive_all-run session_id calls now_us sid fits events =
    let queued = queued_by calls in
    let s0 = set_session_id new_sender session_id in
    let (ds, s) = run s0 calls in
    let r =
      run-RunSends queued fits events calls 0 s0 refl (new_sender-Tracks queued session_id sid) in
    let last = flush s now_us in
    let none_yet : 0 - s0.unsent ≡ 0 = omega arith in
    let (chain, x, none_left) = flush-SendsAll queued fits events (length queued) s now_us r.1 in
    let all : length queued - last.1.unsent ≡ length queued = omega (arith, none_left) in
    let whole : Chain queued 0 (ds ++ last.0) (length queued) =
      subst (Chain queued 0 (ds ++ last.0)) all (
        Chain-append queued ds last.0 0 (length queued - s.unsent) (length queued - last.1.unsent)
          (subst (λ n. Chain queued n ds (length queued - s.unsent)) none_yet r.0) chain) in
    (Chain-applied queued (ds ++ last.0) new_receiver (length queued) whole).1
    ∙ take_of_le (length queued - 0) queued (omega arith)
