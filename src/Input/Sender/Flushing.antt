-- ===== src/Input/Sender/Flushing.antt =====
-- The datagrams of a Flush: ranges of the queued events, none left out.
use deskhub.Base.{
  ℕ, zero, suc, ◌+◌, ◌-◌, ◌^◌, ◌≤◌, ◌<◌, ◌≡◌, refl, sym, ap, ◌∙◌, subst, true, false, ◌||◌, List,
  [], ◌∷◌, ◌++◌, arith, length, take, drop, min, ltb, leb, ◌==◌, Bool-cases, inl, inr, All,
  All-take, All-drop, length-take, length-drop, take-take, drop-drop, drop-take,
}
use deskhub.Base.Words.{sub64, sub64_of_le, to_u32}
use deskhub.Base.Result.{ok}
use deskhub.Protocol.Wire.{payload_of}
use deskhub.Protocol.Wire.Lists.{InputEvent, max_input_events, build_input_events}
use deskhub.Protocol.Wire.Lists.RoundTrip.{EventFits, parse_input_events-build_input_events}
use deskhub.Input.Receiver.Once.{CarriesRange}
use deskhub.Input.Sender.{
  InputSender, input_redundancy, input_batch_max, send_range, send_batch, after_batch, flush_loop,
  flush_repeat, flush,
}
use deskhub.Input.Sender.Window.{Tracks}

-- The datagrams hold ranges that leave nothing out: before them the events below `from` are sent,
-- after them those below `to`.
abbrev pub Chain : List InputEvent → ℕ → List (List ℕ) → ℕ → Type 0
Chain queued from [] to = from ≡ to
Chain queued from (d ∷ ds) to =
    (c : CarriesRange queued (payload_of d)) × (c.first ≤ from)
    × (from ≤ c.first + c.count)
    × Chain queued (c.first + c.count) ds to

pub Chain-append :
    (queued : List InputEvent) (ds es : List (List ℕ)) (from mid to : ℕ)
    → Chain queued from ds mid
    → Chain queued mid es to
    → Chain queued from (ds ++ es) to
Chain-append queued [] es from mid to h k = subst (λ n. Chain queued n es to) (sym h) k
Chain-append queued (d ∷ ds) es from mid to h k =
    (h.0, h.1, h.2, Chain-append queued ds es (h.0.first + h.0.count) mid to h.3 k)

send_range-step :
    (s : InputSender) (from to : ℕ) (d : List ℕ)
    → from < to
    → build_input_events 1200 s.session_id
        (to_u32 (s.first_seq + to_u32 from))
        (take (min (to - from) max_input_events) (drop from s.history))
      ≡ ok d
    → send_range s from to ≡ d ∷ []
unfolding send_range
send_range-step s from to d lt e =
    let goes : leb to from ≡ false = ground (arith, lt) in rw (goes, e, send_range) refl

-- A range of the history that a packet can take is sent in one datagram.
send_range-CarriesRange :
    (queued : List InputEvent) (t : ℕ) (s : InputSender) (from to : ℕ) (x : Tracks queued t s)
    → length queued < 2 ^ 32
    → All EventFits queued
    → from < to
    → to ≤ length s.history
    → to - from ≤ max_input_events
    → (d : List ℕ) × (send_range s from to ≡ d ∷ [])
      × (c : CarriesRange queued (payload_of d)) × (c.first ≡ x.base + from)
      × (c.count ≡ to - from)
send_range-CarriesRange queued t s from to x fits events lt inside few =
    let n = min (to - from) max_input_events in
    let whole : n ≡ to - from = omega (arith, few) in
    let seq : to_u32 (s.first_seq + to_u32 from) ≡ x.base + from =
      omega
        (arith, x.first_seq (omega (arith, lt, inside)), fits, x.inside, x.base_at, lt, inside) in
    let evs = take (to - from) (drop (x.base + from) queued) in
    let same : take n (drop from s.history) ≡ evs =
      ap (λ k. take k (drop from s.history)) whole
      ∙ ap (λ h. take (to - from) (drop from h)) x.window
      ∙ ap (take (to - from)) (drop-take from (length s.history) (drop x.base queued))
      ∙ take-take (to - from) (length s.history - from) (drop from (drop x.base queued))
          (omega (arith, inside))
      ∙ ap (take (to - from)) (drop-drop from x.base queued) in
    let size : length evs ≡ to - from = omega (
      arith,
      length-take (to - from) (drop (x.base + from) queued),
      length-drop (x.base + from) queued,
      x.inside,
      x.base_at,
      lt,
      inside,
    ) in
    let d =
      parse_input_events-build_input_events 1200 s.session_id x.session_id (x.base + from)
        max_input_events evs (omega (arith, fits, x.inside, x.base_at, lt, inside))
        (All-take EventFits (to - from) (drop (x.base + from) queued)
          (All-drop EventFits (x.base + from) queued events))
        (omega (arith, size, lt)) (omega (arith, size, few)) (omega (arith, size, few))
        (omega (arith, size, few)) in
    (
      d.sent,
      send_range-step s from to d.sent lt (
          ap (λ k. build_input_events 1200 s.session_id k (take n (drop from s.history))) seq
          ∙ ap (build_input_events 1200 s.session_id (x.base + from)) same
          ∙ d.built_ok),
      record {
        first = x.base + from;
        count = to - from;
        some_event = omega (arith, lt);
        inside = omega (arith, x.inside, x.base_at, lt, inside);
        read = d.message_read;
      },
      refl,
      refl,
    )

-- A range of the history goes on from what is sent.
send_range-Chain :
    (queued : List InputEvent) (t : ℕ) (s : InputSender) (from mid to : ℕ) (x : Tracks queued t s)
    → length queued < 2 ^ 32
    → All EventFits queued
    → from < to
    → to ≤ length s.history
    → to - from ≤ max_input_events
    → from ≤ mid
    → mid ≤ to
    → Chain queued (x.base + mid) (send_range s from to) (x.base + to)
send_range-Chain queued t s from mid to x fits events lt inside few low high =
    let (d, e, c, first, count) =
      send_range-CarriesRange queued t s from to x fits events lt inside few in
    let here : Chain queued (x.base + mid) (d ∷ []) (x.base + to) = (
      c,
      omega (arith, first, low),
      omega (arith, first, count, lt, high),
      omega (arith, first, count, lt),
    ) in
    subst (λ ds. Chain queued (x.base + mid) ds (x.base + to)) (sym e) here

module _ (queued : List InputEvent) (fits : length queued < 2 ^ 32)
    (events : All EventFits queued) where
  send_batch-Chain :
      (t : ℕ) (s : InputSender)
      → Tracks queued t s
      → 0 < s.unsent
      → Chain queued (t - s.unsent) (send_batch s) (t - (after_batch s).unsent)
  send_batch-Chain t s x h =
      let new_from = sub64 (length s.history) s.unsent in
      let diff : new_from ≡ length s.history - s.unsent =
        sub64_of_le (length s.history) s.unsent (omega (arith, fits, x.base_at, x.inside))
          x.unsent in
      let from = new_from - min new_from input_redundancy in
      let to = new_from + min s.unsent input_batch_max in
      let start : x.base + new_from ≡ t - s.unsent = omega (arith, diff, x.base_at, x.unsent) in
      let end : x.base + to ≡ t - (after_batch s).unsent =
        omega (arith, diff, x.base_at, x.unsent) in
      subst (λ a. Chain queued a (send_batch s) (t - (after_batch s).unsent)) start
        (subst (Chain queued (x.base + new_from) (send_batch s)) end (
          send_range-Chain queued t s from new_from to x fits events (omega (arith, h))
            (omega (arith, diff, x.unsent)) (omega arith) (omega arith) (omega arith)))

  after_batch-Tracks :
      (t : ℕ) (s : InputSender) → Tracks queued t s → Tracks queued t (after_batch s)
  after_batch-Tracks t s x = record {
    base = x.base;
    base_at = x.base_at;
    window = x.window;
    first_seq = x.first_seq;
    next_seq = x.next_seq;
    unsent = omega (arith, x.unsent);
    inside = x.inside;
    session_id = x.session_id;
  }

  -- What the sending of everything does.
  abbrev SendsAll : ℕ → InputSender → List (List ℕ) × InputSender → Type 0
  SendsAll t s r =
      Chain queued (t - s.unsent) r.0 (t - r.1.unsent) × Tracks queued t r.1 × (r.1.unsent ≡ 0)

  flush_loop-done :
      (fuel : ℕ) (s : InputSender) → (s.unsent == 0) ≡ true → flush_loop (suc fuel) s ≡ ([], s)
  unfolding flush_loop
  flush_loop-done fuel s e = rw e refl

  flush_loop-round :
      (fuel : ℕ) (s : InputSender)
      → (s.unsent == 0) ≡ false
      → let r = flush_loop fuel (after_batch s) in
        flush_loop (suc fuel) s ≡ (send_batch s ++ r.0, r.1)
  unfolding flush_loop
  flush_loop-round fuel s e = rw e refl

  -- As many rounds as there are events send them all.
  flush_loop-SendsAll :
      (fuel t : ℕ) (s : InputSender)
      → s.unsent ≤ fuel
      → Tracks queued t s
      → SendsAll t s (flush_loop fuel s)
  flush_loop-SendsAll zero t s h x = unfold flush_loop in (refl, x, omega (arith, h))
  flush_loop-SendsAll (suc fuel) t s h x = elim (Bool-cases (s.unsent == 0)) [
    | inl e ↦ rw (flush_loop-done fuel s e) (refl, x, ground (arith, e))
    | inr e ↦
        let some_event : 0 < s.unsent = ground (arith, e) in
        let r =
          flush_loop-SendsAll fuel t (after_batch s) (omega (arith, h, some_event))
            (after_batch-Tracks t s x) in
        let later = flush_loop fuel (after_batch s) in
        rw (flush_loop-round fuel s e) (
          Chain-append queued (send_batch s) later.0 (t - s.unsent) (t - (after_batch s).unsent)
              (t - later.1.unsent) (send_batch-Chain t s x some_event) r.0,
          r.1,
          r.2,
        )
  ]

  flush_repeat-SendsAll :
      (t : ℕ) (s : InputSender) (now_us : ℕ)
      → Tracks queued t s
      → 0 < length s.history
      → s.unsent ≡ 0
      → SendsAll t s (flush_repeat s now_us)
  unfolding flush_repeat
  flush_repeat-SendsAll t s now_us x h e =
      elim (Bool-cases (s.repeats_left == 0 || ltb (sub64 now_us s.last_send_us) 25000)) [
        | inl quiet ↦ rw quiet (refl, x, e)
        | inr due ↦
            let to = length s.history in
            let all : x.base + to ≡ t - s.unsent = omega (arith, e, x.base_at) in
            let chain =
              send_range-Chain queued t s (to - min to input_redundancy) to to x fits events
                (omega (arith, h)) (omega arith) (omega arith) (omega arith) (omega arith) in
            rw due (
              subst (λ a. Chain queued a (send_range s (to - min to input_redundancy) to) a) all
                  chain,
              record {
                base = x.base;
                base_at = x.base_at;
                window = x.window;
                first_seq = x.first_seq;
                next_seq = x.next_seq;
                unsent = x.unsent;
                inside = x.inside;
                session_id = x.session_id;
              },
              e,
            )
      ]

  -- A Flush sends every event that waits, in datagrams whose ranges leave nothing out, and may
  -- repeat the last events where none waits.
  pub flush-SendsAll :
      (t : ℕ) (s : InputSender) (now_us : ℕ) → Tracks queued t s → SendsAll t s (flush s now_us)
  unfolding flush
  flush-SendsAll t s now_us x = elim (Bool-cases (length s.history == 0)) [
    | inl empty ↦ rw empty (refl, x, ground (arith, empty, x.unsent))
    | inr full ↦ elim (Bool-cases (s.unsent == 0)) [
      | inl sent ↦
          rw (full, sent) (flush_repeat-SendsAll t s now_us x (ground arith) (ground arith))
      | inr waits ↦
          let r = flush_loop-SendsAll s.unsent t s (omega arith) x in
          rw (full, waits)
            (
              r.0,
              record {
                base = r.1.base;
                base_at = r.1.base_at;
                window = r.1.window;
                first_seq = r.1.first_seq;
                next_seq = r.1.next_seq;
                unsent = r.1.unsent;
                inside = r.1.inside;
                session_id = r.1.session_id;
              },
              r.2,
            )
    ]
  ]
