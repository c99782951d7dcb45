-- ===== src/Input/Sender/Window.antt =====
-- The history of the sender is a window on the events that were queued.
use deskhub.Base.{
  ℕ, suc, ◌+◌, ◌-◌, ◌^◌, ◌≤◌, ◌<◌, ◌≡◌, refl, sym, ap, ◌∙◌, subst, true, false, ◌&&◌, List, [], ◌∷◌,
  ◌++◌, arith, length, take, drop, max, ltb, ◌==◌, if◌then◌else◌, Bool-cases, inl, inr,
  length-append, length-drop, take-add, drop-drop, drop-take,
}
use deskhub.Base.Words.{sub64, sub64_of_le, to_u32}
use deskhub.Protocol.Wire.Lists.{InputEvent}
use deskhub.Input.Sender.{
  InputSender, new_sender, set_session_id, history_max, input_redundancy, trim, queue,
}

-- What is left of the history: all but the `gone` oldest.
record Trimmed (history : List InputEvent) (first_seq unsent : ℕ) : Type 0 where
  pub gone : ℕ
  pub result : trim history first_seq unsent ≡ (drop gone history, first_seq + gone)
  pub left : 0 < length history → gone < length history
  pub room : unsent + gone ≤ length history
  pub small : length history - gone ≤ max history_max (unsent + input_redundancy)

trim-stop :
    (e : InputEvent) (history : List InputEvent) (first_seq unsent : ℕ)
    → (ltb history_max (suc (length history))
        && ltb input_redundancy (sub64 (suc (length history)) unsent))
      ≡ false
    → trim (e ∷ history) first_seq unsent ≡ (e ∷ history, first_seq)
unfolding trim
trim-stop e history first_seq unsent h = rw h refl

trim-go :
    (e : InputEvent) (history : List InputEvent) (first_seq unsent : ℕ)
    → (ltb history_max (suc (length history))
        && ltb input_redundancy (sub64 (suc (length history)) unsent))
      ≡ true
    → trim (e ∷ history) first_seq unsent ≡ trim history (to_u32 (first_seq + 1)) unsent
unfolding trim
trim-go e history first_seq unsent h = rw h refl

trim-Trimmed :
    (history : List InputEvent) (first_seq unsent : ℕ)
    → unsent ≤ length history
    → first_seq + length history < 2 ^ 32
    → Trimmed history first_seq unsent
trim-Trimmed [] first_seq unsent h fits = record {
  gone = 0;
  result =
      unfold trim in (let same : first_seq ≡ first_seq + 0 = omega arith in ap (λ k. ([], k)) same);
  left = λ z. z;
  room = omega (arith, h);
  small = omega arith;
}
trim-Trimmed (e ∷ history) first_seq unsent h fits =
    let diff : sub64 (suc (length history)) unsent ≡ suc (length history) - unsent =
      sub64_of_le (suc (length history)) unsent (omega (arith, fits)) h in
    elim (Bool-cases (
      ltb history_max (suc (length history))
      && ltb input_redundancy (sub64 (suc (length history)) unsent))) [
        | inl go ↦
            let over : history_max < suc (length history) = ground (arith, go) in
            let over' : input_redundancy < suc (length history) - unsent =
              ground (arith, go, diff) in
            let t =
              trim-Trimmed history (to_u32 (first_seq + 1)) unsent (omega (arith, over'))
                (omega (arith, fits)) in
            let seq : to_u32 (first_seq + 1) + t.gone ≡ first_seq + suc t.gone =
              omega (arith, fits) in
            record {
              gone = suc t.gone;
              result =
                  trim-go e history first_seq unsent go
                  ∙ t.result
                  ∙ ap (λ k. (drop t.gone history, k)) seq;
              left = λ _. omega (arith, t.left (omega (arith, over)));
              room = omega (arith, t.room);
              small = omega (arith, t.small);
            }
        | inr stop ↦ record {
          gone = 0;
          result =
              let same : first_seq ≡ first_seq + 0 = omega arith in
              trim-stop e history first_seq unsent stop ∙ ap (λ k. (e ∷ history, k)) same;
          left = λ z. z;
          room = omega (arith, h);
          small = ground (arith, stop, diff);
        }
      ]

-- Of the events `queued` the first `t` are queued so far, and the history is the last of them.
pub record Tracks (queued : List InputEvent) (t : ℕ) (s : InputSender) : Type 0 where
  pub base : ℕ
  pub base_at : base + length s.history ≡ t
  pub window : s.history ≡ take (length s.history) (drop base queued)
  pub first_seq : 0 < length s.history → s.first_seq ≡ base
  pub next_seq : s.next_seq ≡ t
  pub unsent : s.unsent ≤ length s.history
  pub inside : t ≤ length queued
  pub session_id : s.session_id < 2 ^ 32

pub new_sender-Tracks :
    (queued : List InputEvent) (session_id : ℕ)
    → session_id < 2 ^ 32
    → Tracks queued 0 (set_session_id new_sender session_id)
unfolding set_session_id
new_sender-Tracks queued session_id sid = record {
  base = 0;
  base_at = omega arith;
  window = refl;
  first_seq = λ h. refl;
  next_seq = refl;
  unsent = omega arith;
  inside = omega arith;
  session_id = sid;
}

-- One more event makes the window longer.
longer-window :
    (queued history : List InputEvent) (base : ℕ) (e : InputEvent) (rest : List InputEvent)
    → history ≡ take (length history) (drop base queued)
    → drop (base + length history) queued ≡ e ∷ rest
    → history ++ (e ∷ []) ≡ take (length history + 1) (drop base queued)
longer-window queued history base e rest w n =
    let one : take 1 (drop (length history) (drop base queued)) ≡ e ∷ [] =
      ap (take 1) (drop-drop (length history) base queued ∙ n) in
    ap (λ h. h ++ (e ∷ [])) w
    ∙ ap (◌++◌ (take (length history) (drop base queued))) (sym one)
    ∙ take-add (length history) 1 (drop base queued)

abbrev queue_first : InputSender → ℕ
queue_first s = if length s.history == 0 then s.next_seq else s.first_seq

-- An event that is queued is behind the window's others, and the window is trimmed.
record Queued (s : InputSender) (e : InputEvent) : Type 0 where
  pub trimmed : Trimmed (s.history ++ (e ∷ [])) (queue_first s) (s.unsent + 1)
  pub result : queue s e ≡ record s {
    history = drop trimmed.gone (s.history ++ (e ∷ []));
    first_seq = queue_first s + trimmed.gone;
    next_seq = to_u32 (s.next_seq + 1);
    unsent = s.unsent + 1;
  }

queue-Queued :
    (queued : List InputEvent) (t : ℕ) (s : InputSender) (e : InputEvent)
    → t + 1 < 2 ^ 32
    → Tracks queued t s
    → Queued s e
unfolding queue
queue-Queued queued t s e fits x =
    let size = length-append s.history (e ∷ []) in
    let t' =
      trim-Trimmed (s.history ++ (e ∷ [])) (queue_first s) (s.unsent + 1)
        (omega (arith, size, x.unsent))
        (ground (arith, size, x.first_seq, x.next_seq, x.base_at, fits)) in
    record {
      trimmed = t';
      result =
          ap
            (λ r. record s {
              history = r.0;
              first_seq = r.1;
              next_seq = to_u32 (s.next_seq + 1);
              unsent = s.unsent + 1;
            })
            t'.result;
    }

queue_first-base :
    (queued : List InputEvent) (t : ℕ) (s : InputSender) (x : Tracks queued t s)
    → queue_first s ≡ x.base
queue_first-base queued t s x = elim (Bool-cases (length s.history == 0)) [
  | inl e ↦ ground (arith, x.next_seq, x.base_at)
  | inr e ↦ rw e (x.first_seq (ground arith))
]

Queued-Tracks :
    (queued : List InputEvent) (t : ℕ) (s : InputSender) (e : InputEvent) (rest : List InputEvent)
    → t + 1 < 2 ^ 32
    → t + 1 ≤ length queued
    → drop t queued ≡ e ∷ rest
    → Tracks queued t s
    → Queued s e
    → Tracks queued (t + 1) (queue s e)
Queued-Tracks queued t s e rest fits inside n x q =
    let g = q.trimmed.gone in
    let all = s.history ++ (e ∷ []) in
    let size = length-append s.history (e ∷ []) in
    let left = length-drop g all in
    let room = q.trimmed.room in
    let next = ap (λ k. drop k queued) x.base_at ∙ n in
    let wide : all ≡ take (length s.history + 1) (drop x.base queued) =
      longer-window queued s.history x.base e rest x.window next in
    let count : length s.history + 1 - g ≡ length (drop g all) = omega (arith, size, left) in
    subst (Tracks queued (t + 1)) (sym q.result) (record {
      base = x.base + g;
      base_at = omega (arith, x.base_at, size, left, room);
      window =
          ap (drop g) wide
          ∙ drop-take g (length s.history + 1) (drop x.base queued)
          ∙ ap (take (length s.history + 1 - g)) (drop-drop g x.base queued)
          ∙ ap (λ k. take k (drop (x.base + g) queued)) count;
      first_seq = λ h. ap (λ k. k + g) (queue_first-base queued t s x);
      next_seq = omega (arith, x.next_seq, fits);
      unsent = omega (arith, size, left, room);
      inside = inside;
      session_id = x.session_id;
    })

-- Queueing the next event keeps the window, and the history short: 56 events at most, or the eight
-- before those that are not sent.
pub queue-Tracks :
    (queued : List InputEvent) (t : ℕ) (s : InputSender) (e : InputEvent) (rest : List InputEvent)
    → length queued < 2 ^ 32
    → drop t queued ≡ e ∷ rest
    → Tracks queued t s
    → Tracks queued (t + 1) (queue s e)
      × (length (queue s e).history ≤ max history_max ((queue s e).unsent + input_redundancy))
      × ((queue s e).unsent ≡ s.unsent + 1)
queue-Tracks queued t s e rest fits n x =
    let more : 1 + length rest ≡ length queued - t =
      omega (arith, ap length (sym n), length-drop t queued) in
    let q = queue-Queued queued t s e (omega (arith, more, fits)) x in
    let all = s.history ++ (e ∷ []) in
    let kept : length (queue s e).history ≡ length all - q.trimmed.gone =
      ap (λ s'. length s'.history) q.result ∙ length-drop q.trimmed.gone all in
    let pending = ap (λ s'. s'.unsent) q.result in
    (
      Queued-Tracks queued t s e rest (omega (arith, more, fits)) (omega (arith, more)) n x q,
      omega (arith, kept, pending, q.trimmed.small),
      pending,
    )
