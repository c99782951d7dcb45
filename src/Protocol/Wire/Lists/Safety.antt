-- ===== src/Protocol/Wire/Lists/Safety.antt =====
-- Neither list parser reads past the end of its payload.
use deskhub.Base.{
  ℕ, zero, suc, ◌*◌, ◌≤◌, ◌≡◌, ◌≢◌, refl, List, [], ◌∷◌, arith, length, ltb, if◌then◌else◌, drop,
  length-drop, Bool-cases, inl, inr,
}
use deskhub.Base.Result.{ok, fault, byte_at_of_lt, tail_at_of_le}
use deskhub.Protocol.ByteOrder.Laws.{get_u16_of_le, get_u32_of_le, get_u64_of_le}
use deskhub.Protocol.Wire.Lists.{
  InputEvent, read_indices, parse_nack, read_event, read_events, parse_input_events,
}

read_indices_of_le :
    (q : List ℕ) (n : ℕ) → 2 * n ≤ length q → (is : List ℕ) × (read_indices q n ≡ ok is)
unfolding read_indices
read_indices_of_le q zero h = ([], refl)
read_indices_of_le q (suc n) h =
    let (i, ei) = get_u16_of_le q 0 (omega arith) in
    let (is, es) = read_indices_of_le (drop 2 q) n (omega (arith, length-drop 2 q)) in
    (i ∷ is, rw (ei, tail_at_of_le q 2 (omega arith), es))

read_event_of_le : (e : List ℕ) → 19 ≤ length e → (ev : InputEvent) × (read_event e ≡ ok ev)
unfolding read_event
read_event_of_le e h =
    let (type, e1) = byte_at_of_lt e 0 (omega arith) in
    let (time, e2) = get_u64_of_le e 1 (omega arith) in
    let (a, e3) = get_u32_of_le e 9 (omega arith) in
    let (b, e4) = get_u32_of_le e 13 (omega arith) in
    let (state, e5) = byte_at_of_lt e 17 (omega arith) in
    let (absolute, e6) = byte_at_of_lt e 18 (omega arith) in
    (
      record { type = type; timestamp_us = time; a = a; b = b; state = state; absolute = absolute },
      rw (e1, e2, e3, e4, e5, e6),
    )

read_events_of_le :
    (e : List ℕ) (n : ℕ) → 19 * n ≤ length e → (evs : List InputEvent) × (read_events e n ≡ ok evs)
unfolding read_events
read_events_of_le e zero h = ([], refl)
read_events_of_le e (suc n) h =
    let (ev, e1) = read_event_of_le e (omega arith) in
    let (evs, e2) = read_events_of_le (drop 19 e) n (omega (arith, length-drop 19 e)) in
    (ev ∷ evs, rw (e1, tail_at_of_le e 19 (omega arith), e2))

pub parse_nack-ne-fault : (p : List ℕ) (n : ℕ) → parse_nack p n ≢ fault
unfolding parse_nack
parse_nack-ne-fault p n = elim (Bool-cases (ltb (length p) 5)) [
  | inl short ↦ rw short (λ e. cc)
  | inr long ↦
      let (count, e) = byte_at_of_lt p 4 (ground arith) in
      ground (
        arith,
        e,
        get_u32_of_le p 0,
        tail_at_of_le p 5,
        length-drop 5 p,
        read_indices_of_le (drop 5 p) (if ltb n count then n else count),
      )
]

pub parse_input_events-ne-fault : (p : List ℕ) (n : ℕ) → parse_input_events p n ≢ fault
unfolding parse_input_events
parse_input_events-ne-fault p n = elim (Bool-cases (ltb (length p) 5)) [
  | inl short ↦ rw short (λ e. cc)
  | inr long ↦
      let (count, e) = byte_at_of_lt p 4 (ground arith) in
      ground (
        arith,
        e,
        get_u32_of_le p 0,
        tail_at_of_le p 5,
        length-drop 5 p,
        read_events_of_le (drop 5 p) count,
      )
]
