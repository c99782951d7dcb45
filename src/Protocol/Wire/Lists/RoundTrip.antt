-- ===== src/Protocol/Wire/Lists/RoundTrip.antt =====
-- Nack and InputEvent are read back from the datagram that carries them.
use deskhub.Base.{
  ℕ, zero, suc, ◌+◌, ◌*◌, ◌/◌, ◌%◌, ◌^◌, ◌≤◌, ◌<◌, ◌≡◌, refl, List, [], ◌∷◌, arith, length, All,
  take, min,
}
use deskhub.Base.Result.{ok, tail_at}
use deskhub.Protocol.MsgType
use deskhub.Protocol.ByteOrder.Laws.{u16_of-bytes, u32_of-bytes, u64_of-words}
use deskhub.Protocol.Wire.{control_chan, input_chan}
use deskhub.Protocol.Wire.Header.{Delivers, deliver, header_of}
use deskhub.Protocol.Wire.Lists.{
  InputEvent, max_nack_indices, max_input_events, put_indices, nack_payload, build_nack,
  read_indices, parse_nack, put_events, input_payload, build_input_events, read_event, read_events,
  parse_input_events,
}

abbrev pub IndexFits : ℕ → Type 0
IndexFits i = i < 2 ^ 16

pub record EventFits (ev : InputEvent) : Type 0 where
  pub timestamp_us : ev.timestamp_us < 2 ^ 64
  pub a : ev.a < 2 ^ 32
  pub b : ev.b < 2 ^ 32

length-put_indices : (is : List ℕ) → length (put_indices is) ≡ 2 * length is
unfolding put_indices
length-put_indices [] = refl
length-put_indices (i ∷ is) = omega (arith, length-put_indices is)

-- Reading fewer indices than were written gives the first of them.
read_indices-put_indices :
    (is : List ℕ) (n : ℕ)
    → All IndexFits is
    → n ≤ length is
    → read_indices (put_indices is) n ≡ ok (take n is)
unfolding read_indices put_indices
read_indices-put_indices is zero f h = refl
read_indices-put_indices [] (suc n) f h = absurd (omega arith)
read_indices-put_indices (i ∷ is) (suc n) f h =
    ground (arith, u16_of-bytes i, read_indices-put_indices is n f.1)

length-put_events : (evs : List InputEvent) → length (put_events evs) ≡ 19 * length evs
unfolding put_events
length-put_events [] = refl
length-put_events (ev ∷ evs) = omega (arith, length-put_events evs)

read_event-put_events :
    (ev : InputEvent) (evs : List InputEvent)
    → EventFits ev
    → read_event (put_events (ev ∷ evs)) ≡ ok ev
unfolding read_event put_events
read_event-put_events ev evs f = ground (
  arith,
  u32_of-bytes (ev.timestamp_us / 2 ^ 32 % 2 ^ 32),
  u32_of-bytes (ev.timestamp_us % 2 ^ 32),
  u64_of-words ev.timestamp_us,
  u32_of-bytes ev.a,
  u32_of-bytes ev.b,
)

tail_at-put_events :
    (ev : InputEvent) (evs : List InputEvent)
    → tail_at (put_events (ev ∷ evs)) 19 ≡ ok (put_events evs)
unfolding put_events tail_at
tail_at-put_events ev evs = ground arith

read_events-put_events :
    (evs : List InputEvent) → All EventFits evs → read_events (put_events evs) (length evs) ≡ ok evs
unfolding read_events
read_events-put_events [] f = refl
read_events-put_events (ev ∷ evs) f = rw (
  read_events,
  read_event-put_events ev evs f.0,
  tail_at-put_events ev evs,
  read_events-put_events evs f.1,
)

module _ (out_size session_id : ℕ) (sid_fits : session_id < 2 ^ 32) where
  -- A Nack that fits its buffer is delivered; a span of `n` slots takes its first `n` indices.
  pub parse_nack-build_nack :
      (frame_id n : ℕ) (is : List ℕ)
      → frame_id < 2 ^ 32
      → All IndexFits is
      → 0 < length is
      → length is ≤ max_nack_indices
      → 13 + 2 * length is ≤ out_size
      → Delivers
          (build_nack out_size session_id frame_id is)
          (header_of MsgType.nack 0 control_chan session_id)
          (13 + 2 * length is)
          (λ p. parse_nack p n)
          (frame_id, take (min n (length is)) is)
  unfolding build_nack
  parse_nack-build_nack frame_id n is fits f some_index small room =
      deliver _ MsgType.nack 0 control_chan session_id _ (nack_payload frame_id is) _ _ sid_fits
        (ground arith) (unfold nack_payload in omega (arith, length-put_indices is))
        (unfold parse_nack nack_payload in
          ground (
            arith,
            u32_of-bytes frame_id,
            length-put_indices is,
            read_indices-put_indices is (min n (length is)) f,
          ))

  -- Input events of a session with a 32-bit number, 1 to the most that a packet may carry, whose
  -- numbers fit their types and for which the buffer has room, are delivered in order to a span
  -- that takes them all.
  pub parse_input_events-build_input_events :
      (first_seq n : ℕ) (evs : List InputEvent)
      → first_seq < 2 ^ 32
      → All EventFits evs
      → 0 < length evs
      → length evs ≤ max_input_events
      → length evs ≤ n
      → 13 + 19 * length evs ≤ out_size
      → Delivers
          (build_input_events out_size session_id first_seq evs)
          (header_of MsgType.input_event 0 input_chan session_id)
          (13 + 19 * length evs)
          (λ p. parse_input_events p n)
          (first_seq, evs)
  unfolding build_input_events
  parse_input_events-build_input_events first_seq n evs fits f some_event small takes room =
      deliver _ MsgType.input_event 0 input_chan session_id _ (input_payload first_seq evs) _ _
        sid_fits (ground arith) (unfold input_payload in omega (arith, length-put_events evs))
        (unfold parse_input_events input_payload in
          ground
            (arith, u32_of-bytes first_seq, length-put_events evs, read_events-put_events evs f))
