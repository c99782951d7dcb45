-- ===== src/Protocol/Wire/Lists.antt =====
-- The messages of core/src/protocol/Wire.cpp that carry a list: Nack and InputEvent.
pub mod RoundTrip
pub mod Safety
use deskhub.Base.{
  ℕ, zero, suc, ◌+◌, ◌-◌, ◌*◌, ◌/◌, ◌%◌, ◌^◌, ◌||◌, List, [], ◌∷◌, length, ltb, ◌==◌, if◌then◌else◌,
}
use deskhub.Base.Result.{Answer, ok, reject_if, byte_at, tail_at, ◌>>=◌, ◌>>◌}
use deskhub.Protocol.MsgType
use deskhub.Protocol.ByteOrder.{put_u16, put_u32, put_u64, get_u16, get_u32, get_u64}
use deskhub.Protocol.Wire.{write_common, max_datagram, common_header_size, control_chan, input_chan}

abbrev pub nack_header_size : ℕ
nack_header_size = 5

abbrev pub max_nack_indices : ℕ
max_nack_indices = 255

abbrev pub input_header_size : ℕ
input_header_size = 5

abbrev pub input_event_size : ℕ
input_event_size = 19

-- 62
abbrev pub max_input_events : ℕ
max_input_events = (max_datagram - common_header_size - input_header_size) / input_event_size

-- `a` and `b` are the bit patterns of two `int32_t`, below 2 ^ 32; `type` is the code of an
-- InputType.
pub record InputEvent : Type 0 where
  pub type : ℕ
  pub timestamp_us : ℕ
  pub a : ℕ
  pub b : ℕ
  pub state : ℕ
  pub absolute : ℕ

unfoldable pub put_indices : List ℕ → List ℕ
unfolding put_u16
put_indices [] = []
put_indices (i ∷ is) = put_u16 i (put_indices is)

unfoldable pub nack_payload : ℕ → List ℕ → List ℕ
unfolding put_u32
nack_payload frame_id indices = put_u32 frame_id ((length indices % 2 ^ 8) ∷ put_indices indices)

unfoldable pub build_nack : (out_size session_id frame_id : ℕ) → List ℕ → Answer (List ℕ)
unfolding write_common nack_payload
build_nack out_size session_id frame_id indices = do
  reject_if (length indices == 0 || ltb max_nack_indices (length indices))
  header ←
      write_common out_size MsgType.nack 0 control_chan session_id
        (nack_header_size + length indices * 2)
  ok (header (nack_payload frame_id indices))

-- `count` indices, from the pointer `q` on.
unfoldable pub read_indices : List ℕ → ℕ → Answer (List ℕ)
unfolding get_u16 tail_at
read_indices q zero = ok []
read_indices q (suc count) = do
  i ← get_u16 q 0
  next ← tail_at q 2
  is ← read_indices next count
  ok (i ∷ is)

-- The frame and the indices, as many as the caller's span of `out_count` takes.
unfoldable pub parse_nack : List ℕ → ℕ → Answer (ℕ × List ℕ)
unfolding byte_at get_u32 tail_at
parse_nack p out_count = do
  reject_if (ltb (length p) nack_header_size)
  count ← byte_at p 4
  reject_if (count == 0)
  reject_if (ltb (length p) (nack_header_size + count * 2))
  frame_id ← get_u32 p 0
  q ← tail_at p nack_header_size
  indices ← read_indices q (if ltb out_count count then out_count else count)
  ok (frame_id, indices)

unfoldable pub put_events : List InputEvent → List ℕ
unfolding put_u32 put_u64
put_events [] = []
put_events (ev ∷ evs) =
    ev.type
    ∷ put_u64 ev.timestamp_us
        (put_u32 ev.a (put_u32 ev.b (ev.state ∷ ev.absolute ∷ put_events evs)))

unfoldable pub input_payload : ℕ → List InputEvent → List ℕ
unfolding put_u32
input_payload first_seq events = put_u32 first_seq ((length events % 2 ^ 8) ∷ put_events events)

unfoldable pub build_input_events :
    (out_size session_id first_seq : ℕ) → List InputEvent → Answer (List ℕ)
unfolding write_common input_payload
build_input_events out_size session_id first_seq events = do
  reject_if (length events == 0 || ltb max_input_events (length events))
  header ←
      write_common out_size MsgType.input_event 0 input_chan session_id
        (input_header_size + length events * input_event_size)
  ok (header (input_payload first_seq events))

unfoldable pub read_event : List ℕ → Answer InputEvent
unfolding byte_at get_u32 get_u64
read_event e = do
  type ← byte_at e 0
  timestamp_us ← get_u64 e 1
  a ← get_u32 e 9
  b ← get_u32 e 13
  state ← byte_at e 17
  absolute ← byte_at e 18
  ok (record {
    type = type;
    timestamp_us = timestamp_us;
    a = a;
    b = b;
    state = state;
    absolute = absolute;
  })

unfoldable pub read_events : List ℕ → ℕ → Answer (List InputEvent)
unfolding read_event tail_at
read_events e zero = ok []
read_events e (suc count) = do
  ev ← read_event e
  next ← tail_at e input_event_size
  evs ← read_events next count
  ok (ev ∷ evs)

-- A span of `out_count` that is too short for the events refuses them all.
unfoldable pub parse_input_events : List ℕ → ℕ → Answer (ℕ × List InputEvent)
unfolding byte_at get_u32 tail_at
parse_input_events p out_count = do
  reject_if (ltb (length p) input_header_size)
  count ← byte_at p 4
  reject_if (count == 0 || ltb out_count count)
  reject_if (ltb (length p) (input_header_size + count * input_event_size))
  first_seq ← get_u32 p 0
  e ← tail_at p input_header_size
  events ← read_events e count
  ok (first_seq, events)
