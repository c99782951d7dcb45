-- ===== src/Protocol/Wire/Control/Safety.antt =====
-- No control parser reads past the end of its payload, whatever the bytes are.
use deskhub.Base.{ℕ, ◌≢◌, List, arith, ltb, Bool-cases, length, inl, inr}
use deskhub.Base.Result.{fault, byte_at_of_lt}
use deskhub.Protocol.ByteOrder.Laws.{get_u16_of_le, get_u32_of_le, get_u64_of_le}
use deskhub.Protocol.Wire.Names.{read_client_name_total}
use deskhub.Protocol.Wire.Control.{
  parse_hello, parse_hello_ack, parse_ping_pong, parse_feedback, parse_reconfig, parse_set_focus,
  parse_invalidate_ref,
}

-- `ground` meets each read with the lemma that it answers inside the span.
pub parse_hello-ne-fault : (p : List ℕ) → parse_hello p ≢ fault
unfolding parse_hello
parse_hello-ne-fault p = elim (Bool-cases (ltb (length p) 12)) [
  | inl short ↦ rw short (λ e. cc)
  | inr long ↦
      let (len, e) = byte_at_of_lt p 11 (ground arith) in
      ground (
        arith,
        get_u32_of_le p 0,
        get_u16_of_le p 4,
        get_u16_of_le p 6,
        get_u16_of_le p 8,
        byte_at_of_lt p 10,
        e,
        read_client_name_total p 12 len,
      )
]

pub parse_hello_ack-ne-fault : (p : List ℕ) → parse_hello_ack p ≢ fault
unfolding parse_hello_ack
parse_hello_ack-ne-fault p = ground (
  arith,
  get_u32_of_le p 0,
  byte_at_of_lt p 4,
  byte_at_of_lt p 14,
  get_u16_of_le p 5,
  get_u16_of_le p 7,
  byte_at_of_lt p 9,
  get_u32_of_le p 10,
)

pub parse_ping_pong-ne-fault : (p : List ℕ) → parse_ping_pong p ≢ fault
unfolding parse_ping_pong
parse_ping_pong-ne-fault p = ground (arith, get_u32_of_le p 0, get_u64_of_le p 4)

pub parse_feedback-ne-fault : (p : List ℕ) → parse_feedback p ≢ fault
unfolding parse_feedback
parse_feedback-ne-fault p = ground (arith, byte_at_of_lt p 0, get_u16_of_le p 1, get_u32_of_le p 3)

pub parse_reconfig-ne-fault : (p : List ℕ) → parse_reconfig p ≢ fault
unfolding parse_reconfig
parse_reconfig-ne-fault p =
    ground (arith, get_u16_of_le p 0, get_u16_of_le p 2, get_u32_of_le p 4, byte_at_of_lt p 8)

pub parse_set_focus-ne-fault : (p : List ℕ) → parse_set_focus p ≢ fault
unfolding parse_set_focus
parse_set_focus-ne-fault p = ground (arith, byte_at_of_lt p 0)

pub parse_invalidate_ref-ne-fault : (p : List ℕ) → parse_invalidate_ref p ≢ fault
unfolding parse_invalidate_ref
parse_invalidate_ref-ne-fault p = ground (arith, get_u32_of_le p 0)
