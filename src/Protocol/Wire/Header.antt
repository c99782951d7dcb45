-- ===== src/Protocol/Wire/Header.antt =====
-- The common header: what is written is read back, and no read leaves the datagram.
use deskhub.Base.{ℕ, ap, ◌∙◌, ◌+◌, ◌^◌, ◌<◌, ◌≡◌, ◌≢◌, List, arith, length}
use deskhub.Base.Result.{Answer, ok, fault, byte_at_of_lt}
use deskhub.Protocol.ByteOrder.{put_u32}
use deskhub.Protocol.ByteOrder.Laws.{u32_of-bytes, get_u32_of_le}
use deskhub.Protocol.Wire.{
  CommonHeader, protocol_version, datagram, parse_common_header, payload_of,
}

abbrev pub header_of : (type flags chan session_id : ℕ) → CommonHeader
header_of type flags chan session_id = record {
  ver = protocol_version;
  type = type;
  flags = flags;
  chan = chan;
  session_id = session_id;
}

-- `built` is a datagram of `size` bytes with the header `h`, and `parse` reads `m` from its
-- payload.
pub record Delivers {A : Type 0} (built : Answer (List ℕ)) (h : CommonHeader) (size : ℕ)
    (parse : List ℕ → Answer A) (m : A) : Type 0 where
  pub sent : List ℕ
  pub built_ok : built ≡ ok sent
  pub sent_size : length sent ≡ size
  pub header_read : parse_common_header sent ≡ ok h
  pub message_read : parse (payload_of sent) ≡ ok m

pub parse_common_header-datagram :
    (type flags chan sid : ℕ) (payload : List ℕ)
    → sid < 2 ^ 32
    → parse_common_header (datagram type flags chan sid payload)
      ≡ ok (header_of type flags chan sid)
unfolding put_u32 parse_common_header
parse_common_header-datagram type flags chan sid payload fits = ground (arith, u32_of-bytes sid)

pub payload_of-datagram :
    (type flags chan sid : ℕ) (payload : List ℕ)
    → payload_of (datagram type flags chan sid payload) ≡ payload
unfolding put_u32 payload_of
payload_of-datagram type flags chan sid payload = ground arith

pub length-datagram :
    (type flags chan sid : ℕ) (payload : List ℕ)
    → length (datagram type flags chan sid payload) ≡ 8 + length payload
unfolding put_u32
length-datagram type flags chan sid payload = omega arith

-- The three facts of a round trip make one delivery.
pub deliver :
    {A : Type 0} (built : Answer (List ℕ)) (type flags chan sid size : ℕ) (payload : List ℕ)
    (parse : List ℕ → Answer A) (m : A)
    → sid < 2 ^ 32
    → built ≡ ok (datagram type flags chan sid payload)
    → 8 + length payload ≡ size
    → parse payload ≡ ok m
    → Delivers built (header_of type flags chan sid) size parse m
deliver built type flags chan sid size payload parse m fits e n r = record {
  sent = datagram type flags chan sid payload;
  built_ok = e;
  sent_size = length-datagram type flags chan sid payload ∙ n;
  header_read = parse_common_header-datagram type flags chan sid payload fits;
  message_read = ap parse (payload_of-datagram type flags chan sid payload) ∙ r;
}

pub parse_common_header-ne-fault : (d : List ℕ) → parse_common_header d ≢ fault
unfolding parse_common_header
parse_common_header-ne-fault d = ground (
  arith,
  byte_at_of_lt d 0,
  byte_at_of_lt d 1,
  byte_at_of_lt d 2,
  byte_at_of_lt d 3,
  get_u32_of_le d 4,
)
