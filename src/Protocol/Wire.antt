-- ===== src/Protocol/Wire.antt =====
-- core/include/deskhub/protocol/Wire.h and core/src/protocol/Wire.cpp: the common header. A builder
-- takes the size of its output span, and answers the bytes that it writes at the front of it.
pub mod Header
pub mod Names
pub mod Control
pub mod Media
pub mod Lists
pub mod Files
pub mod Terminal
pub mod Identity
pub mod Sources
pub mod Safety
use deskhub.Base.{ℕ, ◌+◌, List, [], ◌∷◌, length, drop, ltb, ◌==◌, if◌then◌else◌, not, bit_and}
use deskhub.Base.Result.{Answer, ok, reject, reject_if, byte_at, ◌>>=◌, ◌>>◌}
use deskhub.Protocol.ByteOrder.{put_u32, get_u32}

abbrev pub protocol_version : ℕ
protocol_version = 3

abbrev pub max_datagram : ℕ
max_datagram = 1200

abbrev pub common_header_size : ℕ
common_header_size = 8

-- `enum class Chan`, by its codes
abbrev pub control_chan : ℕ
control_chan = 0

abbrev pub video_chan : ℕ
video_chan = 1

abbrev pub input_chan : ℕ
input_chan = 2

abbrev pub audio_chan : ℕ
audio_chan = 3

abbrev pub terminal_chan : ℕ
terminal_chan = 4

abbrev pub file_chan : ℕ
file_chan = 5

pub record CommonHeader : Type 0 where
  pub ver : ℕ
  pub type : ℕ
  pub flags : ℕ
  pub chan : ℕ
  pub session_id : ℕ

-- The header bytes, in front of a payload.
abbrev pub datagram : (type flags chan session_id : ℕ) → List ℕ → List ℕ
unfolding put_u32
datagram type flags chan session_id payload =
    protocol_version ∷ type ∷ flags ∷ chan ∷ put_u32 session_id payload

-- The caller writes `payload_size` bytes behind the header.
unfoldable pub write_common :
    (out_size type flags chan session_id payload_size : ℕ) → Answer (List ℕ → List ℕ)
unfolding put_u32
write_common out_size type flags chan session_id payload_size =
    if ltb out_size (common_header_size + payload_size)
    then reject
    else ok (datagram type flags chan session_id)

unfoldable pub build_empty : ℕ → ℕ → ℕ → Answer (List ℕ)
unfolding write_common
build_empty out_size type session_id = do
  header ← write_common out_size type 0 control_chan session_id 0
  ok (header [])

unfoldable pub parse_common_header : List ℕ → Answer CommonHeader
unfolding get_u32 byte_at
parse_common_header datagram = do
  reject_if (ltb (length datagram) common_header_size)
  ver ← byte_at datagram 0
  reject_if (not (ver == protocol_version))
  type ← byte_at datagram 1
  flags ← byte_at datagram 2
  chan ← byte_at datagram 3
  session_id ← get_u32 datagram 4
  ok (record { ver = ver; type = type; flags = flags; chan = chan; session_id = session_id })

unfoldable pub payload_of : List ℕ → List ℕ
payload_of datagram =
    if ltb (length datagram) common_header_size then [] else drop common_header_size datagram

pub data PacketKind : Type 0 where
  unknown quic deskhub_packet : PacketKind

abbrev quic_header_bits : ℕ
quic_header_bits = 0xC0

unfoldable pub classify_packet : List ℕ → PacketKind
classify_packet [] = unknown
classify_packet (first ∷ rest) =
    if not (bit_and first quic_header_bits == 0)
    then quic
    else if not (first == protocol_version)
    then unknown
    else if ltb (length (first ∷ rest)) common_header_size
    then unknown
    else deskhub_packet
