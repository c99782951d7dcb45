-- ===== src/Protocol/Wire/Media/Safety.antt =====
-- No media parser reads past the end of its payload, and what it accepts is in range.
use deskhub.Base.{ℕ, ◌≢◌, List, arith}
use deskhub.Base.Result.{fault, byte_at_of_lt, tail_at_of_le}
use deskhub.Protocol.ByteOrder.Laws.{get_u16_of_le, get_u32_of_le, get_u64_of_le}
use deskhub.Protocol.Wire.{CommonHeader}
use deskhub.Protocol.Wire.Media.{
  parse_video_packet, parse_fec_packet, parse_audio_packet, parse_clipboard_chunk,
}

pub parse_video_packet-ne-fault : (h : CommonHeader) (p : List ℕ) → parse_video_packet h p ≢ fault
unfolding parse_video_packet
parse_video_packet-ne-fault h p = ground (
  arith,
  get_u32_of_le p 0,
  get_u64_of_le p 4,
  get_u16_of_le p 12,
  get_u16_of_le p 14,
  tail_at_of_le p 16,
)

pub parse_fec_packet-ne-fault : (h : CommonHeader) (p : List ℕ) → parse_fec_packet h p ≢ fault
unfolding parse_fec_packet
parse_fec_packet-ne-fault h p = ground (
  arith,
  get_u32_of_le p 0,
  get_u64_of_le p 4,
  get_u16_of_le p 12,
  byte_at_of_lt p 14,
  tail_at_of_le p 16,
)

pub parse_audio_packet-ne-fault : (p : List ℕ) → parse_audio_packet p ≢ fault
unfolding parse_audio_packet
parse_audio_packet-ne-fault p =
    ground (arith, get_u32_of_le p 0, get_u64_of_le p 4, tail_at_of_le p 12)

pub parse_clipboard_chunk-ne-fault : (p : List ℕ) → parse_clipboard_chunk p ≢ fault
unfolding parse_clipboard_chunk
parse_clipboard_chunk-ne-fault p =
    ground (arith, get_u32_of_le p 0, get_u16_of_le p 4, get_u16_of_le p 6, tail_at_of_le p 8)
