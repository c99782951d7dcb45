-- ===== src/Protocol/Wire/Media.antt =====
-- The media and clipboard messages of core/src/protocol/Wire.cpp.
pub mod RoundTrip
pub mod Safety
use deskhub.Base.{
  ℕ, ◌+◌, ◌-◌, ◌/◌, Bool, not, ◌||◌, List, ◌∷◌, length, ltb, leb, ◌==◌, if◌then◌else◌, bit_and,
  bit_or,
}
use deskhub.Base.Result.{Answer, ok, reject_if, byte_at, tail_at, ◌>>=◌, ◌>>◌}
use deskhub.Protocol.MsgType
use deskhub.Protocol.ByteOrder.{put_u16, put_u32, put_u64, get_u16, get_u32, get_u64}
use deskhub.Protocol.Wire.{
  CommonHeader, write_common, max_datagram, common_header_size, control_chan, video_chan,
  audio_chan,
}

abbrev pub video_header_size : ℕ
video_header_size = 16

abbrev pub fec_header_size : ℕ
fec_header_size = 16

abbrev pub fec_group_size : ℕ
fec_group_size = 8

abbrev pub max_fec_groups : ℕ
max_fec_groups = 256

abbrev pub fec_len_prefix : ℕ
fec_len_prefix = 2

-- 1174
abbrev pub max_video_payload : ℕ
max_video_payload = max_datagram - common_header_size - fec_header_size - fec_len_prefix

abbrev pub audio_header_size : ℕ
audio_header_size = 12

abbrev pub max_audio_payload : ℕ
max_audio_payload = max_datagram - common_header_size - audio_header_size

abbrev pub clipboard_header_size : ℕ
clipboard_header_size = 8

abbrev pub max_clipboard_chunk_payload : ℕ
max_clipboard_chunk_payload = max_datagram - common_header_size - clipboard_header_size

abbrev pub max_clipboard_text_bytes : ℕ
max_clipboard_text_bytes = 32768

abbrev pub max_clipboard_chunks : ℕ
max_clipboard_chunks =
    (max_clipboard_text_bytes + max_clipboard_chunk_payload - 1) / max_clipboard_chunk_payload

abbrev pub video_flag_idr : ℕ
video_flag_idr = 1

abbrev pub video_flag_frame_end : ℕ
video_flag_frame_end = 2

pub record VideoHeader : Type 0 where
  pub frame_id : ℕ
  pub timestamp_us : ℕ
  pub pkt_index : ℕ
  pub pkt_count : ℕ

pub record VideoPacketView : Type 0 where
  pub hdr : VideoHeader
  pub idr : Bool
  pub frame_end : Bool
  pub payload : List ℕ

pub record FecHeader : Type 0 where
  pub frame_id : ℕ
  pub timestamp_us : ℕ
  pub pkt_count : ℕ
  pub group_index : ℕ

pub record FecPacketView : Type 0 where
  pub hdr : FecHeader
  pub idr : Bool
  pub parity : List ℕ

pub record AudioHeader : Type 0 where
  pub seq : ℕ
  pub timestamp_us : ℕ

pub record AudioPacketView : Type 0 where
  pub hdr : AudioHeader
  pub payload : List ℕ

pub record ClipboardChunkView : Type 0 where
  pub revision : ℕ
  pub chunk_index : ℕ
  pub chunk_count : ℕ
  pub payload : List ℕ

-- The packets of a frame fall into this many parity groups.
abbrev pub num_groups : ℕ → ℕ
num_groups pkt_count = (pkt_count + fec_group_size - 1) / fec_group_size

abbrev pub video_flags : Bool → Bool → ℕ
video_flags idr frame_end =
    bit_or (if idr then video_flag_idr else 0) (if frame_end then video_flag_frame_end else 0)

unfoldable pub video_payload : VideoHeader → List ℕ → List ℕ
unfolding put_u16 put_u32 put_u64
video_payload vh payload =
    put_u32 vh.frame_id
      (put_u64 vh.timestamp_us (put_u16 vh.pkt_index (put_u16 vh.pkt_count payload)))

unfoldable pub build_video_packet :
    (out_size session_id : ℕ) → VideoHeader → Bool → Bool → List ℕ → Answer (List ℕ)
unfolding write_common video_payload
build_video_packet out_size session_id vh idr frame_end payload = do
  reject_if (ltb max_video_payload (length payload))
  header ←
      write_common out_size MsgType.video_packet (video_flags idr frame_end) video_chan session_id
        (video_header_size + length payload)
  ok (header (video_payload vh payload))

unfoldable pub parse_video_packet : CommonHeader → List ℕ → Answer VideoPacketView
unfolding get_u16 get_u32 get_u64 tail_at
parse_video_packet h p = do
  reject_if (ltb (length p) video_header_size)
  reject_if (ltb (video_header_size + max_video_payload) (length p))
  frame_id ← get_u32 p 0
  timestamp_us ← get_u64 p 4
  pkt_index ← get_u16 p 12
  pkt_count ← get_u16 p 14
  payload ← tail_at p video_header_size
  reject_if (pkt_count == 0 || leb pkt_count pkt_index)
  ok (record {
    hdr = record {
      frame_id = frame_id;
      timestamp_us = timestamp_us;
      pkt_index = pkt_index;
      pkt_count = pkt_count;
    };
    idr = not (bit_and h.flags video_flag_idr == 0);
    frame_end = not (bit_and h.flags video_flag_frame_end == 0);
    payload = payload;
  })

unfoldable pub fec_payload : FecHeader → List ℕ → List ℕ
unfolding put_u16 put_u32 put_u64
fec_payload fh parity =
    put_u32 fh.frame_id
      (put_u64 fh.timestamp_us (put_u16 fh.pkt_count (fh.group_index ∷ 0 ∷ parity)))

unfoldable pub build_fec_packet :
    (out_size session_id : ℕ) → FecHeader → Bool → List ℕ → Answer (List ℕ)
unfolding write_common fec_payload
build_fec_packet out_size session_id fh idr parity = do
  reject_if (
      ltb (length parity) fec_len_prefix
      || ltb (fec_len_prefix + max_video_payload) (length parity))
  header ←
      write_common out_size MsgType.fec_packet (if idr then video_flag_idr else 0) video_chan
        session_id (fec_header_size + length parity)
  ok (header (fec_payload fh parity))

unfoldable pub parse_fec_packet : CommonHeader → List ℕ → Answer FecPacketView
unfolding byte_at get_u16 get_u32 get_u64 tail_at
parse_fec_packet h p = do
  reject_if (ltb (length p) (fec_header_size + fec_len_prefix))
  reject_if (ltb (fec_header_size + fec_len_prefix + max_video_payload) (length p))
  frame_id ← get_u32 p 0
  timestamp_us ← get_u64 p 4
  pkt_count ← get_u16 p 12
  group_index ← byte_at p 14
  parity ← tail_at p fec_header_size
  reject_if (pkt_count == 0)
  reject_if (leb (num_groups pkt_count) group_index)
  ok (record {
    hdr = record {
      frame_id = frame_id;
      timestamp_us = timestamp_us;
      pkt_count = pkt_count;
      group_index = group_index;
    };
    idr = not (bit_and h.flags video_flag_idr == 0);
    parity = parity;
  })

unfoldable pub audio_payload : AudioHeader → List ℕ → List ℕ
unfolding put_u32 put_u64
audio_payload ah payload = put_u32 ah.seq (put_u64 ah.timestamp_us payload)

unfoldable pub build_audio_packet :
    (out_size session_id : ℕ) → AudioHeader → List ℕ → Answer (List ℕ)
unfolding write_common audio_payload
build_audio_packet out_size session_id ah payload = do
  reject_if (length payload == 0 || ltb max_audio_payload (length payload))
  header ←
      write_common out_size MsgType.audio_packet 0 audio_chan session_id
        (audio_header_size + length payload)
  ok (header (audio_payload ah payload))

unfoldable pub parse_audio_packet : List ℕ → Answer AudioPacketView
unfolding get_u32 get_u64 tail_at
parse_audio_packet p = do
  reject_if (leb (length p) audio_header_size)
  reject_if (ltb (audio_header_size + max_audio_payload) (length p))
  seq ← get_u32 p 0
  timestamp_us ← get_u64 p 4
  payload ← tail_at p audio_header_size
  ok (record { hdr = record { seq = seq; timestamp_us = timestamp_us }; payload = payload })

unfoldable pub clipboard_payload : ClipboardChunkView → List ℕ
unfolding put_u16 put_u32
clipboard_payload c = put_u32 c.revision (put_u16 c.chunk_index (put_u16 c.chunk_count c.payload))

unfoldable pub build_clipboard_chunk :
    (out_size session_id : ℕ) → ClipboardChunkView → Answer (List ℕ)
unfolding write_common clipboard_payload
build_clipboard_chunk out_size session_id c = do
  reject_if (c.chunk_count == 0 || leb c.chunk_count c.chunk_index)
  reject_if (ltb max_clipboard_chunks c.chunk_count)
  reject_if (ltb max_clipboard_chunk_payload (length c.payload))
  header ←
      write_common out_size MsgType.clipboard 0 control_chan session_id
        (clipboard_header_size + length c.payload)
  ok (header (clipboard_payload c))

unfoldable pub parse_clipboard_chunk : List ℕ → Answer ClipboardChunkView
unfolding get_u16 get_u32 tail_at
parse_clipboard_chunk p = do
  reject_if (ltb (length p) clipboard_header_size)
  revision ← get_u32 p 0
  chunk_index ← get_u16 p 4
  chunk_count ← get_u16 p 6
  reject_if (chunk_count == 0 || ltb max_clipboard_chunks chunk_count)
  reject_if (leb chunk_count chunk_index)
  payload ← tail_at p clipboard_header_size
  reject_if (ltb max_clipboard_chunk_payload (length payload))
  ok (record {
    revision = revision;
    chunk_index = chunk_index;
    chunk_count = chunk_count;
    payload = payload;
  })
