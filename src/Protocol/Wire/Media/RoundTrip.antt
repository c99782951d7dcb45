-- ===== src/Protocol/Wire/Media/RoundTrip.antt =====
-- Each media and clipboard message is read back from the datagram that carries it.
use deskhub.Base.{
  ℕ, ◌+◌, ◌/◌, ◌%◌, ◌^◌, ◌≤◌, ◌<◌, ◌≡◌, refl, Bool, true, false, not, List, arith, length, ◌==◌,
  bit_and, if◌then◌else◌,
}
use deskhub.Protocol.MsgType
use deskhub.Protocol.ByteOrder.Laws.{u16_of-bytes, u32_of-bytes, u64_of-words}
use deskhub.Protocol.Wire.{control_chan, video_chan, audio_chan}
use deskhub.Protocol.Wire.Header.{Delivers, deliver, header_of}
use deskhub.Protocol.Wire.Media.{
  VideoHeader, FecHeader, AudioHeader, ClipboardChunkView, max_video_payload, max_audio_payload,
  max_clipboard_chunks, max_clipboard_chunk_payload, video_flag_idr, video_flag_frame_end,
  fec_len_prefix, num_groups, video_flags, video_payload, build_video_packet, parse_video_packet,
  fec_payload, build_fec_packet, parse_fec_packet, audio_payload, build_audio_packet,
  parse_audio_packet, clipboard_payload, build_clipboard_chunk, parse_clipboard_chunk,
}

-- What a packet of a frame must meet to be sent.
pub record VideoFits (vh : VideoHeader) : Type 0 where
  pub frame_id : vh.frame_id < 2 ^ 32
  pub timestamp_us : vh.timestamp_us < 2 ^ 64
  pub pkt_index : vh.pkt_index < vh.pkt_count
  pub pkt_count : vh.pkt_count < 2 ^ 16

pub record FecFits (fh : FecHeader) : Type 0 where
  pub frame_id : fh.frame_id < 2 ^ 32
  pub timestamp_us : fh.timestamp_us < 2 ^ 64
  pub pkt_count : fh.pkt_count < 2 ^ 16
  pub group_index : fh.group_index < num_groups fh.pkt_count

pub record ClipboardFits (c : ClipboardChunkView) : Type 0 where
  pub revision : c.revision < 2 ^ 32
  pub chunk_index : c.chunk_index < c.chunk_count
  pub chunk_count : c.chunk_count ≤ max_clipboard_chunks
  pub payload : length c.payload ≤ max_clipboard_chunk_payload

-- The two flag bits are told apart.
video_flags-bits :
    (idr frame_end : Bool)
    → (not (bit_and (video_flags idr frame_end) video_flag_idr == 0) ≡ idr)
      × (not (bit_and (video_flags idr frame_end) video_flag_frame_end == 0) ≡ frame_end)
video_flags-bits true true = (refl, refl)
video_flags-bits true false = (refl, refl)
video_flags-bits false true = (refl, refl)
video_flags-bits false false = (refl, refl)

idr-flag :
    (idr : Bool) → not (bit_and (if idr then video_flag_idr else 0) video_flag_idr == 0) ≡ idr
idr-flag true = refl
idr-flag false = refl

module _ (out_size session_id : ℕ) (sid_fits : session_id < 2 ^ 32) where
  -- A video packet of a session with a 32-bit number is delivered with its flags, if its numbers
  -- fit their types, its index is below its count, its payload has 1174 bytes at most and the
  -- buffer has room for it.
  pub parse_video_packet-build_video_packet :
      (vh : VideoHeader) (idr frame_end : Bool) (payload : List ℕ)
      → VideoFits vh
      → length payload ≤ max_video_payload
      → 24 + length payload ≤ out_size
      → let h = header_of MsgType.video_packet (video_flags idr frame_end) video_chan session_id in
        Delivers
          (build_video_packet out_size session_id vh idr frame_end payload)
          h
          (24 + length payload)
          (parse_video_packet h)
          (record { hdr = vh; idr = idr; frame_end = frame_end; payload = payload })
  unfolding build_video_packet
  parse_video_packet-build_video_packet vh idr frame_end payload f small room =
      deliver _ MsgType.video_packet (video_flags idr frame_end) video_chan session_id _
        (video_payload vh payload) _ _ sid_fits (ground arith) (unfold video_payload in omega arith)
        (unfold parse_video_packet video_payload in
          ground (
            arith,
            video_flags-bits idr frame_end,
            u32_of-bytes vh.frame_id,
            u32_of-bytes (vh.timestamp_us / 2 ^ 32 % 2 ^ 32),
            u32_of-bytes (vh.timestamp_us % 2 ^ 32),
            u64_of-words vh.timestamp_us,
            u16_of-bytes vh.pkt_index,
            u16_of-bytes vh.pkt_count,
          ))

  -- A parity packet of a session with a 32-bit number is delivered with its flag, if its numbers
  -- fit their types, its group is one of the frame's, its parity has 2 to 1176 bytes and the buffer
  -- has room for it.
  pub parse_fec_packet-build_fec_packet :
      (fh : FecHeader) (idr : Bool) (parity : List ℕ)
      → FecFits fh
      → fec_len_prefix ≤ length parity
      → length parity ≤ fec_len_prefix + max_video_payload
      → 24 + length parity ≤ out_size
      → let h =
          header_of MsgType.fec_packet (if idr then video_flag_idr else 0) video_chan session_id in
        Delivers
          (build_fec_packet out_size session_id fh idr parity)
          h
          (24 + length parity)
          (parse_fec_packet h)
          (record { hdr = fh; idr = idr; parity = parity })
  unfolding build_fec_packet
  parse_fec_packet-build_fec_packet fh idr parity f long small room =
      deliver _ MsgType.fec_packet (if idr then video_flag_idr else 0) video_chan session_id _
        (fec_payload fh parity) _ _ sid_fits (ground arith) (unfold fec_payload in omega arith)
        (unfold parse_fec_packet fec_payload in
          ground (
            arith,
            idr-flag idr,
            u32_of-bytes fh.frame_id,
            u32_of-bytes (fh.timestamp_us / 2 ^ 32 % 2 ^ 32),
            u32_of-bytes (fh.timestamp_us % 2 ^ 32),
            u64_of-words fh.timestamp_us,
            u16_of-bytes fh.pkt_count,
          ))

  -- An audio packet of a session with a 32-bit number is delivered, if its numbers fit their types,
  -- its payload has 1 byte or more, up to the limit of a packet, and the buffer has room for it.
  pub parse_audio_packet-build_audio_packet :
      (ah : AudioHeader) (payload : List ℕ)
      → ah.seq < 2 ^ 32
      → ah.timestamp_us < 2 ^ 64
      → 0 < length payload
      → length payload ≤ max_audio_payload
      → 20 + length payload ≤ out_size
      → Delivers
          (build_audio_packet out_size session_id ah payload)
          (header_of MsgType.audio_packet 0 audio_chan session_id)
          (20 + length payload)
          parse_audio_packet
          (record { hdr = ah; payload = payload })
  unfolding build_audio_packet
  parse_audio_packet-build_audio_packet ah payload seq time some_bytes small room =
      deliver _ MsgType.audio_packet 0 audio_chan session_id _ (audio_payload ah payload) _ _
        sid_fits (ground arith) (unfold audio_payload in omega arith)
        (unfold parse_audio_packet audio_payload in
          ground (
            arith,
            u32_of-bytes ah.seq,
            u32_of-bytes (ah.timestamp_us / 2 ^ 32 % 2 ^ 32),
            u32_of-bytes (ah.timestamp_us % 2 ^ 32),
            u64_of-words ah.timestamp_us,
          ))

  -- A clipboard chunk of a session with a 32-bit number is delivered, if its revision fits its
  -- type, its index is below its count, the count and the payload are within their limits and the
  -- buffer has room for it.
  pub parse_clipboard_chunk-build_clipboard_chunk :
      (c : ClipboardChunkView)
      → ClipboardFits c
      → 16 + length c.payload ≤ out_size
      → Delivers
          (build_clipboard_chunk out_size session_id c)
          (header_of MsgType.clipboard 0 control_chan session_id)
          (16 + length c.payload)
          parse_clipboard_chunk
          c
  unfolding build_clipboard_chunk
  parse_clipboard_chunk-build_clipboard_chunk c f room =
      deliver _ MsgType.clipboard 0 control_chan session_id _ (clipboard_payload c) _ _ sid_fits
        (ground arith) (unfold clipboard_payload in omega arith)
        (unfold parse_clipboard_chunk clipboard_payload in
          ground (
            arith,
            u32_of-bytes c.revision,
            u16_of-bytes c.chunk_index,
            u16_of-bytes c.chunk_count,
          ))
