-- ===== src/Protocol/Wire/Control/RoundTrip.antt =====
-- Each control message is read back from the datagram that carries it.
use deskhub.Base.{
  ℕ, ◌+◌, ◌%◌, ◌^◌, ◌≤◌, ◌<◌, ◌≡◌, Bool, [], ◌∷◌, arith, ◌/◌, if◌then◌else◌, take, All, List,
}
use deskhub.Base.Result.{ok}
use deskhub.Protocol.MsgType
use deskhub.Protocol.ByteOrder.{put_u16, put_u32}
use deskhub.Protocol.ByteOrder.Laws.{u16_of-bytes, u32_of-bytes, u64_of-words}
use deskhub.Protocol.Wire.{control_chan}
use deskhub.Protocol.Wire.Header.{Delivers, deliver, header_of}
use deskhub.Protocol.Wire.Names.{
  printables, sent_len, max_client_name_bytes, utf8_trunc_len-le, length-sent_name,
  read_client_name-sent,
}
use deskhub.Protocol.Wire.Names.Cutting.{
  IsByte, CutsAt, Shown, utf8_trunc_len-CutsAt, printables-Shown,
}
use deskhub.Protocol.Wire.Control.{
  Hello, HelloAck, PingPong, Feedback, Reconfig, build_hello, parse_hello, hello_payload,
  hello_ack_payload, ping_pong_payload, feedback_payload, reconfig_payload, build_hello_ack,
  parse_hello_ack, build_ping_pong, parse_ping_pong, build_feedback, parse_feedback, build_reconfig,
  parse_reconfig, build_set_focus, parse_set_focus, build_invalidate_ref, parse_invalidate_ref,
}

-- The fields of a message fit their C++ types.
pub record HelloFits (m : Hello) : Type 0 where
  pub client_id : m.client_id < 2 ^ 32
  pub max_width : m.max_width < 2 ^ 16
  pub max_height : m.max_height < 2 ^ 16
  pub features : m.features < 2 ^ 16

pub record HelloAckFits (m : HelloAck) : Type 0 where
  pub session_id : m.session_id < 2 ^ 32
  pub width : m.width < 2 ^ 16
  pub height : m.height < 2 ^ 16
  pub bitrate_bps : m.bitrate_bps < 2 ^ 32
  pub reason : m.reason ≤ 1

-- What the other side reads: the name cut to the limit, with its unprintable bytes dropped.
abbrev pub received_hello : Hello → Hello
received_hello m = record m {
  client_name = printables (take (sent_len m.client_name) m.client_name);
}

parse_hello-payload :
    (m : Hello) → HelloFits m → parse_hello (hello_payload m) ≡ ok (received_hello m)
unfolding parse_hello hello_payload
parse_hello-payload m f = ground (
  arith,
  u32_of-bytes m.client_id,
  u16_of-bytes m.max_width,
  u16_of-bytes m.max_height,
  u16_of-bytes m.features,
  utf8_trunc_len-le m.client_name max_client_name_bytes,
  length-sent_name m.client_name,
  read_client_name-sent
      (put_u32 m.client_id (
        put_u16 m.max_width (
          put_u16 m.max_height
            (put_u16 m.features (m.source_id ∷ (sent_len m.client_name % 2 ^ 8) ∷ [])))))
      m.client_name 12,
)

-- A Hello whose numbers fit their types and whose name is of bytes is delivered, if the buffer has
-- room for it. Its name is cut to at most 64 bytes: all of it where it is short enough, else as
-- much as fits and does not part a character. The bytes of what is sent that cannot be shown are
-- left out on the other side.
pub parse_hello-build_hello :
    (out_size : ℕ) (m : Hello)
    → HelloFits m
    → All IsByte m.client_name
    → 20 + sent_len m.client_name ≤ out_size
    → (n : ℕ) × (name : List ℕ) × CutsAt 64 m.client_name n
      × Shown (take n m.client_name) name
      × Delivers
          (build_hello out_size m)
          (header_of MsgType.hello 0 control_chan 0)
          (20 + n)
          parse_hello
          (record m { client_name = name })
unfolding build_hello
parse_hello-build_hello out_size m f bytes room =
    let n = sent_len m.client_name in
    (
      n,
      printables (take n m.client_name),
      utf8_trunc_len-CutsAt m.client_name 64 bytes,
      printables-Shown (take n m.client_name),
      deliver _ MsgType.hello 0 control_chan 0 _ (hello_payload m) parse_hello (received_hello m)
          (omega arith) (ground arith) (omega (arith, length-sent_name m.client_name))
          (parse_hello-payload m f),
    )

-- A HelloAck that fits its buffer is delivered.
pub parse_hello_ack-build_hello_ack :
    (out_size : ℕ) (m : HelloAck)
    → HelloAckFits m
    → 23 ≤ out_size
    → Delivers
        (build_hello_ack out_size m)
        (header_of MsgType.hello_ack 0 control_chan 0)
        23
        parse_hello_ack
        m
unfolding build_hello_ack parse_hello_ack
parse_hello_ack-build_hello_ack out_size m f room =
    deliver _ MsgType.hello_ack 0 control_chan 0 23 (hello_ack_payload m) parse_hello_ack m
      (omega arith) (ground arith) (omega arith)
      (ground (
        arith,
        u32_of-bytes m.session_id,
        u16_of-bytes m.width,
        u16_of-bytes m.height,
        u32_of-bytes m.bitrate_bps,
      ))

module _ (out_size session_id : ℕ) (sid_fits : session_id < 2 ^ 32) where
  -- A Ping or a Pong that fits its buffer is delivered.
  pub parse_ping_pong-build_ping_pong :
      (type : ℕ) (m : PingPong)
      → m.ping_id < 2 ^ 32
      → m.send_time_us < 2 ^ 64
      → 20 ≤ out_size
      → Delivers
          (build_ping_pong out_size type session_id m)
          (header_of type 0 control_chan session_id)
          20
          parse_ping_pong
          m
  unfolding build_ping_pong parse_ping_pong
  parse_ping_pong-build_ping_pong type m id time room =
      deliver _ type 0 control_chan session_id 20 (ping_pong_payload m) parse_ping_pong m sid_fits
        (ground arith) (omega arith)
        (ground (
          arith,
          u32_of-bytes m.ping_id,
          u32_of-bytes (m.send_time_us / 2 ^ 32 % 2 ^ 32),
          u32_of-bytes (m.send_time_us % 2 ^ 32),
          u64_of-words m.send_time_us,
        ))

  -- A Feedback that fits its buffer is delivered.
  pub parse_feedback-build_feedback :
      (m : Feedback)
      → m.rtt_ms < 2 ^ 16
      → m.recv_bitrate_kbps < 2 ^ 32
      → 15 ≤ out_size
      → Delivers
          (build_feedback out_size session_id m)
          (header_of MsgType.feedback 0 control_chan session_id)
          15
          parse_feedback
          m
  unfolding build_feedback parse_feedback
  parse_feedback-build_feedback m rtt rate room =
      deliver _ MsgType.feedback 0 control_chan session_id 15 (feedback_payload m) parse_feedback m
        sid_fits (ground arith) (omega arith)
        (ground (arith, u16_of-bytes m.rtt_ms, u32_of-bytes m.recv_bitrate_kbps))

  -- A Reconfig that fits its buffer is delivered.
  pub parse_reconfig-build_reconfig :
      (m : Reconfig)
      → m.width < 2 ^ 16
      → m.height < 2 ^ 16
      → m.bitrate_bps < 2 ^ 32
      → 17 ≤ out_size
      → Delivers
          (build_reconfig out_size session_id m)
          (header_of MsgType.reconfig 0 control_chan session_id)
          17
          parse_reconfig
          m
  unfolding build_reconfig parse_reconfig
  parse_reconfig-build_reconfig m w h rate room =
      deliver _ MsgType.reconfig 0 control_chan session_id 17 (reconfig_payload m) parse_reconfig m
        sid_fits (ground arith) (omega arith)
        (ground (arith, u16_of-bytes m.width, u16_of-bytes m.height, u32_of-bytes m.bitrate_bps))

  -- A SetFocus that fits its buffer is delivered.
  pub parse_set_focus-build_set_focus :
      (focused : Bool)
      → 9 ≤ out_size
      → Delivers
          (build_set_focus out_size session_id focused)
          (header_of MsgType.set_focus 0 control_chan session_id)
          9
          parse_set_focus
          focused
  unfolding build_set_focus parse_set_focus
  parse_set_focus-build_set_focus focused room =
      deliver _ MsgType.set_focus 0 control_chan session_id 9 ((if focused then 1 else 0) ∷ [])
        parse_set_focus focused sid_fits (ground arith) (omega arith) (ground arith)

  -- An InvalidateRef that fits its buffer is delivered.
  pub parse_invalidate_ref-build_invalidate_ref :
      (frame_id : ℕ)
      → frame_id < 2 ^ 32
      → 12 ≤ out_size
      → Delivers
          (build_invalidate_ref out_size session_id frame_id)
          (header_of MsgType.invalidate_ref 0 control_chan session_id)
          12
          parse_invalidate_ref
          frame_id
  unfolding build_invalidate_ref parse_invalidate_ref
  parse_invalidate_ref-build_invalidate_ref frame_id fits room =
      deliver _ MsgType.invalidate_ref 0 control_chan session_id 12 (put_u32 frame_id [])
        parse_invalidate_ref frame_id sid_fits (ground arith) (omega arith)
        (ground (arith, u32_of-bytes frame_id))
