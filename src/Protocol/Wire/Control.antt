-- ===== src/Protocol/Wire/Control.antt =====
-- The control messages of core/src/protocol/Wire.cpp.
pub mod RoundTrip
pub mod Safety
use deskhub.Base.{
  ℕ, zero, suc, ◌+◌, ◌*◌, ◌%◌, ◌^◌, Bool, true, false, not, ◌||◌, List, [], ◌∷◌, length, take, ltb,
  ◌==◌, if◌then◌else◌, min, map,
}
use deskhub.Base.Result.{Answer, ok, reject, reject_if, byte_at, ◌>>=◌, ◌>>◌}
use deskhub.Protocol.MsgType
use deskhub.Protocol.ByteOrder.{put_u16, put_u32, put_u64, get_u16, get_u32, get_u64}
use deskhub.Protocol.Wire.{write_common, build_empty, control_chan}
use deskhub.Protocol.Wire.Names.{sent_len, read_client_name}

pub record Hello : Type 0 where
  pub client_id : ℕ
  pub max_width : ℕ
  pub max_height : ℕ
  pub features : ℕ
  pub source_id : ℕ
  pub client_name : List ℕ

-- `reason` is the code of a `RejectReason`: 0 for `None`, 1 for `Busy`.
pub record HelloAck : Type 0 where
  pub session_id : ℕ
  pub width : ℕ
  pub height : ℕ
  pub fps : ℕ
  pub bitrate_bps : ℕ
  pub rejected : Bool
  pub reason : ℕ

pub record PingPong : Type 0 where
  pub ping_id : ℕ
  pub send_time_us : ℕ

pub record Feedback : Type 0 where
  pub loss_pct : ℕ
  pub rtt_ms : ℕ
  pub recv_bitrate_kbps : ℕ

pub record Reconfig : Type 0 where
  pub width : ℕ
  pub height : ℕ
  pub bitrate_bps : ℕ
  pub fps : ℕ

abbrev pub hello_fixed_bytes : ℕ
hello_fixed_bytes = 12

-- The bytes that the builder of a message writes behind the header.
unfoldable pub hello_payload : Hello → List ℕ
unfolding put_u16 put_u32
hello_payload m = put_u32 m.client_id (
    put_u16 m.max_width (
      put_u16 m.max_height (
        put_u16 m.features (
          m.source_id
          ∷ (sent_len m.client_name % 2 ^ 8)
          ∷ take (sent_len m.client_name) m.client_name))))

unfoldable pub build_hello : ℕ → Hello → Answer (List ℕ)
unfolding write_common hello_payload
build_hello out_size m = do
  let name_len = sent_len m.client_name
  header ← write_common out_size MsgType.hello 0 control_chan 0 (hello_fixed_bytes + name_len)
  ok (header (hello_payload m))

unfoldable pub parse_hello : List ℕ → Answer Hello
unfolding byte_at get_u16 get_u32 read_client_name
parse_hello p = do
  reject_if (ltb (length p) hello_fixed_bytes)
  client_id ← get_u32 p 0
  max_width ← get_u16 p 4
  max_height ← get_u16 p 6
  features ← get_u16 p 8
  source_id ← byte_at p 10
  len ← byte_at p 11
  name ← read_client_name p hello_fixed_bytes len
  ok (record {
    client_id = client_id;
    max_width = max_width;
    max_height = max_height;
    features = features;
    source_id = source_id;
    client_name = name;
  })

unfoldable pub hello_ack_payload : HelloAck → List ℕ
unfolding put_u16 put_u32
hello_ack_payload m = put_u32 m.session_id (
    (if m.rejected then 1 else 0)
    ∷ put_u16 m.width (put_u16 m.height (m.fps ∷ put_u32 m.bitrate_bps (m.reason ∷ []))))

unfoldable pub build_hello_ack : ℕ → HelloAck → Answer (List ℕ)
unfolding write_common hello_ack_payload
build_hello_ack out_size m = do
  header ← write_common out_size MsgType.hello_ack 0 control_chan 0 15
  ok (header (hello_ack_payload m))

unfoldable pub parse_hello_ack : List ℕ → Answer HelloAck
unfolding byte_at get_u16 get_u32
parse_hello_ack p = do
  reject_if (ltb (length p) 15)
  rejected ← byte_at p 4
  reason ← byte_at p 14
  reject_if (ltb 1 rejected || ltb 1 reason)
  session_id ← get_u32 p 0
  width ← get_u16 p 5
  height ← get_u16 p 7
  fps ← byte_at p 9
  bitrate_bps ← get_u32 p 10
  ok (record {
    session_id = session_id;
    width = width;
    height = height;
    fps = fps;
    bitrate_bps = bitrate_bps;
    rejected = not (rejected == 0);
    reason = reason;
  })

unfoldable pub ping_pong_payload : PingPong → List ℕ
unfolding put_u32 put_u64
ping_pong_payload m = put_u32 m.ping_id (put_u64 m.send_time_us [])

unfoldable pub build_ping_pong : ℕ → ℕ → ℕ → PingPong → Answer (List ℕ)
unfolding write_common ping_pong_payload
build_ping_pong out_size type session_id m = do
  header ← write_common out_size type 0 control_chan session_id 12
  ok (header (ping_pong_payload m))

unfoldable pub parse_ping_pong : List ℕ → Answer PingPong
unfolding get_u32 get_u64
parse_ping_pong p = do
  reject_if (ltb (length p) 12)
  ping_id ← get_u32 p 0
  send_time_us ← get_u64 p 4
  ok (record { ping_id = ping_id; send_time_us = send_time_us })

unfoldable pub feedback_payload : Feedback → List ℕ
unfolding put_u16 put_u32
feedback_payload m = m.loss_pct ∷ put_u16 m.rtt_ms (put_u32 m.recv_bitrate_kbps [])

unfoldable pub build_feedback : ℕ → ℕ → Feedback → Answer (List ℕ)
unfolding write_common feedback_payload
build_feedback out_size session_id m = do
  header ← write_common out_size MsgType.feedback 0 control_chan session_id 7
  ok (header (feedback_payload m))

unfoldable pub parse_feedback : List ℕ → Answer Feedback
unfolding byte_at get_u16 get_u32
parse_feedback p = do
  reject_if (ltb (length p) 7)
  loss_pct ← byte_at p 0
  rtt_ms ← get_u16 p 1
  recv_bitrate_kbps ← get_u32 p 3
  ok (record { loss_pct = loss_pct; rtt_ms = rtt_ms; recv_bitrate_kbps = recv_bitrate_kbps })

unfoldable pub reconfig_payload : Reconfig → List ℕ
unfolding put_u16 put_u32
reconfig_payload m = put_u16 m.width (put_u16 m.height (put_u32 m.bitrate_bps (m.fps ∷ [])))

unfoldable pub build_reconfig : ℕ → ℕ → Reconfig → Answer (List ℕ)
unfolding write_common reconfig_payload
build_reconfig out_size session_id m = do
  header ← write_common out_size MsgType.reconfig 0 control_chan session_id 9
  ok (header (reconfig_payload m))

unfoldable pub parse_reconfig : List ℕ → Answer Reconfig
unfolding byte_at get_u16 get_u32
parse_reconfig p = do
  reject_if (ltb (length p) 9)
  width ← get_u16 p 0
  height ← get_u16 p 2
  bitrate_bps ← get_u32 p 4
  fps ← byte_at p 8
  ok (record { width = width; height = height; bitrate_bps = bitrate_bps; fps = fps })

unfoldable pub build_set_focus : ℕ → ℕ → Bool → Answer (List ℕ)
unfolding write_common
build_set_focus out_size session_id focused = do
  header ← write_common out_size MsgType.set_focus 0 control_chan session_id 1
  ok (header ((if focused then 1 else 0) ∷ []))

unfoldable pub parse_set_focus : List ℕ → Answer Bool
unfolding byte_at
parse_set_focus p = do reject_if (ltb (length p) 1); focused ← byte_at p 0; ok (not (focused == 0))

unfoldable pub build_invalidate_ref : ℕ → ℕ → ℕ → Answer (List ℕ)
unfolding write_common put_u32
build_invalidate_ref out_size session_id frame_id = do
  header ← write_common out_size MsgType.invalidate_ref 0 control_chan session_id 4
  ok (header (put_u32 frame_id []))

unfoldable pub parse_invalidate_ref : List ℕ → Answer ℕ
unfolding get_u32
parse_invalidate_ref p = do reject_if (ltb (length p) 4); get_u32 p 0
