-- ===== src/Tests/Wire.antt =====
-- Datagrams and record streams at concrete inputs.
use deskhub.Base.{ℕ, ◌≡◌, refl, true, List, [], ◌∷◌, arith, some}
use deskhub.Protocol.MsgType
use deskhub.Protocol.ByteOrder.{put_u16}
use deskhub.Protocol.Wire.{control_chan, input_chan, video_chan}
use deskhub.Protocol.Wire.Header.{Delivers, header_of}
use deskhub.Protocol.Wire.Names.{utf8_trunc_len, printables}
use deskhub.Base.{take, ◌+◌, ◌≤◌}
use deskhub.Protocol.Wire.Names.Cutting.{CutsAt, Shown}
use deskhub.Protocol.Wire.Control.{Hello, build_hello, parse_hello}
use deskhub.Protocol.Wire.Control.RoundTrip.{parse_hello-build_hello, received_hello}
use deskhub.Protocol.Wire.Media.{VideoHeader, video_flags, build_video_packet, parse_video_packet}
use deskhub.Protocol.Wire.Media.RoundTrip.{parse_video_packet-build_video_packet}
use deskhub.Protocol.Wire.Lists.{InputEvent, build_input_events, parse_input_events}
use deskhub.Protocol.Wire.Lists.RoundTrip.{parse_input_events-build_input_events}
use deskhub.Protocol.RecordStream.{fresh, feed_all}
use deskhub.Protocol.RecordStream.Framing.{view, joined, feed_all-records_in, feed_all-stream_of}
use deskhub.Protocol.RecordStream.Spec.{records_in}
use deskhub.Base.{◌≢◌, false}
use deskhub.Base.Result.{fault}
use deskhub.Protocol.Wire.{parse_common_header, file_chan, terminal_chan}
use deskhub.Protocol.Wire.Control.{
  parse_hello_ack, parse_ping_pong, parse_feedback, parse_reconfig, parse_set_focus,
  parse_invalidate_ref,
}
use deskhub.Protocol.Wire.Media.{parse_fec_packet, parse_audio_packet, parse_clipboard_chunk}
use deskhub.Protocol.Wire.Lists.{parse_nack}
use deskhub.Protocol.Wire.Files.{
  FileChunkView, build_file_chunk, parse_file_offer, parse_file_accept, parse_file_chunk,
  parse_file_done, parse_file_ack, parse_file_cancel,
}
use deskhub.Protocol.Wire.Files.RoundTrip.{parse_file_chunk-build_file_chunk}
use deskhub.Protocol.Wire.Terminal.{
  TermSize, is_valid_term_size, clamp_term_size, build_term_resize, parse_term_open,
  parse_term_open_ack, parse_term_resize, parse_term_exit, parse_term_list_ack,
}
use deskhub.Protocol.Wire.Terminal.Laws.{
  clamp_term_size-IsValid, parse_term_resize-build_term_resize,
}
use deskhub.Protocol.Wire.Identity.{
  build_auth_response, parse_auth_start, parse_auth_challenge, parse_auth_response,
  parse_auth_result,
}
use deskhub.Protocol.Wire.Identity.Laws.{parse_auth_response-build_auth_response}
use deskhub.Protocol.Wire.Sources.{
  HostCaps, SourceInfo, host_caps_of_flags, build_source_list, source_list_payload, put_sources,
  parse_source_list, parse_source_list_host_name,
}
use deskhub.Protocol.Wire.{CommonHeader}
use deskhub.Protocol.Wire.Sources.RoundTrip.{
  AllReceived, Blanked, source_list_size, parse_source_list-build_source_list,
}
use deskhub.Protocol.Wire.Safety.{media_parsers-ne-fault, service_parsers-ne-fault}
use deskhub.Protocol.Wire.{audio_chan}
use deskhub.Protocol.Wire.Media.{
  FecHeader, AudioHeader, ClipboardChunkView, build_fec_packet, build_audio_packet,
  build_clipboard_chunk,
}
use deskhub.Protocol.Wire.Media.RoundTrip.{
  parse_fec_packet-build_fec_packet, parse_audio_packet-build_audio_packet,
  parse_clipboard_chunk-build_clipboard_chunk,
}

-- "Pé" and a control byte
abbrev phone : Hello
phone = record {
  client_id = 7;
  max_width = 1920;
  max_height = 1080;
  features = 1;
  source_id = 0;
  client_name = 0x50 ∷ 0xC3 ∷ 0xA9 ∷ 0x07 ∷ [];
}

received_hello_drops_controls : (received_hello phone).client_name ≡ 0x50 ∷ 0xC3 ∷ 0xA9 ∷ []
unfolding utf8_trunc_len printables
received_hello_drops_controls = refl

parse_hello-build_hello_example :
    (n : ℕ) × (name : List ℕ) × CutsAt 64 phone.client_name n
    × Shown (take n phone.client_name) name
    × Delivers
        (build_hello 1200 phone)
        (header_of MsgType.hello 0 control_chan 0)
        (20 + n)
        parse_hello
        (record phone { client_name = name })
unfolding utf8_trunc_len
parse_hello-build_hello_example =
    parse_hello-build_hello 1200 phone (omega arith) (omega arith) (omega arith)

abbrev second_packet : VideoHeader
second_packet = record { frame_id = 9; timestamp_us = 16667; pkt_index = 1; pkt_count = 2 }

parse_video_packet-build_video_packet_example :
    let h = header_of MsgType.video_packet (video_flags true true) video_chan 5 in
    Delivers
      (build_video_packet 1200 5 second_packet true true (1 ∷ 2 ∷ []))
      h
      26
      (parse_video_packet h)
      (record { hdr = second_packet; idr = true; frame_end = true; payload = 1 ∷ 2 ∷ [] })
parse_video_packet-build_video_packet_example =
    parse_video_packet-build_video_packet 1200 5 (omega arith) second_packet true true (1 ∷ 2 ∷ [])
      (omega arith) (omega arith) (omega arith)

abbrev key_down : InputEvent
key_down = record { type = 1; timestamp_us = 5; a = 30; b = 0; state = 1; absolute = 0 }

parse_input_events-build_input_events_example :
    Delivers
      (build_input_events 1200 5 77 (key_down ∷ []))
      (header_of MsgType.input_event 0 input_chan 5)
      32
      (λ p. parse_input_events p 62)
      (77, key_down ∷ [])
parse_input_events-build_input_events_example =
    parse_input_events-build_input_events 1200 5 (omega arith) 77 62 (key_down ∷ []) (omega arith)
      (omega arith) (omega arith) (omega arith) (omega arith) (omega arith)

-- Two records, cut in the prefix of the second.
abbrev chunks : List (List ℕ)
chunks = (0 ∷ 2 ∷ 8 ∷ 9 ∷ 0 ∷ []) ∷ (1 ∷ 5 ∷ []) ∷ []

feed_all-records_in_example :
    let (messages, s) = feed_all fresh chunks in
    (messages ≡ (records_in (joined chunks)).0) × (view s ≡ (records_in (joined chunks)).1)
feed_all-records_in_example = feed_all-records_in chunks

feed_all-stream_of_example :
    let (messages, s) = feed_all fresh chunks in
    (messages ≡ (8 ∷ 9 ∷ []) ∷ (5 ∷ []) ∷ []) × (view s ≡ some [])
unfolding put_u16
feed_all-stream_of_example =
    feed_all-stream_of ((8 ∷ 9 ∷ []) ∷ (5 ∷ []) ∷ []) chunks (omega arith) refl

abbrev hostile : List ℕ
hostile = 255 ∷ 255 ∷ 0 ∷ 9 ∷ []

media_parsers-ne-fault_example :
    (parse_common_header hostile ≢ fault)
    × (parse_hello hostile ≢ fault)
    × (parse_hello_ack hostile ≢ fault)
    × (parse_ping_pong hostile ≢ fault)
    × (parse_feedback hostile ≢ fault)
    × (parse_reconfig hostile ≢ fault)
    × (parse_set_focus hostile ≢ fault)
    × (parse_invalidate_ref hostile ≢ fault)
    × (parse_video_packet (header_of MsgType.video_packet 0 video_chan 0) hostile ≢ fault)
    × (parse_fec_packet (header_of MsgType.video_packet 0 video_chan 0) hostile ≢ fault)
    × (parse_audio_packet hostile ≢ fault)
    × (parse_clipboard_chunk hostile ≢ fault)
    × (parse_nack hostile 4 ≢ fault)
    × (parse_input_events hostile 4 ≢ fault)
    × (parse_source_list hostile 4 ≢ fault)
    × (parse_source_list_host_name hostile ≢ fault)
media_parsers-ne-fault_example =
    media_parsers-ne-fault (header_of MsgType.video_packet 0 video_chan 0) hostile 4

service_parsers-ne-fault_example :
    (parse_file_offer hostile ≢ fault)
    × (parse_file_accept hostile ≢ fault)
    × (parse_file_chunk hostile ≢ fault)
    × (parse_file_done hostile ≢ fault)
    × (parse_file_ack hostile ≢ fault)
    × (parse_file_cancel hostile ≢ fault)
    × (parse_term_open hostile ≢ fault)
    × (parse_term_open_ack hostile ≢ fault)
    × (parse_term_resize hostile ≢ fault)
    × (parse_term_exit hostile ≢ fault)
    × (parse_term_list_ack hostile ≢ fault)
    × (parse_auth_start hostile ≢ fault)
    × (parse_auth_challenge hostile ≢ fault)
    × (parse_auth_response hostile ≢ fault)
    × (parse_auth_result hostile ≢ fault)
service_parsers-ne-fault_example = service_parsers-ne-fault hostile

abbrev some_caps : HostCaps
some_caps = record { accepts_input = true; terminal = false; audio = true; files = false }

-- "Main" and "TV", of a host named "pc" and a control byte
abbrev two_screens : List SourceInfo
two_screens =
    record { source_id = 0; width = 1920; height = 1080; name = 0x4D ∷ 0x61 ∷ 0x69 ∷ 0x6E ∷ [] }
    ∷ record { source_id = 1; width = 3840; height = 2160; name = 0x54 ∷ 0x56 ∷ [] }
    ∷ []

abbrev pc_name : List ℕ
pc_name = 0x70 ∷ 0x63 ∷ 0x07 ∷ []

two_screens-fits : source_list_size two_screens pc_name ≤ 1200
unfolding source_list_payload put_sources put_u16 utf8_trunc_len
two_screens-fits = omega arith

parse_source_list-build_source_list_example :
    let built = build_source_list 1200 two_screens some_caps pc_name in
    (h : CommonHeader) × (screens : List SourceInfo) × (n : ℕ) × (name : List ℕ) × (h.type
      ≡ MsgType.source_list)
    × (host_caps_of_flags h.flags ≡ some_caps)
    × AllReceived (take 8 two_screens) screens
    × CutsAt 64 pc_name n
    × Blanked (take n pc_name) name
    × Delivers built h (source_list_size two_screens pc_name) (λ p. parse_source_list p 8) screens
    × Delivers built h (source_list_size two_screens pc_name) parse_source_list_host_name name
parse_source_list-build_source_list_example =
    parse_source_list-build_source_list 1200 8 two_screens some_caps pc_name
      (
        record { width = omega arith; height = omega arith },
        (record { width = omega arith; height = omega arith }, tt),
      )
      (omega arith, (omega arith, tt)) (omega arith) (omega arith) two_screens-fits

abbrev one_chunk : FileChunkView
one_chunk = record { batch_id = 3; file_index = 1; offset = 4096; bytes = 1 ∷ 2 ∷ 3 ∷ [] }

parse_file_chunk-build_file_chunk_example :
    Delivers
      (build_file_chunk 1200 one_chunk)
      (header_of MsgType.file_chunk 0 file_chan 3)
      25
      parse_file_chunk
      one_chunk
parse_file_chunk-build_file_chunk_example =
    parse_file_chunk-build_file_chunk 1200 one_chunk
      (record {
        batch_id = omega arith;
        file_index = omega arith;
        some_bytes = omega arith;
        bytes = omega arith;
        end = omega arith;
      })
      (omega arith)

abbrev huge : TermSize
huge = record { cols = 5000; rows = 0 }

clamp_term_size-IsValid_example :
    (is_valid_term_size (clamp_term_size huge) ≡ true)
    × (is_valid_term_size huge ≡ true → clamp_term_size huge ≡ huge)
clamp_term_size-IsValid_example = clamp_term_size-IsValid huge

parse_term_resize-build_term_resize_example :
    Delivers
      (build_term_resize 1200 7 huge)
      (header_of MsgType.term_resize 0 terminal_chan 7)
      12
      parse_term_resize
      (clamp_term_size huge)
parse_term_resize-build_term_resize_example =
    parse_term_resize-build_term_resize 1200 7 huge (omega arith) (omega arith)

parse_auth_response-build_auth_response_example :
    Delivers
      (build_auth_response 1200 (1 ∷ 2 ∷ []))
      (header_of MsgType.auth_response 0 control_chan 0)
      13
      parse_auth_response
      (1 ∷ 2 ∷ [])
parse_auth_response-build_auth_response_example =
    parse_auth_response-build_auth_response 1200 (1 ∷ 2 ∷ []) (omega arith) (omega arith)
      (omega arith)

abbrev first_group : FecHeader
first_group = record { frame_id = 9; timestamp_us = 16667; pkt_count = 2; group_index = 0 }

parse_fec_packet-build_fec_packet_example :
    let h = header_of MsgType.fec_packet 1 video_chan 5 in
    Delivers
      (build_fec_packet 1200 5 first_group true (0 ∷ 2 ∷ 7 ∷ []))
      h
      27
      (parse_fec_packet h)
      (record { hdr = first_group; idr = true; parity = 0 ∷ 2 ∷ 7 ∷ [] })
parse_fec_packet-build_fec_packet_example =
    parse_fec_packet-build_fec_packet 1200 5 (omega arith) first_group true (0 ∷ 2 ∷ 7 ∷ [])
      (record {
        frame_id = omega arith;
        timestamp_us = omega arith;
        pkt_count = omega arith;
        group_index = omega arith;
      })
      (omega arith) (omega arith) (omega arith)

abbrev sound : AudioHeader
sound = record { seq = 4; timestamp_us = 20000 }

parse_audio_packet-build_audio_packet_example :
    Delivers
      (build_audio_packet 1200 5 sound (1 ∷ 2 ∷ []))
      (header_of MsgType.audio_packet 0 audio_chan 5)
      22
      parse_audio_packet
      (record { hdr = sound; payload = 1 ∷ 2 ∷ [] })
parse_audio_packet-build_audio_packet_example =
    parse_audio_packet-build_audio_packet 1200 5 (omega arith) sound (1 ∷ 2 ∷ []) (omega arith)
      (omega arith) (omega arith) (omega arith) (omega arith)

abbrev only_chunk : ClipboardChunkView
only_chunk = record { revision = 2; chunk_index = 0; chunk_count = 1; payload = 72 ∷ 105 ∷ [] }

parse_clipboard_chunk-build_clipboard_chunk_example :
    Delivers
      (build_clipboard_chunk 1200 5 only_chunk)
      (header_of MsgType.clipboard 0 control_chan 5)
      18
      parse_clipboard_chunk
      only_chunk
parse_clipboard_chunk-build_clipboard_chunk_example =
    parse_clipboard_chunk-build_clipboard_chunk 1200 5 (omega arith) only_chunk
      (record {
        revision = omega arith;
        chunk_index = omega arith;
        chunk_count = omega arith;
        payload = omega arith;
      })
      (omega arith)
