-- ===== src/Protocol/Wire/Safety.antt =====
-- Whatever bytes arrive, no parser of a message reads outside them.
use deskhub.Base.{ℕ, ◌≢◌, List}
use deskhub.Base.Result.{fault}
use deskhub.Protocol.Wire.{CommonHeader, parse_common_header}
use deskhub.Protocol.Wire.Header.{parse_common_header-ne-fault}
use deskhub.Protocol.Wire.Control.{
  parse_hello, parse_hello_ack, parse_ping_pong, parse_feedback, parse_reconfig, parse_set_focus,
  parse_invalidate_ref,
}
use deskhub.Protocol.Wire.Control.Safety.{
  parse_hello-ne-fault, parse_hello_ack-ne-fault, parse_ping_pong-ne-fault, parse_feedback-ne-fault,
  parse_reconfig-ne-fault, parse_set_focus-ne-fault, parse_invalidate_ref-ne-fault,
}
use deskhub.Protocol.Wire.Media.{
  parse_video_packet, parse_fec_packet, parse_audio_packet, parse_clipboard_chunk,
}
use deskhub.Protocol.Wire.Media.Safety.{
  parse_video_packet-ne-fault, parse_fec_packet-ne-fault, parse_audio_packet-ne-fault,
  parse_clipboard_chunk-ne-fault,
}
use deskhub.Protocol.Wire.Lists.{parse_nack, parse_input_events}
use deskhub.Protocol.Wire.Lists.Safety.{parse_nack-ne-fault, parse_input_events-ne-fault}
use deskhub.Protocol.Wire.Files.{
  parse_file_offer, parse_file_accept, parse_file_chunk, parse_file_done, parse_file_ack,
  parse_file_cancel,
}
use deskhub.Protocol.Wire.Files.Safety.{
  parse_file_offer-ne-fault, parse_file_accept-ne-fault, parse_file_chunk-ne-fault,
  parse_file_done-ne-fault, parse_file_ack-ne-fault, parse_file_cancel-ne-fault,
}
use deskhub.Protocol.Wire.Terminal.{
  parse_term_open, parse_term_open_ack, parse_term_resize, parse_term_exit, parse_term_list_ack,
}
use deskhub.Protocol.Wire.Terminal.Laws.{
  parse_term_open-ne-fault, parse_term_open_ack-ne-fault, parse_term_resize-ne-fault,
  parse_term_exit-ne-fault, parse_term_list_ack-ne-fault,
}
use deskhub.Protocol.Wire.Identity.{
  parse_auth_start, parse_auth_challenge, parse_auth_response, parse_auth_result,
}
use deskhub.Protocol.Wire.Identity.Laws.{
  parse_auth_start-ne-fault, parse_auth_challenge-ne-fault, parse_auth_response-ne-fault,
  parse_auth_result-ne-fault,
}
use deskhub.Protocol.Wire.Sources.{parse_source_list, parse_source_list_host_name}
use deskhub.Protocol.Wire.Sources.Laws.{
  parse_source_list-ne-fault, parse_source_list_host_name-ne-fault,
}

-- No parser of a session's, a picture's, a sound's or an input's message reads outside the bytes
-- that it is given, whatever they are.
pub media_parsers-ne-fault :
    (h : CommonHeader) (p : List ℕ) (room : ℕ)
    → (parse_common_header p ≢ fault)
      × (parse_hello p ≢ fault)
      × (parse_hello_ack p ≢ fault)
      × (parse_ping_pong p ≢ fault)
      × (parse_feedback p ≢ fault)
      × (parse_reconfig p ≢ fault)
      × (parse_set_focus p ≢ fault)
      × (parse_invalidate_ref p ≢ fault)
      × (parse_video_packet h p ≢ fault)
      × (parse_fec_packet h p ≢ fault)
      × (parse_audio_packet p ≢ fault)
      × (parse_clipboard_chunk p ≢ fault)
      × (parse_nack p room ≢ fault)
      × (parse_input_events p room ≢ fault)
      × (parse_source_list p room ≢ fault)
      × (parse_source_list_host_name p ≢ fault)
media_parsers-ne-fault h p room = (
  parse_common_header-ne-fault p,
  parse_hello-ne-fault p,
  parse_hello_ack-ne-fault p,
  parse_ping_pong-ne-fault p,
  parse_feedback-ne-fault p,
  parse_reconfig-ne-fault p,
  parse_set_focus-ne-fault p,
  parse_invalidate_ref-ne-fault p,
  parse_video_packet-ne-fault h p,
  parse_fec_packet-ne-fault h p,
  parse_audio_packet-ne-fault p,
  parse_clipboard_chunk-ne-fault p,
  parse_nack-ne-fault p room,
  parse_input_events-ne-fault p room,
  parse_source_list-ne-fault p room,
  parse_source_list_host_name-ne-fault p,
)

-- No parser of a message that carries a file transfer, a terminal or a sign-in reads outside the
-- bytes that it is given, whatever they are.
pub service_parsers-ne-fault :
    (p : List ℕ)
    → (parse_file_offer p ≢ fault)
      × (parse_file_accept p ≢ fault)
      × (parse_file_chunk p ≢ fault)
      × (parse_file_done p ≢ fault)
      × (parse_file_ack p ≢ fault)
      × (parse_file_cancel p ≢ fault)
      × (parse_term_open p ≢ fault)
      × (parse_term_open_ack p ≢ fault)
      × (parse_term_resize p ≢ fault)
      × (parse_term_exit p ≢ fault)
      × (parse_term_list_ack p ≢ fault)
      × (parse_auth_start p ≢ fault)
      × (parse_auth_challenge p ≢ fault)
      × (parse_auth_response p ≢ fault)
      × (parse_auth_result p ≢ fault)
service_parsers-ne-fault p = (
  parse_file_offer-ne-fault p,
  parse_file_accept-ne-fault p,
  parse_file_chunk-ne-fault p,
  parse_file_done-ne-fault p,
  parse_file_ack-ne-fault p,
  parse_file_cancel-ne-fault p,
  parse_term_open-ne-fault p,
  parse_term_open_ack-ne-fault p,
  parse_term_resize-ne-fault p,
  parse_term_exit-ne-fault p,
  parse_term_list_ack-ne-fault p,
  parse_auth_start-ne-fault p,
  parse_auth_challenge-ne-fault p,
  parse_auth_response-ne-fault p,
  parse_auth_result-ne-fault p,
)
