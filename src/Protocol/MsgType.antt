-- ===== src/Protocol/MsgType.antt =====
-- `enum class MsgType` of core/include/deskhub/protocol/Wire.h. A message type is its code, since
-- `MsgType(datagram[1])` admits any byte.
use deskhub.Base.{ℕ}

abbrev pub hello : ℕ
hello = 0x01

abbrev pub hello_ack : ℕ
hello_ack = 0x02

abbrev pub start : ℕ
start = 0x03

abbrev pub bye : ℕ
bye = 0x04

abbrev pub list_sources : ℕ
list_sources = 0x05

abbrev pub source_list : ℕ
source_list = 0x06

abbrev pub video_packet : ℕ
video_packet = 0x10

abbrev pub fec_packet : ℕ
fec_packet = 0x11

abbrev pub audio_packet : ℕ
audio_packet = 0x12

abbrev pub input_event : ℕ
input_event = 0x20

abbrev pub ping : ℕ
ping = 0x30

abbrev pub pong : ℕ
pong = 0x31

abbrev pub feedback : ℕ
feedback = 0x32

abbrev pub request_keyframe : ℕ
request_keyframe = 0x33

abbrev pub reconfig : ℕ
reconfig = 0x34

abbrev pub set_focus : ℕ
set_focus = 0x35

abbrev pub nack : ℕ
nack = 0x36

abbrev pub invalidate_ref : ℕ
invalidate_ref = 0x37

abbrev pub clipboard : ℕ
clipboard = 0x40

abbrev pub term_open : ℕ
term_open = 0x50

abbrev pub term_open_ack : ℕ
term_open_ack = 0x51

abbrev pub term_data : ℕ
term_data = 0x52

abbrev pub term_resize : ℕ
term_resize = 0x53

abbrev pub term_close : ℕ
term_close = 0x54

abbrev pub term_exit : ℕ
term_exit = 0x55

abbrev pub term_list : ℕ
term_list = 0x56

abbrev pub term_list_ack : ℕ
term_list_ack = 0x57

abbrev pub auth_start : ℕ
auth_start = 0x60

abbrev pub auth_challenge : ℕ
auth_challenge = 0x61

abbrev pub auth_response : ℕ
auth_response = 0x62

abbrev pub auth_result : ℕ
auth_result = 0x63

abbrev pub file_offer : ℕ
file_offer = 0x70

abbrev pub file_accept : ℕ
file_accept = 0x71

abbrev pub file_chunk : ℕ
file_chunk = 0x72

abbrev pub file_done : ℕ
file_done = 0x73

abbrev pub file_ack : ℕ
file_ack = 0x74

abbrev pub file_cancel : ℕ
file_cancel = 0x75
