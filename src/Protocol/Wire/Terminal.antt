-- ===== src/Protocol/Wire/Terminal.antt =====
-- The terminal messages of core/src/protocol/Wire.cpp.
pub mod Laws
use deskhub.Base.{
  ℕ, zero, suc, ◌+◌, ◌-◌, Bool, true, false, not, ◌||◌, ◌&&◌, List, [], ◌∷◌, ◌++◌, length, ltb, leb,
  ◌==◌, if◌then◌else◌, take, drop,
}
use deskhub.Base.Result.{Answer, ok, reject, reject_if, byte_at, bytes_at, tail_at, ◌>>=◌, ◌>>◌}
use deskhub.Protocol.MsgType
use deskhub.Protocol.ByteOrder.{put_u16, put_u32, get_u16, get_u32}
use deskhub.Protocol.Wire.{write_common, terminal_chan}
use deskhub.Protocol.Wire.Names.{max_client_name_bytes, sent_len, utf8_trunc_len, read_printable}

abbrev pub max_term_data_bytes : ℕ
max_term_data_bytes = 4096

abbrev pub min_term_cols : ℕ
min_term_cols = 1

abbrev pub min_term_rows : ℕ
min_term_rows = 1

abbrev pub max_term_cols : ℕ
max_term_cols = 1000

abbrev pub max_term_rows : ℕ
max_term_rows = 1000

abbrev pub max_term_list_entries : ℕ
max_term_list_entries = 16

abbrev pub term_list_entry_fixed_bytes : ℕ
term_list_entry_fixed_bytes = 10

-- The last of the `TermReason`s, which are numbered from 0 on.
abbrev pub no_such_session : ℕ
no_such_session = 3

-- The `TerminalState`s.
abbrev pub live : ℕ
live = 0

abbrev pub local_state : ℕ
local_state = 2

pub record TermSize : Type 0 where
  pub cols : ℕ
  pub rows : ℕ

pub record TermSessionEntry : Type 0 where
  pub term_id : ℕ
  pub state : ℕ
  pub size : TermSize
  pub client_name : List ℕ

pub record TermOpen : Type 0 where
  pub size : TermSize
  pub resume_id : ℕ
  pub client_name : List ℕ

pub record TermOpenAck : Type 0 where
  pub term_id : ℕ
  pub reason : ℕ
  pub resumed : Bool

unfoldable pub is_valid_term_size : TermSize → Bool
is_valid_term_size size =
    (leb min_term_cols size.cols && leb size.cols max_term_cols)
    && (leb min_term_rows size.rows && leb size.rows max_term_rows)

abbrev pub clamp : ℕ → ℕ → ℕ → ℕ
clamp low high n = let n' = if ltb n low then low else n in if ltb high n' then high else n'

unfoldable pub clamp_term_size : TermSize → TermSize
clamp_term_size size = record {
  cols = clamp min_term_cols max_term_cols size.cols;
  rows = clamp min_term_rows max_term_rows size.rows;
}

unfoldable pub term_open_payload : TermOpen → List ℕ
unfolding put_u16 put_u32 clamp_term_size
term_open_payload m =
    let size = clamp_term_size m.size in
    put_u16 size.cols (
      put_u16 size.rows (
        put_u32 m.resume_id (sent_len m.client_name ∷ take (sent_len m.client_name) m.client_name)))

unfoldable pub build_term_open : ℕ → TermOpen → Answer (List ℕ)
unfolding write_common term_open_payload
build_term_open out_size m = do
  header ← write_common out_size MsgType.term_open 0 terminal_chan 0 (9 + sent_len m.client_name)
  ok (header (term_open_payload m))

unfoldable pub build_term_open_ack : ℕ → TermOpenAck → Answer (List ℕ)
unfolding write_common put_u32
build_term_open_ack out_size m = do
  header ← write_common out_size MsgType.term_open_ack 0 terminal_chan m.term_id 6
  ok (header (put_u32 m.term_id (m.reason ∷ (if m.resumed then 1 else 0) ∷ [])))

unfoldable pub build_term_data : ℕ → ℕ → List ℕ → Answer (List ℕ)
unfolding write_common
build_term_data out_size term_id bytes = do
  reject_if (length bytes == 0 || ltb max_term_data_bytes (length bytes))
  header ← write_common out_size MsgType.term_data 0 terminal_chan term_id (length bytes)
  ok (header bytes)

unfoldable pub build_term_resize : ℕ → ℕ → TermSize → Answer (List ℕ)
unfolding write_common clamp_term_size put_u16
build_term_resize out_size term_id size = do
  header ← write_common out_size MsgType.term_resize 0 terminal_chan term_id 4
  let clamped = clamp_term_size size in ok (header (put_u16 clamped.cols (put_u16 clamped.rows [])))

unfoldable pub build_term_close : ℕ → ℕ → Answer (List ℕ)
unfolding write_common
build_term_close out_size term_id = do
  header ← write_common out_size MsgType.term_close 0 terminal_chan term_id 0
  ok (header [])

-- The exit code is its 32 bits, in two's complement.
unfoldable pub build_term_exit : ℕ → ℕ → ℕ → Answer (List ℕ)
unfolding write_common put_u32
build_term_exit out_size term_id exit_code = do
  header ← write_common out_size MsgType.term_exit 0 terminal_chan term_id 4
  ok (header (put_u32 exit_code []))

-- The name's length is cut to 0 where it is too long; a name that is cut off is left empty.
unfoldable pub read_term_name : List ℕ → ℕ → Answer (List ℕ)
unfolding read_printable
read_term_name p len =
    let name_len = if ltb max_client_name_bytes len then 0 else len in
    if not (name_len == 0) && leb (9 + name_len) (length p)
    then read_printable p 9 name_len
    else ok []

unfoldable pub parse_term_open : List ℕ → Answer TermOpen
unfolding byte_at get_u16 get_u32 is_valid_term_size read_term_name
parse_term_open p = do
  reject_if (ltb (length p) 9)
  cols ← get_u16 p 0
  rows ← get_u16 p 2
  reject_if (not (is_valid_term_size (record { cols = cols; rows = rows })))
  resume_id ← get_u32 p 4
  len ← byte_at p 8
  client_name ← read_term_name p len
  ok (record {
    size = record { cols = cols; rows = rows };
    resume_id = resume_id;
    client_name = client_name;
  })

unfoldable pub parse_term_open_ack : List ℕ → Answer TermOpenAck
unfolding byte_at get_u32
parse_term_open_ack p = do
  reject_if (ltb (length p) 6)
  reason ← byte_at p 4
  reject_if (ltb no_such_session reason)
  term_id ← get_u32 p 0
  resumed ← byte_at p 5
  ok (record { term_id = term_id; reason = reason; resumed = not (resumed == 0) })

unfoldable pub parse_term_resize : List ℕ → Answer TermSize
unfolding get_u16 is_valid_term_size
parse_term_resize p = do
  reject_if (ltb (length p) 4)
  cols ← get_u16 p 0
  rows ← get_u16 p 2
  reject_if (not (is_valid_term_size (record { cols = cols; rows = rows })))
  ok (record { cols = cols; rows = rows })

unfoldable pub parse_term_exit : List ℕ → Answer ℕ
unfolding get_u32
parse_term_exit p = do reject_if (ltb (length p) 4); get_u32 p 0

unfoldable pub build_term_list : ℕ → Answer (List ℕ)
unfolding write_common
build_term_list out_size = do
  header ← write_common out_size MsgType.term_list 0 terminal_chan 0 0
  ok (header [])

unfoldable pub put_entries : List TermSessionEntry → List ℕ
unfolding put_u16 put_u32 clamp_term_size
put_entries [] = []
put_entries (e ∷ entries) =
    let size = clamp_term_size e.size in
    put_u32 e.term_id (
      (if ltb local_state e.state then live else e.state)
      ∷ put_u16 size.cols (
          put_u16 size.rows (
            sent_len e.client_name ∷ take (sent_len e.client_name) e.client_name
            ++ put_entries entries)))

-- The first sixteen sessions are sent.
unfoldable pub term_list_ack_payload : List TermSessionEntry → List ℕ
unfolding put_u16 put_entries
term_list_ack_payload sessions =
    let count =
      if ltb (length sessions) max_term_list_entries
      then length sessions
      else max_term_list_entries in
    put_u16 count (put_entries (take count sessions))

unfoldable pub build_term_list_ack : ℕ → List TermSessionEntry → Answer (List ℕ)
unfolding write_common term_list_ack_payload
build_term_list_ack out_size sessions = do
  header ←
      write_common out_size MsgType.term_list_ack 0 terminal_chan 0
        (length (term_list_ack_payload sessions))
  ok (header (term_list_ack_payload sessions))

unfoldable pub read_entries : ℕ → List ℕ → Answer (List TermSessionEntry)
unfolding byte_at bytes_at tail_at get_u16 get_u32 is_valid_term_size
read_entries zero rest = ok []
read_entries (suc count) rest = do
  reject_if (ltb (length rest) term_list_entry_fixed_bytes)
  state ← byte_at rest 4
  reject_if (ltb local_state state)
  cols ← get_u16 rest 5
  rows ← get_u16 rest 7
  reject_if (not (is_valid_term_size (record { cols = cols; rows = rows })))
  name_len ← byte_at rest 9
  reject_if (
      ltb max_client_name_bytes name_len
      || ltb (length rest - term_list_entry_fixed_bytes) name_len)
  term_id ← get_u32 rest 0
  client_name ← bytes_at rest term_list_entry_fixed_bytes name_len
  later ← tail_at rest (term_list_entry_fixed_bytes + name_len)
  entries ← read_entries count later
  ok (
      (record {
        term_id = term_id;
        state = state;
        size = record { cols = cols; rows = rows };
        client_name = client_name;
      })
      ∷ entries)

unfoldable pub parse_term_list_ack : List ℕ → Answer (List TermSessionEntry)
unfolding get_u16 tail_at read_entries
parse_term_list_ack p = do
  reject_if (ltb (length p) 2)
  count ← get_u16 p 0
  reject_if (ltb max_term_list_entries count)
  rest ← tail_at p 2
  read_entries count rest
