-- ===== src/Protocol/Wire/Files.antt =====
-- The file transfer messages of core/src/protocol/Wire.cpp.
pub mod RoundTrip
pub mod Safety
use deskhub.Base.{
  ℕ, zero, suc, ◌+◌, ◌-◌, ◌*◌, ◌^◌, Bool, true, false, not, ◌||◌, ◌&&◌, List, [], ◌∷◌, ◌++◌, length,
  ltb, leb, ◌==◌, if◌then◌else◌, take, drop,
}
use deskhub.Base.Result.{Answer, ok, reject, reject_if, byte_at, bytes_at, tail_at, ◌>>=◌, ◌>>◌}
use deskhub.Base.Words.{add64}
use deskhub.Protocol.MsgType
use deskhub.Protocol.ByteOrder.{put_u16, put_u32, put_u64, get_u16, get_u32, get_u64}
use deskhub.Protocol.Record.{max_record_size}
use deskhub.Protocol.Wire.{write_common, common_header_size, file_chan}
use deskhub.Protocol.Wire.Names.{utf8_trunc_len}

abbrev pub max_transfer_files : ℕ
max_transfer_files = 32

abbrev pub max_transfer_name_bytes : ℕ
max_transfer_name_bytes = 255

abbrev pub max_transfer_file_bytes : ℕ
max_transfer_file_bytes = 8 * 2 ^ 30

abbrev pub max_transfer_batch_bytes : ℕ
max_transfer_batch_bytes = 32 * 2 ^ 30

abbrev pub file_offer_header_size : ℕ
file_offer_header_size = 5

abbrev pub file_offer_entry_overhead : ℕ
file_offer_entry_overhead = 9

abbrev pub file_chunk_header_size : ℕ
file_chunk_header_size = 14

abbrev pub max_file_chunk_bytes : ℕ
max_file_chunk_bytes = max_record_size - common_header_size - file_chunk_header_size

-- The last of the `TransferReason`s, which are numbered from 0 (Accepted) on.
abbrev pub max_transfer_reason : ℕ
max_transfer_reason = 10

pub record TransferFile : Type 0 where
  pub size : ℕ
  pub name : List ℕ

pub record FileOffer : Type 0 where
  pub batch_id : ℕ
  pub files : List TransferFile

pub record FileAccept : Type 0 where
  pub batch_id : ℕ
  pub reason : ℕ

pub record FileChunkView : Type 0 where
  pub batch_id : ℕ
  pub file_index : ℕ
  pub offset : ℕ
  pub bytes : List ℕ

pub record FileDone : Type 0 where
  pub batch_id : ℕ
  pub file_index : ℕ
  pub crc32 : ℕ

pub record FileAck : Type 0 where
  pub batch_id : ℕ
  pub file_index : ℕ
  pub reason : ℕ

pub record FileCancel : Type 0 where
  pub batch_id : ℕ
  pub reason : ℕ

-- No control byte, no slash and no backslash.
unfoldable pub all_legal : List ℕ → Bool
all_legal [] = true
all_legal (c ∷ name) =
    let rest = all_legal name in
    if ltb c 0x20 || (c == 0x7F) then false else if (c == 0x2F) || (c == 0x5C) then false else rest

-- `name == "." || name == ".."`
unfoldable pub is_dots : List ℕ → Bool
is_dots (a ∷ []) = a == 0x2E
is_dots (a ∷ b ∷ []) = (a == 0x2E) && (b == 0x2E)
is_dots [] = false
is_dots (a ∷ b ∷ c ∷ name) = false

unfoldable pub is_wire_legal_file_name : List ℕ → Bool
unfolding all_legal is_dots
is_wire_legal_file_name name =
    if length name == 0 || ltb max_transfer_name_bytes (length name)
    then false
    else if is_dots name
    then false
    else all_legal name

abbrev pub sent_name_len : List ℕ → ℕ
sent_name_len name = utf8_trunc_len name max_transfer_name_bytes

-- The first loop of `BuildFileOffer`: the size of the payload, if every file may be offered.
unfoldable pub offer_size : List TransferFile → ℕ → ℕ → Answer ℕ
unfolding is_wire_legal_file_name add64
offer_size [] total_bytes payload = ok payload
offer_size (f ∷ files) total_bytes payload = do
  reject_if (not (is_wire_legal_file_name f.name))
  reject_if (ltb max_transfer_file_bytes f.size)
  reject_if (ltb max_transfer_batch_bytes (add64 total_bytes f.size))
  offer_size files (add64 total_bytes f.size)
      (payload + (file_offer_entry_overhead + sent_name_len f.name))

unfoldable pub put_files : List TransferFile → List ℕ
unfolding put_u64
put_files [] = []
put_files (f ∷ files) =
    put_u64 f.size (sent_name_len f.name ∷ take (sent_name_len f.name) f.name ++ put_files files)

unfoldable pub file_offer_payload : FileOffer → List ℕ
unfolding put_u32 put_files
file_offer_payload m = put_u32 m.batch_id (length m.files ∷ put_files m.files)

unfoldable pub build_file_offer : ℕ → FileOffer → Answer (List ℕ)
unfolding write_common offer_size file_offer_payload
build_file_offer out_size m = do
  reject_if (length m.files == 0 || ltb max_transfer_files (length m.files))
  payload ← offer_size m.files 0 file_offer_header_size
  header ← write_common out_size MsgType.file_offer 0 file_chan m.batch_id payload
  ok (header (file_offer_payload m))

-- The loop of `ParseFileOffer` over `count` entries; `rest` is the payload from `at` on.
unfoldable pub read_files : ℕ → List ℕ → ℕ → Answer (List TransferFile)
unfolding is_wire_legal_file_name add64 get_u64 byte_at tail_at bytes_at
read_files zero rest total_bytes = ok []
read_files (suc count) rest total_bytes = do
  reject_if (ltb (length rest) file_offer_entry_overhead)
  size ← get_u64 rest 0
  reject_if (ltb max_transfer_file_bytes size)
  reject_if (ltb max_transfer_batch_bytes (add64 total_bytes size))
  name_len ← byte_at rest 8
  reject_if (ltb (length rest) (file_offer_entry_overhead + name_len))
  name ← bytes_at rest file_offer_entry_overhead name_len
  reject_if (not (is_wire_legal_file_name name))
  later ← tail_at rest (file_offer_entry_overhead + name_len)
  files ← read_files count later (add64 total_bytes size)
  ok (record { size = size; name = name } ∷ files)

unfoldable pub parse_file_offer : List ℕ → Answer FileOffer
unfolding byte_at get_u32 tail_at read_files
parse_file_offer p = do
  reject_if (ltb (length p) file_offer_header_size)
  batch_id ← get_u32 p 0
  count ← byte_at p 4
  reject_if (count == 0 || ltb max_transfer_files count)
  rest ← tail_at p file_offer_header_size
  files ← read_files count rest 0
  ok (record { batch_id = batch_id; files = files })

unfoldable pub build_file_accept : ℕ → FileAccept → Answer (List ℕ)
unfolding write_common put_u32
build_file_accept out_size m = do
  header ← write_common out_size MsgType.file_accept 0 file_chan m.batch_id 5
  ok (header (put_u32 m.batch_id (m.reason ∷ [])))

unfoldable pub parse_file_accept : List ℕ → Answer FileAccept
unfolding byte_at get_u32
parse_file_accept p = do
  reject_if (ltb (length p) 5)
  reason ← byte_at p 4
  reject_if (ltb max_transfer_reason reason)
  batch_id ← get_u32 p 0
  ok (record { batch_id = batch_id; reason = reason })

unfoldable pub file_chunk_payload : FileChunkView → List ℕ
unfolding put_u16 put_u32 put_u64
file_chunk_payload m = put_u32 m.batch_id (put_u16 m.file_index (put_u64 m.offset m.bytes))

unfoldable pub build_file_chunk : ℕ → FileChunkView → Answer (List ℕ)
unfolding write_common file_chunk_payload
build_file_chunk out_size m = do
  reject_if (length m.bytes == 0 || ltb max_file_chunk_bytes (length m.bytes))
  reject_if (leb max_transfer_files m.file_index)
  header ←
      write_common out_size MsgType.file_chunk 0 file_chan m.batch_id
        (file_chunk_header_size + length m.bytes)
  ok (header (file_chunk_payload m))

unfoldable pub parse_file_chunk : List ℕ → Answer FileChunkView
unfolding get_u16 get_u32 get_u64 tail_at
parse_file_chunk p = do
  reject_if (leb (length p) file_chunk_header_size)
  batch_id ← get_u32 p 0
  file_index ← get_u16 p 4
  reject_if (leb max_transfer_files file_index)
  offset ← get_u64 p 6
  bytes ← tail_at p file_chunk_header_size
  reject_if (ltb max_file_chunk_bytes (length bytes))
  reject_if (ltb (max_transfer_file_bytes - length bytes) offset)
  ok (record { batch_id = batch_id; file_index = file_index; offset = offset; bytes = bytes })

unfoldable pub build_file_done : ℕ → FileDone → Answer (List ℕ)
unfolding write_common put_u16 put_u32
build_file_done out_size m = do
  header ← write_common out_size MsgType.file_done 0 file_chan m.batch_id 10
  ok (header (put_u32 m.batch_id (put_u16 m.file_index (put_u32 m.crc32 []))))

unfoldable pub parse_file_done : List ℕ → Answer FileDone
unfolding get_u16 get_u32
parse_file_done p = do
  reject_if (ltb (length p) 10)
  batch_id ← get_u32 p 0
  file_index ← get_u16 p 4
  reject_if (leb max_transfer_files file_index)
  crc32 ← get_u32 p 6
  ok (record { batch_id = batch_id; file_index = file_index; crc32 = crc32 })

unfoldable pub build_file_ack : ℕ → FileAck → Answer (List ℕ)
unfolding write_common put_u16 put_u32
build_file_ack out_size m = do
  header ← write_common out_size MsgType.file_ack 0 file_chan m.batch_id 7
  ok (header (put_u32 m.batch_id (put_u16 m.file_index (m.reason ∷ []))))

unfoldable pub parse_file_ack : List ℕ → Answer FileAck
unfolding byte_at get_u16 get_u32
parse_file_ack p = do
  reject_if (ltb (length p) 7)
  reason ← byte_at p 6
  reject_if (ltb max_transfer_reason reason)
  batch_id ← get_u32 p 0
  file_index ← get_u16 p 4
  reject_if (leb max_transfer_files file_index)
  ok (record { batch_id = batch_id; file_index = file_index; reason = reason })

unfoldable pub build_file_cancel : ℕ → FileCancel → Answer (List ℕ)
unfolding write_common put_u32
build_file_cancel out_size m = do
  header ← write_common out_size MsgType.file_cancel 0 file_chan m.batch_id 5
  ok (header (put_u32 m.batch_id (m.reason ∷ [])))

unfoldable pub parse_file_cancel : List ℕ → Answer FileCancel
unfolding byte_at get_u32
parse_file_cancel p = do
  reject_if (ltb (length p) 5)
  reason ← byte_at p 4
  reject_if (ltb max_transfer_reason reason)
  batch_id ← get_u32 p 0
  ok (record { batch_id = batch_id; reason = reason })
