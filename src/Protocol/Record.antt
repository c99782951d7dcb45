-- ===== src/Protocol/Record.antt =====
-- `BuildRecord` and `ReadRecord` of core/src/protocol/Wire.cpp: a message behind its length.
use deskhub.Base.{
  ℕ, ◌+◌, ◌%◌, ◌^◌, ◌≤◌, ◌<◌, ◌≡◌, ◌||◌, List, [], ◌∷◌, ◌++◌, length, take, ltb, ◌==◌,
  if◌then◌else◌, arith, length-append, take-append,
}
use deskhub.Base.Result.{Answer, ok, reject_if, ◌>>◌}
use deskhub.Protocol.ByteOrder.{put_u16, u16_of}
use deskhub.Protocol.ByteOrder.Laws.{u16_of-bytes}

abbrev pub record_prefix_size : ℕ
record_prefix_size = 2

abbrev pub max_record_size : ℕ
max_record_size = 16384

-- `RecordView`: `done` is the status `Ok`, with the message and the bytes consumed.
pub data RecordView : Type 0 where
  done : List ℕ → ℕ → RecordView
  need_more invalid : RecordView

unfoldable pub build_record : ℕ → List ℕ → Answer (List ℕ)
unfolding put_u16
build_record out_size message = do
  reject_if (length message == 0 || ltb max_record_size (length message))
  reject_if (ltb out_size (record_prefix_size + length message))
  ok (put_u16 (length message % 2 ^ 16) message)

-- The record of `len` bytes in front of what follows the prefix.
unfoldable pub read_body : ℕ → List ℕ → RecordView
read_body len rest =
    if len == 0 || ltb max_record_size len
    then invalid
    else if ltb (length rest) len
    then need_more
    else done (take len rest) (record_prefix_size + len)

unfoldable pub read_record : List ℕ → RecordView
unfolding read_body u16_of
read_record [] = need_more
read_record (a ∷ []) = need_more
read_record (a ∷ b ∷ rest) = read_body (u16_of a b) rest

-- A message that a record can carry.
pub record IsMessage (m : List ℕ) : Type 0 where
  pub some_byte : 0 < length m
  pub small : length m ≤ max_record_size

-- The bytes of the record of `m`.
abbrev pub record_of : List ℕ → List ℕ
unfolding put_u16
record_of m = put_u16 (length m % 2 ^ 16) m

pub build_record-record_of :
    (out_size : ℕ) (m : List ℕ)
    → IsMessage m
    → 2 + length m ≤ out_size
    → build_record out_size m ≡ ok (record_of m)
unfolding build_record
build_record-record_of out_size m v room = ground arith

pub length-record_of : (m : List ℕ) → length (record_of m) ≡ 2 + length m
unfolding put_u16
length-record_of m = omega arith

-- A record is read back from the front of whatever follows it.
pub read_record-record_of :
    (m rest : List ℕ) → IsMessage m → read_record (record_of m ++ rest) ≡ done m (2 + length m)
unfolding read_record put_u16
read_record-record_of m rest v =
    ground
      (arith, u16_of-bytes (length m % 2 ^ 16), length-append m rest, take-append m rest (length m))
