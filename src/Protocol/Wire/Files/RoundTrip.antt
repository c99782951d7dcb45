-- ===== src/Protocol/Wire/Files/RoundTrip.antt =====
-- File transfer messages are read back from the datagram that carries them.
use deskhub.Base.{ℕ, ◌+◌, ◌/◌, ◌%◌, ◌^◌, ◌≤◌, ◌<◌, arith, length}
use deskhub.Protocol.MsgType
use deskhub.Protocol.ByteOrder.Laws.{u16_of-bytes, u32_of-bytes, u64_of-words}
use deskhub.Protocol.Wire.{file_chan}
use deskhub.Protocol.Wire.Header.{Delivers, deliver, header_of}
use deskhub.Protocol.Wire.Files.{
  FileChunkView, file_chunk_payload, build_file_chunk, parse_file_chunk, max_transfer_files,
  max_transfer_file_bytes, max_file_chunk_bytes,
}

-- What a file chunk must meet to be taken.
pub record ChunkFits (m : FileChunkView) : Type 0 where
  pub batch_id : m.batch_id < 2 ^ 32
  pub file_index : m.file_index < max_transfer_files
  pub some_bytes : 0 < length m.bytes
  pub bytes : length m.bytes ≤ max_file_chunk_bytes
  pub end : m.offset + length m.bytes ≤ max_transfer_file_bytes

-- A chunk with a batch number of 32 bits, one of the batch's 32 files, 1 byte or more up to the
-- limit of a chunk and an end within the 8 GiB of a file is delivered, if the buffer has room for
-- it.
pub parse_file_chunk-build_file_chunk :
    (out_size : ℕ) (m : FileChunkView)
    → ChunkFits m
    → 22 + length m.bytes ≤ out_size
    → Delivers
        (build_file_chunk out_size m)
        (header_of MsgType.file_chunk 0 file_chan m.batch_id)
        (22 + length m.bytes)
        parse_file_chunk
        m
unfolding build_file_chunk
parse_file_chunk-build_file_chunk out_size m f room =
    deliver _ MsgType.file_chunk 0 file_chan m.batch_id _ (file_chunk_payload m) _ _ f.batch_id
      (ground arith) (unfold file_chunk_payload in omega arith)
      (unfold parse_file_chunk file_chunk_payload in
        ground (
          arith,
          u32_of-bytes m.batch_id,
          u16_of-bytes m.file_index,
          u32_of-bytes (m.offset / 2 ^ 32 % 2 ^ 32),
          u32_of-bytes (m.offset % 2 ^ 32),
          u64_of-words m.offset,
        ))
