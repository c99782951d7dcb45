-- ===== src/Protocol/Wire/Files/Safety.antt =====
-- No parser of a file transfer message reads past the end of its payload.
use deskhub.Base.{ℕ, zero, suc, ◌+◌, ◌≢◌, List, arith, length, drop, ltb, Bool-cases, inl, inr}
use deskhub.Base.Words.{add64}
use deskhub.Base.Result.{fault, byte_at_of_lt, bytes_at_of_le, tail_at_of_le}
use deskhub.Protocol.ByteOrder.Laws.{get_u16_of_le, get_u32_of_le, get_u64_of_le}
use deskhub.Protocol.Wire.Files.{
  read_files, parse_file_offer, parse_file_accept, parse_file_chunk, parse_file_done,
  parse_file_ack, parse_file_cancel,
}

pub parse_file_accept-ne-fault : (p : List ℕ) → parse_file_accept p ≢ fault
unfolding parse_file_accept
parse_file_accept-ne-fault p = ground (arith, byte_at_of_lt p 4, get_u32_of_le p 0)

pub parse_file_chunk-ne-fault : (p : List ℕ) → parse_file_chunk p ≢ fault
unfolding parse_file_chunk
parse_file_chunk-ne-fault p =
    ground (arith, get_u32_of_le p 0, get_u16_of_le p 4, get_u64_of_le p 6, tail_at_of_le p 14)

pub parse_file_done-ne-fault : (p : List ℕ) → parse_file_done p ≢ fault
unfolding parse_file_done
parse_file_done-ne-fault p = ground (arith, get_u32_of_le p 0, get_u16_of_le p 4, get_u32_of_le p 6)

pub parse_file_ack-ne-fault : (p : List ℕ) → parse_file_ack p ≢ fault
unfolding parse_file_ack
parse_file_ack-ne-fault p = ground (arith, byte_at_of_lt p 6, get_u32_of_le p 0, get_u16_of_le p 4)

pub parse_file_cancel-ne-fault : (p : List ℕ) → parse_file_cancel p ≢ fault
unfolding parse_file_cancel
parse_file_cancel-ne-fault p = ground (arith, byte_at_of_lt p 4, get_u32_of_le p 0)

read_files-ne-fault : (n : ℕ) (rest : List ℕ) (total : ℕ) → read_files n rest total ≢ fault
unfolding read_files
read_files-ne-fault zero rest total = ground arith
read_files-ne-fault (suc n) rest total = elim (Bool-cases (ltb (length rest) 9)) [
  | inl short ↦ rw short (λ e. cc)
  | inr long ↦
      let (size, es) = get_u64_of_le rest 0 (ground arith) in
      let (name_len, en) = byte_at_of_lt rest 8 (ground arith) in
      ground (
        arith,
        es,
        en,
        bytes_at_of_le rest 9 name_len,
        tail_at_of_le rest (9 + name_len),
        read_files-ne-fault n (drop (9 + name_len) rest) (add64 total size),
      )
]

pub parse_file_offer-ne-fault : (p : List ℕ) → parse_file_offer p ≢ fault
unfolding parse_file_offer
parse_file_offer-ne-fault p = elim (Bool-cases (ltb (length p) 5)) [
  | inl short ↦ rw short (λ e. cc)
  | inr long ↦
      let (count, e) = byte_at_of_lt p 4 (ground arith) in
      ground
        (arith, e, get_u32_of_le p 0, tail_at_of_le p 5, read_files-ne-fault count (drop 5 p) 0)
]
