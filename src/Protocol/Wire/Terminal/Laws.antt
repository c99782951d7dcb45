-- ===== src/Protocol/Wire/Terminal/Laws.antt =====
-- Terminal sizes, and what the parsers of the terminal messages read.
use deskhub.Base.{
  ℕ, zero, suc, ◌+◌, ◌^◌, ◌≤◌, ◌<◌, ◌≡◌, ◌≢◌, true, List, [], arith, length, ltb, drop, Bool-cases,
  inl, inr,
}
use deskhub.Base.Result.{ok, fault, byte_at_of_lt, bytes_at_of_le, tail_at_of_le}
use deskhub.Protocol.MsgType
use deskhub.Protocol.ByteOrder.{put_u16}
use deskhub.Protocol.ByteOrder.Laws.{get_u16_of_le, get_u32_of_le, u16_of-bytes}
use deskhub.Protocol.Wire.{terminal_chan}
use deskhub.Protocol.Wire.Header.{Delivers, deliver, header_of}
use deskhub.Protocol.Wire.Names.{read_printable_of_le}
use deskhub.Protocol.Wire.Terminal.{
  TermSize, clamp_term_size, is_valid_term_size, build_term_resize, parse_term_resize,
  parse_term_open, parse_term_open_ack, parse_term_exit, read_term_name, read_entries,
  parse_term_list_ack,
}

-- A clamped size is valid, and a valid size stays as it is.
pub clamp_term_size-IsValid :
    (size : TermSize)
    → (is_valid_term_size (clamp_term_size size) ≡ true)
      × (is_valid_term_size size ≡ true → clamp_term_size size ≡ size)
unfolding clamp_term_size is_valid_term_size
clamp_term_size-IsValid size = (ground arith, λ v. ground arith)

resize_read :
    (c : TermSize)
    → is_valid_term_size c ≡ true
    → parse_term_resize (put_u16 c.cols (put_u16 c.rows [])) ≡ ok c
unfolding parse_term_resize put_u16
resize_read c v =
    unfold is_valid_term_size in ground (arith, u16_of-bytes c.cols, u16_of-bytes c.rows)

-- Any new size of a terminal with a 32-bit number arrives clamped to the range that a terminal
-- takes, if the buffer has room for 12 bytes.
pub parse_term_resize-build_term_resize :
    (out_size term_id : ℕ) (size : TermSize)
    → term_id < 2 ^ 32
    → 12 ≤ out_size
    → Delivers
        (build_term_resize out_size term_id size)
        (header_of MsgType.term_resize 0 terminal_chan term_id)
        12
        parse_term_resize
        (clamp_term_size size)
unfolding build_term_resize
parse_term_resize-build_term_resize out_size term_id size fits room =
    let c = clamp_term_size size in
    deliver _ MsgType.term_resize 0 terminal_chan term_id _ (put_u16 c.cols (put_u16 c.rows [])) _ _
      fits (ground arith) (unfold put_u16 in omega arith)
      (resize_read c (clamp_term_size-IsValid size).0)

pub parse_term_open_ack-ne-fault : (p : List ℕ) → parse_term_open_ack p ≢ fault
unfolding parse_term_open_ack
parse_term_open_ack-ne-fault p =
    ground (arith, byte_at_of_lt p 4, get_u32_of_le p 0, byte_at_of_lt p 5)

pub parse_term_resize-ne-fault : (p : List ℕ) → parse_term_resize p ≢ fault
unfolding parse_term_resize
parse_term_resize-ne-fault p = ground (arith, get_u16_of_le p 0, get_u16_of_le p 2)

pub parse_term_exit-ne-fault : (p : List ℕ) → parse_term_exit p ≢ fault
unfolding parse_term_exit
parse_term_exit-ne-fault p = ground (arith, get_u32_of_le p 0)

pub parse_term_open-ne-fault : (p : List ℕ) → parse_term_open p ≢ fault
unfolding parse_term_open
parse_term_open-ne-fault p = elim (Bool-cases (ltb (length p) 9)) [
  | inl short ↦ rw short (λ e. cc)
  | inr long ↦
      let (n, en) = byte_at_of_lt p 8 (ground arith) in
      unfold read_term_name in
      ground (
        arith,
        en,
        get_u16_of_le p 0,
        get_u16_of_le p 2,
        get_u32_of_le p 4,
        read_printable_of_le p 9 n,
        read_printable_of_le p 9 0,
      )
]

read_entries-ne-fault : (n : ℕ) (rest : List ℕ) → read_entries n rest ≢ fault
unfolding read_entries
read_entries-ne-fault zero rest = ground arith
read_entries-ne-fault (suc n) rest = elim (Bool-cases (ltb (length rest) 10)) [
  | inl short ↦ rw short (λ e. cc)
  | inr long ↦
      let (k, ek) = byte_at_of_lt rest 9 (ground arith) in
      ground (
        arith,
        ek,
        byte_at_of_lt rest 4,
        get_u16_of_le rest 5,
        get_u16_of_le rest 7,
        get_u32_of_le rest 0,
        bytes_at_of_le rest 10 k,
        tail_at_of_le rest (10 + k),
        read_entries-ne-fault n (drop (10 + k) rest),
      )
]

pub parse_term_list_ack-ne-fault : (p : List ℕ) → parse_term_list_ack p ≢ fault
unfolding parse_term_list_ack
parse_term_list_ack-ne-fault p = elim (Bool-cases (ltb (length p) 2)) [
  | inl short ↦ rw short (λ e. cc)
  | inr long ↦
      let (n, en) = get_u16_of_le p 0 (ground arith) in
      ground (arith, en, tail_at_of_le p 2, read_entries-ne-fault n (drop 2 p))
]
