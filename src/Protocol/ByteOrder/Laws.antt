-- ===== src/Protocol/ByteOrder/Laws.antt =====
-- Words read back what was written, and a read inside the span answers.
use deskhub.Base.{ℕ, ◌+◌, ◌*◌, ◌/◌, ◌%◌, ◌^◌, ◌≤◌, ◌≡◌, List, arith, length}
use deskhub.Base.Bits.{bit_or-shift, bit_or_byte}
use deskhub.Base.Result.{ok, byte_at_of_lt}
use deskhub.Protocol.ByteOrder.{u16_of, u32_of, u64_of, get_u16, get_u32, get_u64}

-- The bytes that `PutU16` writes make up the word again.
pub u16_of-bytes : (v : ℕ) → u16_of (v / 2 ^ 8 % 2 ^ 8) (v % 2 ^ 8) ≡ v % 2 ^ 16
unfolding u16_of
u16_of-bytes v = rw (bit_or-shift 8 (v / 2 ^ 8 % 2 ^ 8) (v % 2 ^ 8) (omega arith)) (omega arith)

pub u32_of-bytes :
    (v : ℕ)
    → u32_of (v / 2 ^ 24 % 2 ^ 8) (v / 2 ^ 16 % 2 ^ 8) (v / 2 ^ 8 % 2 ^ 8) (v % 2 ^ 8) ≡ v % 2 ^ 32
unfolding u32_of
u32_of-bytes v =
    let a = v / 2 ^ 24 % 2 ^ 8 in
    let b = v / 2 ^ 16 % 2 ^ 8 in
    let c = v / 2 ^ 8 % 2 ^ 8 in
    let high = a * 2 ^ 8 + b in
    rw
      (
        bit_or_byte 16 (a * 2 ^ 24) a b (omega arith) (omega arith),
        bit_or_byte 8 (high * 2 ^ 16) high c (omega arith) (omega arith),
        bit_or-shift 8 (high * 2 ^ 8 + c) (v % 2 ^ 8) (omega arith),
      )
      (omega arith)

pub u64_of-words : (v : ℕ) → u64_of (v / 2 ^ 32 % 2 ^ 32) (v % 2 ^ 32) ≡ v % 2 ^ 64
unfolding u64_of
u64_of-words v = rw (bit_or-shift 32 (v / 2 ^ 32 % 2 ^ 32) (v % 2 ^ 32) (omega arith)) (omega arith)

pub get_u16_of_le : (p : List ℕ) (i : ℕ) → i + 2 ≤ length p → (v : ℕ) × (get_u16 p i ≡ ok v)
unfolding get_u16
get_u16_of_le p i h =
    let (a, ea) = byte_at_of_lt p i (omega arith) in
    let (b, eb) = byte_at_of_lt p (i + 1) (omega arith) in (u16_of a b, rw (ea, eb))

pub get_u32_of_le : (p : List ℕ) (i : ℕ) → i + 4 ≤ length p → (v : ℕ) × (get_u32 p i ≡ ok v)
unfolding get_u32
get_u32_of_le p i h =
    let (a, ea) = byte_at_of_lt p i (omega arith) in
    let (b, eb) = byte_at_of_lt p (i + 1) (omega arith) in
    let (c, ec) = byte_at_of_lt p (i + 2) (omega arith) in
    let (d, ed) = byte_at_of_lt p (i + 3) (omega arith) in (u32_of a b c d, rw (ea, eb, ec, ed))

pub get_u64_of_le : (p : List ℕ) (i : ℕ) → i + 8 ≤ length p → (v : ℕ) × (get_u64 p i ≡ ok v)
unfolding get_u64
get_u64_of_le p i h =
    let (a, ea) = get_u32_of_le p i (omega arith) in
    let (b, eb) = get_u32_of_le p (i + 4) (omega arith) in (u64_of a b, rw (ea, eb))
