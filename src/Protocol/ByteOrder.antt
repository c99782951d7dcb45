-- ===== src/Protocol/ByteOrder.antt =====
-- core/include/deskhub/protocol/ByteOrder.h: big-endian words. A `Put` writes in front of the bytes
-- that follow it; a `Get` reads at an offset from the start of the span.
pub mod Laws
use deskhub.Base.{ℕ, ◌+◌, ◌*◌, ◌/◌, ◌%◌, ◌^◌, bit_or, List, ◌∷◌}
use deskhub.Base.Result.{Answer, ok, byte_at, ◌>>=◌}

unfoldable pub put_u16 : ℕ → List ℕ → List ℕ
put_u16 v rest = (v / 2 ^ 8 % 2 ^ 8) ∷ (v % 2 ^ 8) ∷ rest

unfoldable pub put_u32 : ℕ → List ℕ → List ℕ
put_u32 v rest =
    (v / 2 ^ 24 % 2 ^ 8) ∷ (v / 2 ^ 16 % 2 ^ 8) ∷ (v / 2 ^ 8 % 2 ^ 8) ∷ (v % 2 ^ 8) ∷ rest

-- `uint32_t(v >> 32)`, then `uint32_t(v)`
unfoldable pub put_u64 : ℕ → List ℕ → List ℕ
unfolding put_u32
put_u64 v rest = put_u32 (v / 2 ^ 32 % 2 ^ 32) (put_u32 (v % 2 ^ 32) rest)

-- the words that bytes make up
unfoldable pub u16_of : ℕ → ℕ → ℕ
u16_of a b = bit_or (a * 2 ^ 8) b % 2 ^ 16

unfoldable pub u32_of : ℕ → ℕ → ℕ → ℕ → ℕ
u32_of a b c d = bit_or (bit_or (bit_or (a * 2 ^ 24) (b * 2 ^ 16)) (c * 2 ^ 8)) d

unfoldable pub u64_of : ℕ → ℕ → ℕ
u64_of hi lo = bit_or (hi * 2 ^ 32) lo

unfoldable pub get_u16 : List ℕ → ℕ → Answer ℕ
unfolding byte_at
get_u16 p i = do a ← byte_at p i; b ← byte_at p (i + 1); ok (u16_of a b)

unfoldable pub get_u32 : List ℕ → ℕ → Answer ℕ
unfolding byte_at
get_u32 p i = do
  a ← byte_at p i
  b ← byte_at p (i + 1)
  c ← byte_at p (i + 2)
  d ← byte_at p (i + 3)
  ok (u32_of a b c d)

unfoldable pub get_u64 : List ℕ → ℕ → Answer ℕ
unfolding get_u32
get_u64 p i = do hi ← get_u32 p i; lo ← get_u32 p (i + 4); ok (u64_of hi lo)
