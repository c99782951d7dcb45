-- ===== src/Base/Words.antt =====
-- Unsigned words of 64, 32 and 16 bits, which wrap.
use deskhub.Base.{ℕ, ◌+◌, ◌-◌, ◌%◌, ◌^◌, ◌≤◌, ◌<◌, ◌≡◌, arith}

unfoldable pub add64 : ℕ → ℕ → ℕ
add64 a b = (a + b) % 2 ^ 64

unfoldable pub sub64 : ℕ → ℕ → ℕ
sub64 a b = (a + 2 ^ 64 - b) % 2 ^ 64

abbrev pub to_u32 : ℕ → ℕ
to_u32 a = a % 2 ^ 32

abbrev pub to_u16 : ℕ → ℕ
to_u16 a = a % 2 ^ 16

-- Where the clock does not run backwards the difference is the elapsed time.
pub sub64_of_le : (a b : ℕ) → a < 2 ^ 64 → b ≤ a → sub64 a b ≡ a - b
unfolding sub64
sub64_of_le a b h k = omega arith
