-- ===== src/Base/Result.antt =====
-- What an operation on a byte span answers. `reject` is the `std::nullopt` or the 0 of the source.
-- `fault` is no answer of the source: an access outside the span, which the proofs rule out.
use deskhub.Base.{
  ℕ, zero, suc, ◌+◌, ◌≤◌, ◌<◌, ◌≡◌, refl, Bool, true, false, List, [], ◌∷◌, arith, length, take,
  drop, leb, if◌then◌else◌,
}

pub data Answer {ℓ} (A : Type ℓ) : Type ℓ where
  ok : A → Answer A
  reject : Answer A
  fault : Answer A

infixl 5 ◌>>=◌ ◌>>◌
abbrev pub ◌>>=◌ {ℓ κ} : {A : Type ℓ} {B : Type κ} → Answer A → (A → Answer B) → Answer B
ok a >>= f = f a
reject >>= f = reject
fault >>= f = fault

abbrev pub ◌>>◌ {ℓ} : {B : Type ℓ} → Answer (Unit {0}) → Answer B → Answer B
m >> k = m >>= λ _. k

-- `if (test) return std::nullopt;`
abbrev pub reject_if : Bool → Answer (Unit {0})
reject_if true = reject
reject_if false = ok tt

-- `p[i]`
unfoldable pub byte_at : List ℕ → ℕ → Answer ℕ
byte_at [] i = fault
byte_at (b ∷ p) zero = ok b
byte_at (b ∷ p) (suc i) = byte_at p i

-- `n` bytes from `p + i` on, as `memcpy`, `assign` and `subspan` read them.
unfoldable pub bytes_at : List ℕ → ℕ → ℕ → Answer (List ℕ)
bytes_at p i n = if leb (i + n) (length p) then ok (take n (drop i p)) else fault

-- `p.subspan(i)`
unfoldable pub tail_at : List ℕ → ℕ → Answer (List ℕ)
tail_at p i = if leb i (length p) then ok (drop i p) else fault

-- What a read inside the span finds.
pub byte_at_of_lt : (p : List ℕ) (i : ℕ) → i < length p → (b : ℕ) × (byte_at p i ≡ ok b)
unfolding byte_at
byte_at_of_lt [] i h = elim h [ ]
byte_at_of_lt (b ∷ p) zero h = (b, refl)
byte_at_of_lt (b ∷ p) (suc i) h = byte_at_of_lt p i (omega arith)

pub bytes_at_of_le :
    (p : List ℕ) (i n : ℕ) → i + n ≤ length p → bytes_at p i n ≡ ok (take n (drop i p))
unfolding bytes_at
bytes_at_of_le p i n h = ground arith

pub tail_at_of_le : (p : List ℕ) (i : ℕ) → i ≤ length p → tail_at p i ≡ ok (drop i p)
unfolding tail_at
tail_at_of_le p i h = ground arith
