-- ===== src/Base/Bits.antt =====
-- `|`, `&` and `^` of machine words as arithmetic, at every width.
use Prim.Native.Nat.{digits, bitwise, differ, bit_or-bitwise, bit_xor-bitwise}
use mathlib.Core.WellFounded
use native.Mathlib.Nat.{pow-suc, mul-one}
use mathlib.Core.Path.{ap₂}
use deskhub.Base.{
  ℕ, zero, suc, ◌+◌, ◌*◌, ◌/◌, ◌%◌, ◌^◌, ◌≤◌, ◌<◌, max, bit_or, bit_xor, ◌≡◌, refl, ap, arith, ◌⊎◌,
  inl, inr, ◌∙◌,
}
use deskhub.Base.Order.{lt_wf}

-- The library's digit recursion runs on fuel. What is not used up makes no difference: here `n`
-- bounds the fuel, so that both of its values below are in the reach of the induction.
module _ (rest : ℕ → ℕ) (bit : ℕ → ℕ → ℕ) where
  spare_fuel :
      (n fuel a b : ℕ) → fuel ≤ n → a ≤ fuel → digits rest bit fuel a b ≡ digits rest bit a a b
  spare_fuel n zero zero b le fits = refl
  spare_fuel n zero (suc a) b le fits = absurd (omega arith)
  spare_fuel n (suc fuel) zero b le fits = refl
  spare_fuel zero (suc fuel) (suc a) b le fits = absurd (omega arith)
  spare_fuel (suc n) (suc fuel) (suc a) b le fits =
      let half = suc a / 2 in
      omega (
        arith,
        spare_fuel n fuel half (b / 2) (omega arith) (omega arith),
        spare_fuel n a half (b / 2) (omega arith) (omega arith),
      )

  lowest_digit :
      (a b : ℕ)
      → bitwise rest bit (suc a) b
        ≡ bitwise rest bit (suc a / 2) (b / 2) * 2 + bit (suc a % 2) (b % 2)
  lowest_digit a b = omega (arith, spare_fuel a a (suc a / 2) (b / 2) (omega arith) (omega arith))

bit_or_step : (x y : ℕ) → bit_or x y ≡ bit_or (x / 2) (y / 2) * 2 + max (x % 2) (y % 2)
bit_or_step zero y = simp bit_or-bitwise (omega arith)
bit_or_step (suc x) y = simp bit_or-bitwise (lowest_digit (λ n. n) max x y)

bit_xor_step : (x y : ℕ) → bit_xor x y ≡ bit_xor (x / 2) (y / 2) * 2 + differ (x % 2) (y % 2)
bit_xor_step zero y = simp bit_xor-bitwise (omega arith)
bit_xor_step (suc x) y = simp bit_xor-bitwise (lowest_digit (λ n. n) differ x y)

-- `q << k` fills the bits above the `k` low ones.
double : (q k : ℕ) → q * 2 ^ suc k ≡ 2 * (q * 2 ^ k)
double q k = omega (arith, ap (λ (t : ℕ). q * t) (pow-suc 2 k))

bit_or-zero : (a : ℕ) → bit_or a 0 ≡ a
bit_or-zero a = WellFounded.induction lt_wf {C = λ n. bit_or n 0 ≡ n} a λ n ih. halve n ih
  where
    halve : (n : ℕ) → ((m : ℕ) → m < n → bit_or m 0 ≡ m) → bit_or n 0 ≡ n
    halve zero ih = refl
    halve (suc n) ih = omega (arith, bit_or_step (suc n) 0, ih (suc n / 2) (omega arith))

-- `(q << k) | r` is a sum if `r` fits in the `k` low bits.
pub bit_or-shift : (k q r : ℕ) → r < 2 ^ k → bit_or (q * 2 ^ k) r ≡ q * 2 ^ k + r
bit_or-shift zero q r h = ground (arith, bit_or-zero q)
bit_or-shift (suc k) q r h =
    ground
      (arith, bit_or_step (q * 2 ^ suc k) r, double q k, bit_or-shift k q (r / 2) (omega arith))

-- `|` of words that are both shifted by `k`.
bit_or-shift_both : (k x y : ℕ) → bit_or (x * 2 ^ k) (y * 2 ^ k) ≡ bit_or x y * 2 ^ k
bit_or-shift_both zero x y = simp mul-one
bit_or-shift_both (suc k) x y = omega (
  arith,
  double x k,
  double y k,
  double (bit_or x y) k,
  bit_or_step (2 * (x * 2 ^ k)) (2 * (y * 2 ^ k)),
  ap₂ bit_or (double x k) (double y k),
  ap₂ bit_or (twice (x * 2 ^ k)) (twice (y * 2 ^ k)),
  bit_or-shift_both k x y,
)
  where
    twice : (n : ℕ) → 2 * n / 2 ≡ n
    twice n = omega arith

-- A byte `r` put below the word `q` in the bits from `k` on.
pub bit_or_byte :
    (k x q r : ℕ)
    → x ≡ q * 2 ^ 8 * 2 ^ k
    → r < 2 ^ 8
    → bit_or x (r * 2 ^ k) ≡ (q * 2 ^ 8 + r) * 2 ^ k
bit_or_byte k x q r e h = rw (e, bit_or-shift_both k (q * 2 ^ 8) r, bit_or-shift 8 q r h)

-- A digit of `^` is a sum modulo 2.
differ-bits : (a b : ℕ) → differ (a % 2) (b % 2) ≡ (a + b) % 2
differ-bits a b = elim (bit_cases a) [
  | inl e ↦ rw e (omega arith)
  | inr e ↦ elim (bit_cases b) [ inl d ↦ rw (e, d) (omega arith) | inr d ↦ rw (e, d) (omega arith) ]
]
  where
    bit_cases : (n : ℕ) → (n % 2 ≡ 0) ⊎ (n % 2 ≡ 1)
    bit_cases n = ground arith

xor_step : (a b : ℕ) → bit_xor a b ≡ bit_xor (a / 2) (b / 2) * 2 + (a + b) % 2
xor_step a b = omega (arith, bit_xor_step a b, differ-bits a b)

pub zero-bit_xor : (a : ℕ) → bit_xor 0 a ≡ a
zero-bit_xor a = simp bit_xor-bitwise

xor_halves :
    (a b : ℕ) → (bit_xor a b / 2 ≡ bit_xor (a / 2) (b / 2)) × (bit_xor a b % 2 ≡ (a + b) % 2)
xor_halves a b = omega (arith, xor_step a b)

pub bit_xor_comm_below : (n a b : ℕ) → a ≤ n → b ≤ n → bit_xor a b ≡ bit_xor b a
bit_xor_comm_below zero zero zero p q = refl
bit_xor_comm_below zero (suc a) b p q = absurd (omega arith)
bit_xor_comm_below zero zero (suc b) p q = absurd (omega arith)
bit_xor_comm_below (suc n) a b p q = omega (
  arith,
  xor_step a b,
  xor_step b a,
  bit_xor_comm_below n (a / 2) (b / 2) (omega arith) (omega arith),
)

pub bit_xor_comm : (a b : ℕ) → bit_xor a b ≡ bit_xor b a
bit_xor_comm a b = bit_xor_comm_below (a + b) a b (omega arith) (omega arith)

bit_xor_assoc_below :
    (n a b c : ℕ) → a ≤ n → b ≤ n → c ≤ n → bit_xor (bit_xor a b) c ≡ bit_xor a (bit_xor b c)
bit_xor_assoc_below zero zero zero zero p q r = refl
bit_xor_assoc_below zero (suc a) b c p q r = absurd (omega arith)
bit_xor_assoc_below zero zero (suc b) c p q r = absurd (omega arith)
bit_xor_assoc_below zero zero zero (suc c) p q r = absurd (omega arith)
bit_xor_assoc_below (suc n) a b c p q r =
    rw (xor_step (bit_xor a b) c, xor_step a (bit_xor b c), (xor_halves a b).0, (xor_halves b c).0)
      (omega (
        arith,
        (xor_halves a b).1,
        (xor_halves b c).1,
        bit_xor_assoc_below n (a / 2) (b / 2) (c / 2) (omega arith) (omega arith) (omega arith),
      ))

pub bit_xor_assoc : (a b c : ℕ) → bit_xor (bit_xor a b) c ≡ bit_xor a (bit_xor b c)
bit_xor_assoc a b c =
    bit_xor_assoc_below (a + b + c) a b c (omega arith) (omega arith) (omega arith)

bit_xor_self_below : (n a : ℕ) → a ≤ n → bit_xor a a ≡ 0
bit_xor_self_below zero zero p = refl
bit_xor_self_below zero (suc a) p = absurd (omega arith)
bit_xor_self_below (suc n) a p =
    omega (arith, xor_step a a, bit_xor_self_below n (a / 2) (omega arith))

pub bit_xor_self : (a : ℕ) → bit_xor a a ≡ 0
bit_xor_self a = bit_xor_self_below a a (omega arith)

-- `^` with the same word twice changes nothing.
pub bit_xor_cancel : (a b : ℕ) → bit_xor (bit_xor a b) b ≡ a
bit_xor_cancel a b = bit_xor_assoc a b b ∙ rw (bit_xor_self b, bit_xor_comm a 0) (zero-bit_xor a)

-- `^` of words of `k` bits has `k` bits.
pub bit_xor-lt : (k a b : ℕ) → a < 2 ^ k → b < 2 ^ k → bit_xor a b < 2 ^ k
bit_xor-lt zero zero zero p q = omega arith
bit_xor-lt zero (suc a) b p q = absurd (omega arith)
bit_xor-lt zero zero (suc b) p q = absurd (omega arith)
bit_xor-lt (suc k) a b p q = omega (
  arith,
  xor_step a b,
  pow-suc 2 k,
  bit_xor-lt k (a / 2) (b / 2) (omega (arith, pow-suc 2 k)) (omega (arith, pow-suc 2 k)),
)

bit_or_above_below : (n a b : ℕ) → a ≤ n → b ≤ n → max a b ≤ bit_or a b
bit_or_above_below zero zero zero p q = omega arith
bit_or_above_below zero (suc a) b p q = absurd (omega arith)
bit_or_above_below zero zero (suc b) p q = absurd (omega arith)
bit_or_above_below (suc n) a b p q =
    omega (arith, bit_or_step a b, bit_or_above_below n (a / 2) (b / 2) (omega arith) (omega arith))

-- No bit is lost by `|`.
pub bit_or_above : (a b : ℕ) → max a b ≤ bit_or a b
bit_or_above a b = bit_or_above_below (a + b) a b (omega arith) (omega arith)

-- Words whose difference is 0 are the same.
pub eq_of_bit_xor : (a b : ℕ) → bit_xor a b ≡ 0 → a ≡ b
eq_of_bit_xor a b e = omega (arith, bit_xor_cancel a b, ap (λ x. bit_xor x b) e, zero-bit_xor b)
