-- ===== src/Protocol/Wire/Names/Cutting.antt =====
-- What becomes of a name on its way: where it is cut, and which of its bytes are kept.
use deskhub.Base.{
  ℕ, zero, suc, ◌+◌, ◌-◌, ◌^◌, ◌≤◌, ◌<◌, ◌≡◌, refl, sym, ap, subst, ◌∙◌, Bool, true, false, not,
  ◌&&◌, List, [], ◌∷◌, arith, length, leb, ◌==◌, if◌then◌else◌, All, All-append, get_or, take, drop,
  take-add, drop-drop, bit_and, Bool-cases, ◌⊎◌, inl, inr, ◌≢◌,
}
use deskhub.Protocol.Wire.Names.{back_up, utf8_trunc_len, is_printable, printables}

abbrev pub IsByte : ℕ → Type 0
IsByte b = b < 2 ^ 8

-- A byte that continues a character of UTF-8, and one that does not.
abbrev pub Continues : ℕ → Type 0
Continues b = (0x80 ≤ b) × (b ≤ 0xBF)

abbrev pub StartsCharacter : ℕ → Type 0
StartsCharacter b = (b < 0x80) ⊎ (0xC0 ≤ b)

-- A text is sent up to the place `n`: all of it where it is short enough, else as much as fits and
-- does not part a character.
pub record CutsAt (limit : ℕ) (s : List ℕ) (n : ℕ) : Type 0 where
  pub small : n ≤ limit
  pub place :
      (n ≡ length s)
      ⊎ (limit < length s)
        × ((n ≡ 0) ⊎ StartsCharacter (get_or s n 0))
        × All Continues (take (limit - n) (drop (suc n) s))

-- The bytes of a text that can be shown, in order.
pub data Shown : List ℕ → List ℕ → Type 0 where
  end : Shown [] []
  keep : {c : ℕ} {s out : List ℕ} → 0x20 ≤ c → c ≢ 0x7F → Shown s out → Shown (c ∷ s) (c ∷ out)
  leave_out : {c : ℕ} {s out : List ℕ} → (c < 0x20) ⊎ (c ≡ 0x7F) → Shown s out → Shown (c ∷ s) out

pub printables-Shown : (s : List ℕ) → Shown s (printables s)
unfolding printables is_printable
printables-Shown [] = end
printables-Shown (c ∷ s) = elim (Bool-cases (leb 0x20 c && not (c == 0x7F))) [
  | inl e ↦ rw e (keep (ground (arith, e)) (λ h. ground (arith, e, h)) (printables-Shown s))
  | inr e ↦ rw e (leave_out (ground (arith, e)) (printables-Shown s))
]

-- The mask of the two high bits finds the bytes that continue a character; all the bytes are tried.
abbrev mask_agrees : ℕ → Bool
mask_agrees b =
    let masked = bit_and b 0xC0 == 0x80 in if leb 0x80 b && leb b 0xBF then masked else not masked

abbrev all_agree : ℕ → Bool
all_agree zero = true
all_agree (suc n) = mask_agrees n && all_agree n

all_agree-below : (n b : ℕ) → all_agree n ≡ true → b < n → mask_agrees b ≡ true
all_agree-below zero b h k = absurd (omega (arith, k))
all_agree-below (suc n) b h k = elim (Bool-cases (mask_agrees n)) [
  | inl e ↦ elim (Bool-cases (b == n)) [
    | inl f ↦ let same : n ≡ b = ground (arith, f) in subst (λ x. mask_agrees x ≡ true) same e
    | inr f ↦ all_agree-below n b (rw e at h) (ground (arith, f, k))
  ]
  | inr e ↦ absurd (let x = rw e at h in cc)
]

mask-Continues : (b : ℕ) → IsByte b → (bit_and b 0xC0 == 0x80) ≡ true → Continues b
mask-Continues b h e = let x = all_agree-below 256 b refl h in ground (arith, x, e)

mask-StartsCharacter : (b : ℕ) → IsByte b → (bit_and b 0xC0 == 0x80) ≡ false → StartsCharacter b
mask-StartsCharacter b h e = let x = all_agree-below 256 b refl h in ground (arith, x, e)

get_or-IsByte : (s : List ℕ) (i : ℕ) → All IsByte s → IsByte (get_or s i 0)
get_or-IsByte [] i h = omega arith
get_or-IsByte (b ∷ s) zero h = h.0
get_or-IsByte (b ∷ s) (suc i) h = get_or-IsByte s i h.1

-- The byte behind the first `n`.
take-drop_one : (n : ℕ) (s : List ℕ) → n < length s → take 1 (drop n s) ≡ get_or s n 0 ∷ []
take-drop_one n [] h = absurd (omega (arith, h))
take-drop_one zero (b ∷ s) h = refl
take-drop_one (suc n) (b ∷ s) h = take-drop_one n s (omega (arith, h))

-- One more byte behind those that continue a character.
Continues-snoc :
    (s : List ℕ) (n m : ℕ)
    → n ≤ m
    → suc m < length s
    → Continues (get_or s (suc m) 0)
    → All Continues (take (m - n) (drop (suc n) s))
    → All Continues (take (suc m - n) (drop (suc n) s))
Continues-snoc s n m h k c all =
    let place : suc n + (m - n) ≡ suc m = omega (arith, h) in
    let one : take 1 (drop (m - n) (drop (suc n) s)) ≡ get_or s (suc m) 0 ∷ [] =
      ap (take 1) (drop-drop (m - n) (suc n) s ∙ ap (λ i. drop i s) place)
      ∙ take-drop_one (suc m) s k in
    let more : m - n + 1 ≡ suc m - n = omega (arith, h) in
    subst (All Continues)
      (take-add (m - n) 1 (drop (suc n) s) ∙ ap (λ i. take i (drop (suc n) s)) more)
      (All-append Continues (take (m - n) (drop (suc n) s)) (take 1 (drop (m - n) (drop (suc n) s)))
        all (subst (All Continues) (sym one) (c, tt)))

-- Where the loop stops.
record Stops (s : List ℕ) (limit n : ℕ) : Type 0 where
  low : n ≤ limit
  start : (n ≡ 0) ⊎ StartsCharacter (get_or s n 0)
  parted : All Continues (take (limit - n) (drop (suc n) s))

here-Stops : (s : List ℕ) (n : ℕ) → (n ≡ 0) ⊎ StartsCharacter (get_or s n 0) → Stops s n n
here-Stops s n h = record {
  low = omega arith;
  start = h;
  parted =
      let none : 0 ≡ n - n = omega arith in
      subst (λ i. All Continues (take i (drop (suc n) s))) none tt;
}

back_up-Stops :
    (s : List ℕ) (limit : ℕ) → All IsByte s → limit < length s → Stops s limit (back_up s limit)
unfolding back_up
back_up-Stops s zero h k = here-Stops s 0 (inl refl)
back_up-Stops s (suc m) h k = elim (Bool-cases (bit_and (get_or s (suc m) 0) 0xC0 == 0x80)) [
  | inl e ↦
      let x = back_up-Stops s m h (omega (arith, k)) in
      let c = mask-Continues (get_or s (suc m) 0) (get_or-IsByte s (suc m) h) e in
      subst (Stops s (suc m)) (rw e refl) (record {
        low = omega (arith, x.low);
        start = x.start;
        parted = Continues-snoc s (back_up s m) m x.low k c x.parted;
      })
  | inr e ↦ subst (Stops s (suc m)) (rw e refl) (
      here-Stops s (suc m)
        (inr (mask-StartsCharacter (get_or s (suc m) 0) (get_or-IsByte s (suc m) h) e)))
]

pub utf8_trunc_len-CutsAt :
    (s : List ℕ) (limit : ℕ) → All IsByte s → CutsAt limit s (utf8_trunc_len s limit)
unfolding utf8_trunc_len
utf8_trunc_len-CutsAt s limit h = elim (Bool-cases (leb (length s) limit)) [
  | inl e ↦ rw e (record { small = ground (arith, e); place = inl refl })
  | inr e ↦
      let long : limit < length s = ground (arith, e) in
      let x = back_up-Stops s limit h long in
      rw e (record { small = x.low; place = inr (long, x.start, x.parted) })
]
