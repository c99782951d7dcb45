-- ===== src/Auth/PairingTokens/Kept.antt =====
-- What the operations on the list of tokens keep.
use deskhub.Base.{
  ℕ, zero, suc, ◌+◌, ◌≤◌, ◌<◌, ◌≡◌, ◌≢◌, refl, ap, subst, true, false, List, [], ◌∷◌, arith, length,
  leb, All, get_elem?, some, Bool-cases, inl, inr,
}
use deskhub.Auth.PairingTokens.{
  PairingTokens, IssuedPairingToken, max_pairing_tokens, is_zero, expire, same_token, has_token,
  soonest, erase_at, make_room,
}
use deskhub.Auth.PairingTokens.Matching.{Lacks, AllSized, Found}

-- No two tokens are the same.
abbrev pub AreDistinct : PairingTokens → Type 0
AreDistinct [] = Unit
AreDistinct (issued ∷ tokens) = Lacks issued.token tokens × AreDistinct tokens

-- At most four tokens of 32 bytes, none of zeros only, no two the same.
pub record IsValid (tokens : PairingTokens) : Type 0 where
  pub few : length tokens ≤ max_pairing_tokens
  pub sized : AllSized tokens
  pub no_zero : All (λ issued. is_zero issued.token ≡ false) tokens
  pub distinct : AreDistinct tokens

pub expire-All :
    (P : IssuedPairingToken → Type 0) (tokens : PairingTokens) (now : ℕ)
    → All P tokens
    → All P (expire tokens now)
unfolding expire
expire-All P [] now h = tt
expire-All P (issued ∷ tokens) now h = ground (arith, expire-All P tokens now h.1)

pub erase_at-All :
    (P : IssuedPairingToken → Type 0) (tokens : PairingTokens) (i : ℕ)
    → All P tokens
    → All P (erase_at tokens i)
unfolding erase_at
erase_at-All P [] i h = tt
erase_at-All P (issued ∷ tokens) zero h = h.1
erase_at-All P (issued ∷ tokens) (suc i) h = (h.0, erase_at-All P tokens i h.1)

pub make_room-All :
    (P : IssuedPairingToken → Type 0) (tokens : PairingTokens)
    → All P tokens
    → All P (make_room tokens)
unfolding make_room
make_room-All P [] h = tt
make_room-All P (issued ∷ tokens) h =
    elim (Bool-cases (leb max_pairing_tokens (length (issued ∷ tokens)))) [
      | inl e ↦ rw e (erase_at-All P (issued ∷ tokens) (soonest 0 issued.expires_unix 1 tokens) h)
      | inr e ↦ rw e h
    ]

pub expire-AreDistinct :
    (tokens : PairingTokens) (now : ℕ) → AreDistinct tokens → AreDistinct (expire tokens now)
unfolding expire
expire-AreDistinct [] now h = tt
expire-AreDistinct (issued ∷ tokens) now h = elim (Bool-cases (leb issued.expires_unix now)) [
  | inl e ↦ rw e (expire-AreDistinct tokens now h.1)
  | inr e ↦
      rw e
        (expire-All (λ x. x.token ≢ issued.token) tokens now h.0, expire-AreDistinct tokens now h.1)
]

pub erase_at-AreDistinct :
    (tokens : PairingTokens) (i : ℕ) → AreDistinct tokens → AreDistinct (erase_at tokens i)
unfolding erase_at
erase_at-AreDistinct [] i h = tt
erase_at-AreDistinct (issued ∷ tokens) zero h = h.1
erase_at-AreDistinct (issued ∷ tokens) (suc i) h =
    (erase_at-All (λ x. x.token ≢ issued.token) tokens i h.0, erase_at-AreDistinct tokens i h.1)

pub make_room-AreDistinct :
    (tokens : PairingTokens) → AreDistinct tokens → AreDistinct (make_room tokens)
unfolding make_room
make_room-AreDistinct [] h = tt
make_room-AreDistinct (issued ∷ tokens) h =
    elim (Bool-cases (leb max_pairing_tokens (length (issued ∷ tokens)))) [
      | inl e ↦
          rw e (erase_at-AreDistinct (issued ∷ tokens) (soonest 0 issued.expires_unix 1 tokens) h)
      | inr e ↦ rw e h
    ]

pub length-expire : (tokens : PairingTokens) (now : ℕ) → length (expire tokens now) ≤ length tokens
unfolding expire
length-expire [] now = omega arith
length-expire (issued ∷ tokens) now = ground (arith, length-expire tokens now)

pub length-erase_at_le :
    (tokens : PairingTokens) (i : ℕ) → length (erase_at tokens i) ≤ length tokens
unfolding erase_at
length-erase_at_le [] i = omega arith
length-erase_at_le (issued ∷ tokens) zero = omega arith
length-erase_at_le (issued ∷ tokens) (suc i) = omega (arith, length-erase_at_le tokens i)

length-erase_at :
    (tokens : PairingTokens) (i : ℕ)
    → i < length tokens
    → length (erase_at tokens i) + 1 ≡ length tokens
unfolding erase_at
length-erase_at [] i h = elim h [ ]
length-erase_at (issued ∷ tokens) zero h = omega arith
length-erase_at (issued ∷ tokens) (suc i) h =
    omega (arith, length-erase_at tokens i (omega (arith, h)))

-- The place that is found is one of the list's.
soonest-lt :
    (place time i : ℕ) (tokens : PairingTokens)
    → place < i
    → soonest place time i tokens < i + length tokens
unfolding soonest
soonest-lt place time i [] h = omega (arith, h)
soonest-lt place time i (issued ∷ tokens) h = ground (
  arith,
  soonest-lt i issued.expires_unix (suc i) tokens (omega arith),
  soonest-lt place time (suc i) tokens (omega (arith, h)),
)

-- There is room for one more.
pub length-make_room :
    (tokens : PairingTokens)
    → length tokens ≤ max_pairing_tokens
    → length (make_room tokens) < max_pairing_tokens
unfolding make_room
length-make_room [] h = omega arith
length-make_room (issued ∷ tokens) h =
    elim (Bool-cases (leb max_pairing_tokens (length (issued ∷ tokens)))) [
      | inl e ↦
          let low = soonest-lt 0 issued.expires_unix 1 tokens (omega arith) in
          rw e (
            omega (
              arith,
              h,
              length-erase_at (issued ∷ tokens) (soonest 0 issued.expires_unix 1 tokens)
                  (omega (arith, low)),
            ))
      | inr e ↦ rw e (ground (arith, e))
    ]

same_token_self : (a : List ℕ) → same_token a a ≡ true
unfolding same_token
same_token_self [] = refl
same_token_self (x ∷ a) = ground (arith, same_token_self a)

eq_of_same_token : (a b : List ℕ) → same_token a b ≡ true → a ≡ b
unfolding same_token
eq_of_same_token [] [] e = refl
eq_of_same_token [] (y ∷ b) e = absurd (cc)
eq_of_same_token (x ∷ a) [] e = absurd (cc)
eq_of_same_token (x ∷ a) (y ∷ b) e =
    let head : x ≡ y = ground (arith, e) in
    let tail : a ≡ b = eq_of_same_token a b (ground (arith, e)) in cc

pub has_token-Lacks :
    (tokens : PairingTokens) (token : List ℕ) → has_token tokens token ≡ false → Lacks token tokens
unfolding has_token
has_token-Lacks [] token e = tt
has_token-Lacks (issued ∷ tokens) token e = (
  λ same. ground (arith, e, same_token_self token, ap (λ t. same_token t token) same),
  has_token-Lacks tokens token (ground (arith, e)),
)

pub Lacks-has_token :
    (tokens : PairingTokens) (token : List ℕ) → Lacks token tokens → has_token tokens token ≡ false
unfolding has_token
Lacks-has_token [] token h = refl
Lacks-has_token (issued ∷ tokens) token h = elim (Bool-cases (same_token issued.token token)) [
  | inl e ↦ absurd (h.0 (eq_of_same_token issued.token token e))
  | inr e ↦ ground (arith, e, Lacks-has_token tokens token h.1)
]

pub Found-has_token :
    (tokens : PairingTokens) (token : List ℕ) (k : ℕ)
    → Found token tokens k
    → has_token tokens token ≡ true
Found-has_token tokens token k f = elim (Bool-cases (has_token tokens token)) [
  | inl e ↦ e
  | inr e ↦ absurd (lacks_at tokens k f.issued (has_token-Lacks tokens token e) f.at f.same)
]
  where
    lacks_at :
        (tokens : PairingTokens) (k : ℕ) (issued : IssuedPairingToken)
        → Lacks token tokens
        → get_elem? tokens k ≡ some issued
        → issued.token ≢ token
    lacks_at [] k issued h e = absurd (cc)
    lacks_at (x ∷ tokens) zero issued h e =
        let same : x ≡ issued = cc in subst (λ y. y.token ≢ token) same h.0
    lacks_at (x ∷ tokens) (suc k) issued h e = lacks_at tokens k issued h.1 e
