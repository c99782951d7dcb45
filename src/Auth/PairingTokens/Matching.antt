-- ===== src/Auth/PairingTokens/Matching.antt =====
-- The search without a branch finds the token that is presented.
use deskhub.Base.{
  ℕ, suc, ◌+◌, ◌-◌, ◌*◌, ◌≤◌, ◌<◌, ◌≡◌, ◌≢◌, refl, sym, ap, ◌∙◌, true, false, List, [], ◌∷◌, arith,
  length, ◌==◌, bit_or, bit_xor, All, some, get_elem?, Bool-cases, ◌⊎◌, inl, inr,
}
use deskhub.Base.Bits.{bit_or_above, eq_of_bit_xor, bit_xor_self}
use deskhub.Protocol.Wire.Identity.{pairing_token_bytes}
use deskhub.Auth.PairingTokens.{
  PairingTokens, IssuedPairingToken, constant_time_difference, find_match,
}

-- A difference that was found stays.
difference-above : (d : ℕ) (a b : List ℕ) → d ≤ constant_time_difference d a b
unfolding constant_time_difference
difference-above d [] b = omega arith
difference-above d (x ∷ a) [] = omega arith
difference-above d (x ∷ a) (y ∷ b) =
    omega (arith, bit_or_above d (bit_xor x y), difference-above (bit_or d (bit_xor x y)) a b)

eq_of_difference :
    (d : ℕ) (a b : List ℕ) → length a ≡ length b → constant_time_difference d a b ≡ 0 → a ≡ b
unfolding constant_time_difference
eq_of_difference d [] [] l e = refl
eq_of_difference d [] (y ∷ b) l e = absurd (omega (arith, l))
eq_of_difference d (x ∷ a) [] l e = absurd (omega (arith, l))
eq_of_difference d (x ∷ a) (y ∷ b) l e =
    let none : bit_xor x y ≡ 0 =
      omega
        (arith, e, bit_or_above d (bit_xor x y), difference-above (bit_or d (bit_xor x y)) a b) in
    let head : x ≡ y = eq_of_bit_xor x y none in
    let tail : a ≡ b = eq_of_difference (bit_or d (bit_xor x y)) a b (omega (arith, l)) e in cc

difference_self : (a : List ℕ) → constant_time_difference 0 a a ≡ 0
unfolding constant_time_difference
difference_self [] = refl
difference_self (x ∷ a) =
    ap (λ d. constant_time_difference (bit_or 0 d) a a) (bit_xor_self x) ∙ difference_self a

-- Of tokens of 32 bytes none is the one that is presented.
abbrev pub Lacks : List ℕ → PairingTokens → Type 0
Lacks presented tokens = All (λ issued. issued.token ≢ presented) tokens

abbrev pub AllSized : PairingTokens → Type 0
AllSized tokens = All (λ issued. length issued.token ≡ pairing_token_bytes) tokens

-- The place of a token that is the one presented.
pub record Found (presented : List ℕ) (tokens : PairingTokens) (place : ℕ) : Type 0 where
  pub issued : IssuedPairingToken
  pub at : get_elem? tokens place ≡ some issued
  pub same : issued.token ≡ presented

find_match-same :
    (presented : List ℕ) (i matched : ℕ) (issued : IssuedPairingToken) (tokens : PairingTokens)
    → (constant_time_difference 0 presented issued.token == 0) ≡ true
    → find_match presented i matched (issued ∷ tokens) ≡ find_match presented (suc i) i tokens
unfolding find_match
find_match-same presented i matched issued tokens e =
    let here : 1 * i + (1 - 1) * matched ≡ i = omega arith in
    rw (e, find_match) (ap (λ m. find_match presented (suc i) m tokens) here)

find_match-other :
    (presented : List ℕ) (i matched : ℕ) (issued : IssuedPairingToken) (tokens : PairingTokens)
    → (constant_time_difference 0 presented issued.token == 0) ≡ false
    → find_match presented i matched (issued ∷ tokens) ≡ find_match presented (suc i) matched tokens
unfolding find_match
find_match-other presented i matched issued tokens e =
    let here : 0 * i + (1 - 0) * matched ≡ matched = omega arith in
    rw (e, find_match) (ap (λ m. find_match presented (suc i) m tokens) here)

-- The search answers what it had, where no token matches, or the place of one that does.
pub find_match-cases :
    (presented : List ℕ) (i matched : ℕ) (tokens : PairingTokens)
    → length presented ≡ pairing_token_bytes
    → AllSized tokens
    → ((find_match presented i matched tokens ≡ matched) × Lacks presented tokens)
      ⊎ ((k : ℕ) × (k < length tokens)
          × (find_match presented i matched tokens ≡ i + k)
          × Found presented tokens k)
find_match-cases presented i matched [] l sized = inl (unfold find_match in refl, tt)
find_match-cases presented i matched (issued ∷ tokens) l sized =
    elim (Bool-cases (constant_time_difference 0 presented issued.token == 0)) [
      | inl e ↦
          let step = find_match-same presented i matched issued tokens e in
          elim (find_match-cases presented (suc i) i tokens l sized.1) [
            | inl (none, lacks) ↦
                let same : presented ≡ issued.token =
                  eq_of_difference 0 presented issued.token (omega (arith, l, sized.0))
                    (ground arith) in
                inr (
                  0,
                  omega arith,
                  omega (arith, step, none),
                  record { issued = issued; at = refl; same = sym same },
                )
            | inr (k, low, at, f) ↦ inr (
              suc k,
              omega (arith, low),
              omega (arith, step, at),
              record { issued = f.issued; at = f.at; same = f.same },
            )
          ]
      | inr e ↦
          let step = find_match-other presented i matched issued tokens e in
          elim (find_match-cases presented (suc i) matched tokens l sized.1) [
            | inl (none, lacks) ↦
                let differs : issued.token ≢ presented = λ same. ground (
                  arith,
                  difference_self presented,
                  ap (λ t. constant_time_difference 0 presented t) same,
                ) in
                inl (step ∙ none, (differs, lacks))
            | inr (k, low, at, f) ↦ inr (
              suc k,
              omega (arith, low),
              omega (arith, step, at),
              record { issued = f.issued; at = f.at; same = f.same },
            )
          ]
    ]
