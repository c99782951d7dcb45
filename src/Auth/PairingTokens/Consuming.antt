-- ===== src/Auth/PairingTokens/Consuming.antt =====
-- What Issue and Consume do to a valid list of tokens.
use deskhub.Base.{
  ℕ, zero, suc, ◌≡◌, ◌≢◌, refl, sym, ap, ◌∙◌, subst, Bool, true, false, ◌||◌, List, [], ◌∷◌, ◌++◌,
  arith, length, ◌==◌, leb, All-append, length-append, Bool-cases, inl, inr,
}
use deskhub.Protocol.Wire.Identity.{pairing_token_bytes}
use deskhub.Auth.PairingTokens.{
  PairingTokens, IssuedPairingToken, is_zero, expire, has_token, erase_at, make_room, issue,
  find_match, consume,
}
use deskhub.Auth.PairingTokens.Matching.{Lacks, AllSized, Found, find_match-cases}
use deskhub.Auth.PairingTokens.Kept.{
  AreDistinct, IsValid, expire-All, erase_at-All, make_room-All, expire-AreDistinct,
  erase_at-AreDistinct, make_room-AreDistinct, length-expire, length-erase_at_le, length-make_room,
  has_token-Lacks, Lacks-has_token, Found-has_token,
}

pub expire-IsValid :
    (tokens : PairingTokens) (now : ℕ) → IsValid tokens → IsValid (expire tokens now)
expire-IsValid tokens now v = record {
  few = omega (arith, v.few, length-expire tokens now);
  sized = expire-All (λ x. length x.token ≡ pairing_token_bytes) tokens now v.sized;
  no_zero = expire-All (λ x. is_zero x.token ≡ false) tokens now v.no_zero;
  distinct = expire-AreDistinct tokens now v.distinct;
}

erase_at-IsValid : (tokens : PairingTokens) (i : ℕ) → IsValid tokens → IsValid (erase_at tokens i)
erase_at-IsValid tokens i v = record {
  few = omega (arith, v.few, length-erase_at_le tokens i);
  sized = erase_at-All (λ x. length x.token ≡ pairing_token_bytes) tokens i v.sized;
  no_zero = erase_at-All (λ x. is_zero x.token ≡ false) tokens i v.no_zero;
  distinct = erase_at-AreDistinct tokens i v.distinct;
}

append-AreDistinct :
    (tokens : PairingTokens) (issued : IssuedPairingToken)
    → AreDistinct tokens
    → Lacks issued.token tokens
    → AreDistinct (tokens ++ (issued ∷ []))
append-AreDistinct [] issued h l = (tt, tt)
append-AreDistinct (x ∷ tokens) issued h l = (
  All-append (λ y. y.token ≢ x.token) tokens (issued ∷ []) h.0 (λ e. l.0 (sym e), tt),
  append-AreDistinct tokens issued h.1 l.1,
)

added-IsValid :
    (tokens : PairingTokens) (issued : IssuedPairingToken)
    → IsValid tokens
    → length issued.token ≡ pairing_token_bytes
    → is_zero issued.token ≡ false
    → Lacks issued.token tokens
    → IsValid (make_room tokens ++ (issued ∷ []))
added-IsValid tokens issued v size z l =
    let left = make_room tokens in
    record {
      few = omega (arith, length-make_room tokens v.few, length-append left (issued ∷ []));
      sized =
          All-append (λ x. length x.token ≡ pairing_token_bytes) left (issued ∷ [])
            (make_room-All (λ x. length x.token ≡ pairing_token_bytes) tokens v.sized) (size, tt);
      no_zero =
          All-append (λ x. is_zero x.token ≡ false) left (issued ∷ [])
            (make_room-All (λ x. is_zero x.token ≡ false) tokens v.no_zero) (z, tt);
      distinct =
          append-AreDistinct left issued (make_room-AreDistinct tokens v.distinct)
            (make_room-All (λ x. x.token ≢ issued.token) tokens l);
    }

-- Where at most four tokens of 32 bytes are issued, none of zeros only, no two the same, an Issue
-- of a token of 32 bytes leaves such a list, whatever it answers and whichever token goes to make
-- room.
pub issue-IsValid :
    (tokens : PairingTokens) (token : List ℕ) (expires_unix now_unix : ℕ)
    → IsValid tokens
    → length token ≡ pairing_token_bytes
    → IsValid (issue tokens token expires_unix now_unix).1
unfolding issue
issue-IsValid tokens token expires_unix now_unix v size =
    let left = expire tokens now_unix in
    let w = expire-IsValid tokens now_unix v in
    elim (Bool-cases (is_zero token || leb expires_unix now_unix)) [
      | inl e ↦ rw e w
      | inr e ↦ elim (Bool-cases (has_token left token)) [
        | inl h ↦ rw (e, h) w
        | inr h ↦
            rw (e, h)
              (added-IsValid left (record { token = token; expires_unix = expires_unix }) w size
                (ground (arith, e)) (has_token-Lacks left token h))
      ]
    ]

-- What Consume does: it answers whether the token is among those that have not expired, and takes
-- it off the list.
pub record Consumes (tokens : PairingTokens) (presented : List ℕ) (now_unix : ℕ)
    (x : Bool × PairingTokens) : Type 0 where
  pub answer : x.0 ≡ has_token (expire tokens now_unix) presented
  pub valid : IsValid x.1
  pub lacks : Lacks presented x.1

erase_at-Lacks :
    (tokens : PairingTokens) (token : List ℕ) (k : ℕ) (f : Found token tokens k)
    → AreDistinct tokens
    → Lacks token (erase_at tokens k)
unfolding erase_at
erase_at-Lacks [] token k f d = tt
erase_at-Lacks (x ∷ tokens) token zero f d =
    let same : x.token ≡ token =
      (let head : x ≡ f.issued = (let e = f.at in cc) in ap (λ y. y.token) head ∙ f.same) in
    subst (λ t. Lacks t tokens) same d.0
erase_at-Lacks (x ∷ tokens) token (suc k) f d =
    let later : Found token tokens k = record { issued = f.issued; at = f.at; same = f.same } in
    (
      λ e. absurd (
          cc (
            Found-has_token tokens token k later,
            Lacks-has_token tokens token (subst (λ t. Lacks t tokens) e d.0),
          )),
      erase_at-Lacks tokens token k later d.1,
    )

unsized-Lacks :
    (tokens : PairingTokens) (presented : List ℕ)
    → AllSized tokens
    → length presented ≢ pairing_token_bytes
    → Lacks presented tokens
unsized-Lacks [] presented s h = tt
unsized-Lacks (x ∷ tokens) presented s h =
    (λ e. h (ap length (sym e) ∙ s.0), unsized-Lacks tokens presented s.1 h)

consume_refuses :
    (tokens : PairingTokens) (presented : List ℕ) (now_unix : ℕ)
    → IsValid (expire tokens now_unix)
    → Lacks presented (expire tokens now_unix)
    → consume tokens presented now_unix ≡ (false, expire tokens now_unix)
    → Consumes tokens presented now_unix (consume tokens presented now_unix)
consume_refuses tokens presented now_unix v l e =
    subst (Consumes tokens presented now_unix) (sym e) (record {
      answer = sym (Lacks-has_token (expire tokens now_unix) presented l);
      valid = v;
      lacks = l;
    })

-- Of a valid list of tokens Consume takes the token that is presented, if it is there and has not
-- expired, and answers just whether it was: the search without a branch finds what a plain search
-- finds. Afterwards the list is valid and the token is not in it.
pub consume-Consumes :
    (tokens : PairingTokens) (presented : List ℕ) (now_unix : ℕ)
    → IsValid tokens
    → Consumes tokens presented now_unix (consume tokens presented now_unix)
consume-Consumes tokens presented now_unix v =
    let left = expire tokens now_unix in
    let w = expire-IsValid tokens now_unix v in
    elim (Bool-cases (length presented == pairing_token_bytes)) [
      | inr e ↦
          consume_refuses tokens presented now_unix w
            (unsized-Lacks left presented w.sized (λ same. ground (arith, e, same)))
            (unfold consume in rw e refl)
      | inl e ↦
          let size : length presented ≡ pairing_token_bytes = ground (arith, e) in
          elim (find_match-cases presented 0 (length left) left size w.sized) [
            | inl (at, lacks) ↦
                let none : (find_match presented 0 (length left) left == length left) ≡ true =
                  ground (arith, at) in
                consume_refuses tokens presented now_unix w lacks
                  (unfold consume in rw (e, none) refl)
            | inr (k, low, at, f) ↦
                let here : find_match presented 0 (length left) left ≡ k = omega (arith, at) in
                let found : (find_match presented 0 (length left) left == length left) ≡ false =
                  ground (arith, here, low) in
                let taken : consume tokens presented now_unix
                    ≡ (true, erase_at left (find_match presented 0 (length left) left)) =
                  unfold consume in rw (e, found) refl in
                let result : consume tokens presented now_unix ≡ (true, erase_at left k) =
                  taken ∙ ap (λ i. (true, erase_at left i)) here in
                subst (Consumes tokens presented now_unix) (sym result) (record {
                  answer = sym (Found-has_token left presented k f);
                  valid = erase_at-IsValid left k w;
                  lacks = erase_at-Lacks left presented k f w.distinct;
                })
          ]
    ]
