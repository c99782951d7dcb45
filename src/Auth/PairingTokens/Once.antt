-- ===== src/Auth/PairingTokens/Once.antt =====
-- A token is consumed once.
use deskhub.Base.{
  ℕ, ◌≡◌, ◌≢◌, ◌∙◌, true, false, ◌||◌, List, [], ◌∷◌, arith, length, ◌==◌, leb, if◌then◌else◌, All,
  All-append, Bool-cases, inl, inr,
}
use deskhub.Protocol.Wire.Identity.{pairing_token_bytes}
use deskhub.Auth.PairingTokens.{
  PairingTokens, is_zero, expire, has_token, make_room, issue, find_match, consume, clear,
}
use deskhub.Auth.PairingTokens.Matching.{Lacks}
use deskhub.Auth.PairingTokens.Kept.{
  IsValid, expire-All, erase_at-All, make_room-All, Lacks-has_token,
}
use deskhub.Auth.PairingTokens.Consuming.{expire-IsValid, issue-IsValid, consume-Consumes}

-- A call of the list of tokens; the time is an argument of it.
pub data Call : Type 0 where
  issue_call : List ℕ → ℕ → ℕ → Call
  consume_call : List ℕ → ℕ → Call
  expire_call : ℕ → Call
  clear_call : Call

unfoldable pub run : PairingTokens → List Call → PairingTokens
unfolding issue consume expire
run tokens [] = tokens
run tokens (issue_call token expires_unix now_unix ∷ calls) =
    run (issue tokens token expires_unix now_unix).1 calls
run tokens (consume_call presented now_unix ∷ calls) =
    run (consume tokens presented now_unix).1 calls
run tokens (expire_call now_unix ∷ calls) = run (expire tokens now_unix) calls
run tokens (clear_call ∷ calls) = run (clear tokens) calls

-- The call does not issue the token, and what it issues has 32 bytes.
abbrev pub IssuesOther : List ℕ → Call → Type 0
IssuesOther token (issue_call other expires_unix now_unix) =
    (other ≢ token) × (length other ≡ pairing_token_bytes)
IssuesOther token (consume_call presented now_unix) = Unit
IssuesOther token (expire_call now_unix) = Unit
IssuesOther token clear_call = Unit

issue-Lacks :
    (tokens : PairingTokens) (token other : List ℕ) (expires_unix now_unix : ℕ)
    → other ≢ token
    → Lacks token tokens
    → Lacks token (issue tokens other expires_unix now_unix).1
unfolding issue
issue-Lacks tokens token other expires_unix now_unix ne l =
    let left = expire tokens now_unix in
    let w = expire-All (λ x. x.token ≢ token) tokens now_unix l in
    elim (Bool-cases (is_zero other || leb expires_unix now_unix)) [
      | inl e ↦ rw e w
      | inr e ↦ elim (Bool-cases (has_token left other)) [
        | inl h ↦ rw (e, h) w
        | inr h ↦
            rw (e, h)
              (All-append (λ x. x.token ≢ token) (make_room left)
                (record { token = other; expires_unix = expires_unix } ∷ [])
                (make_room-All (λ x. x.token ≢ token) left w) (ne, tt))
      ]
    ]

consume-Lacks :
    (tokens : PairingTokens) (token presented : List ℕ) (now_unix : ℕ)
    → Lacks token tokens
    → Lacks token (consume tokens presented now_unix).1
unfolding consume
consume-Lacks tokens token presented now_unix l =
    let left = expire tokens now_unix in
    let w = expire-All (λ x. x.token ≢ token) tokens now_unix l in
    let matched = find_match presented 0 (length left) left in
    elim (Bool-cases
      (if length presented == pairing_token_bytes then matched == length left else true)) [
        | inl e ↦ rw e w
        | inr e ↦ rw e (erase_at-All (λ x. x.token ≢ token) left matched w)
      ]

run-Lacks :
    (token : List ℕ) (calls : List Call) (tokens : PairingTokens)
    → All (IssuesOther token) calls
    → IsValid tokens
    → Lacks token tokens
    → IsValid (run tokens calls) × Lacks token (run tokens calls)
unfolding run
run-Lacks token [] tokens h v l = (v, l)
run-Lacks token (issue_call other expires_unix now_unix ∷ calls) tokens h v l =
    run-Lacks token calls (issue tokens other expires_unix now_unix).1 h.1
      (issue-IsValid tokens other expires_unix now_unix v h.0.1)
      (issue-Lacks tokens token other expires_unix now_unix h.0.0 l)
run-Lacks token (consume_call presented now_unix ∷ calls) tokens h v l =
    run-Lacks token calls (consume tokens presented now_unix).1 h.1
      (consume-Consumes tokens presented now_unix v).valid
      (consume-Lacks tokens token presented now_unix l)
run-Lacks token (expire_call now_unix ∷ calls) tokens h v l =
    run-Lacks token calls (expire tokens now_unix) h.1 (expire-IsValid tokens now_unix v)
      (expire-All (λ x. x.token ≢ token) tokens now_unix l)
run-Lacks token (clear_call ∷ calls) tokens h v l =
    run-Lacks token calls [] h.1
      (record { few = omega arith; sized = tt; no_zero = tt; distinct = tt }) tt

-- After a Consume of a valid list of tokens, whatever calls come that do not issue the presented
-- token again, with tokens of 32 bytes, a second Consume of it is refused at any time.
pub consume-twice :
    (tokens : PairingTokens) (token : List ℕ) (now_unix later_unix : ℕ) (calls : List Call)
    → IsValid tokens
    → All (IssuesOther token) calls
    → (consume (run (consume tokens token now_unix).1 calls) token later_unix).0 ≡ false
consume-twice tokens token now_unix later_unix calls v h =
    let c = consume-Consumes tokens token now_unix v in
    let left = run (consume tokens token now_unix).1 calls in
    let (w, lacks) = run-Lacks token calls (consume tokens token now_unix).1 h c.valid c.lacks in
    (consume-Consumes left token later_unix w).answer
    ∙ Lacks-has_token (expire left later_unix) token
        (expire-All (λ x. x.token ≢ token) left later_unix lacks)
