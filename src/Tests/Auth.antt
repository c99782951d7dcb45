-- ===== src/Tests/Auth.antt =====
-- Pairing tokens at concrete inputs.
use deskhub.Base.{ℕ, ◌≡◌, ◌≢◌, refl, false, List, [], ◌∷◌, arith, replicate}
use deskhub.Auth.PairingTokens.{issue, consume}
use deskhub.Auth.PairingTokens.Kept.{IsValid}
use deskhub.Auth.PairingTokens.Consuming.{issue-IsValid, Consumes, consume-Consumes}
use deskhub.Auth.PairingTokens.Once.{issue_call, run, consume-twice}

abbrev first_token : List ℕ
first_token = 7 ∷ replicate 31 1

abbrev second_token : List ℕ
second_token = 8 ∷ replicate 31 1

no_tokens-IsValid : IsValid []
no_tokens-IsValid = record { few = omega arith; sized = tt; no_zero = tt; distinct = tt }

one_token-IsValid : IsValid (issue [] first_token 1300 1000).1
one_token-IsValid = issue-IsValid [] first_token 1300 1000 no_tokens-IsValid refl

issue-IsValid_example : IsValid (issue [] first_token 1300 1000).1
issue-IsValid_example = issue-IsValid [] first_token 1300 1000 no_tokens-IsValid refl

consume-Consumes_example :
    let tokens = (issue [] first_token 1300 1000).1 in
    Consumes tokens first_token 1100 (consume tokens first_token 1100)
consume-Consumes_example =
    consume-Consumes (issue [] first_token 1300 1000).1 first_token 1100 one_token-IsValid

other_token : second_token ≢ first_token
other_token e = cc

consume-twice_example :
    let tokens = (issue [] first_token 1300 1000).1 in
    (consume
      (run (consume tokens first_token 1100).1 (issue_call second_token 1400 1150 ∷ []))
      first_token
      1200).0
    ≡ false
consume-twice_example =
    consume-twice (issue [] first_token 1300 1000).1 first_token 1100 1200
      (issue_call second_token 1400 1150 ∷ []) one_token-IsValid ((other_token, refl), tt)
