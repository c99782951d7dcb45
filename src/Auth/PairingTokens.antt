-- ===== src/Auth/PairingTokens.antt =====
-- core/src/auth/PairingTokens.cpp: tokens that let one viewer pair, each once and for a limited
-- time.
pub mod Matching
pub mod Kept
pub mod Consuming
pub mod Once
use deskhub.Base.{
  ℕ, zero, suc, ◌+◌, ◌-◌, ◌*◌, Bool, true, false, ◌||◌, ◌&&◌, List, [], ◌∷◌, ◌++◌, length, ltb, leb,
  ◌==◌, if◌then◌else◌, bit_or, bit_xor,
}
use deskhub.Protocol.Wire.Identity.{pairing_token_bytes}

abbrev pub max_pairing_tokens : ℕ
max_pairing_tokens = 4

-- A time, an `int64_t`, is taken 2 ^ 63 higher, so that it is a natural number: times are only
-- compared.
pub record IssuedPairingToken : Type 0 where
  pub token : List ℕ
  pub expires_unix : ℕ

-- `tokens_`
abbrev pub PairingTokens : Type 0
PairingTokens = List IssuedPairingToken

unfoldable pub is_zero : List ℕ → Bool
is_zero [] = true
is_zero (b ∷ token) = (b == 0) && is_zero token

-- `difference |= a[i] ^ b[i]`; a token has as many bytes as what is presented.
unfoldable pub constant_time_difference : ℕ → List ℕ → List ℕ → ℕ
constant_time_difference difference [] b = difference
constant_time_difference difference (x ∷ a) [] = difference
constant_time_difference difference (x ∷ a) (y ∷ b) =
    constant_time_difference (bit_or difference (bit_xor x y)) a b

unfoldable pub expire : PairingTokens → ℕ → PairingTokens
expire [] now = []
expire (issued ∷ tokens) now =
    let rest = expire tokens now in if leb issued.expires_unix now then rest else issued ∷ rest

unfoldable pub same_token : List ℕ → List ℕ → Bool
same_token [] [] = true
same_token (x ∷ a) (y ∷ b) = (x == y) && same_token a b
same_token [] (y ∷ b) = false
same_token (x ∷ a) [] = false

unfoldable pub has_token : PairingTokens → List ℕ → Bool
unfolding same_token
has_token [] token = false
has_token (issued ∷ tokens) token = same_token issued.token token || has_token tokens token

-- The place of the first of those that expire soonest: `place` is the best so far, of the time
-- `time`, and `i` the next.
unfoldable pub soonest : (place time i : ℕ) → PairingTokens → ℕ
soonest place time i [] = place
soonest place time i (issued ∷ tokens) =
    let better = soonest i issued.expires_unix (suc i) tokens in
    let same = soonest place time (suc i) tokens in
    if ltb issued.expires_unix time then better else same

unfoldable pub erase_at : PairingTokens → ℕ → PairingTokens
erase_at [] i = []
erase_at (issued ∷ tokens) zero = tokens
erase_at (issued ∷ tokens) (suc i) = issued ∷ erase_at tokens i

-- Room for one more: of four tokens the one that expires soonest goes.
unfoldable pub make_room : PairingTokens → PairingTokens
unfolding soonest erase_at
make_room [] = []
make_room (issued ∷ tokens) =
    if leb max_pairing_tokens (length (issued ∷ tokens))
    then erase_at (issued ∷ tokens) (soonest 0 issued.expires_unix 1 tokens)
    else issued ∷ tokens

unfoldable pub issue : PairingTokens → List ℕ → (expires_unix now_unix : ℕ) → Bool × PairingTokens
unfolding expire is_zero has_token make_room
issue tokens token expires_unix now_unix =
    let left = expire tokens now_unix in
    if is_zero token || leb expires_unix now_unix
    then (false, left)
    else if has_token left token
    then (false, left)
    else (true, make_room left ++ (record { token = token; expires_unix = expires_unix } ∷ []))

-- The loop that finds the token without a branch: `matched` so far, and `i` the next place.
unfoldable pub find_match : List ℕ → (i matched : ℕ) → PairingTokens → ℕ
unfolding constant_time_difference
find_match presented i matched [] = matched
find_match presented i matched (issued ∷ tokens) =
    let same = if constant_time_difference 0 presented issued.token == 0 then 1 else 0 in
    find_match presented (suc i) (same * i + (1 - same) * matched) tokens

unfoldable pub consume : PairingTokens → List ℕ → ℕ → Bool × PairingTokens
unfolding expire find_match erase_at
consume tokens presented now_unix =
    let left = expire tokens now_unix in
    let matched = find_match presented 0 (length left) left in
    if (if length presented == pairing_token_bytes then matched == length left else true)
    then (false, left)
    else (true, erase_at left matched)

-- `Expire` answers how many went; `Clear` takes all.
unfoldable pub expire_count : PairingTokens → ℕ → ℕ × PairingTokens
unfolding expire
expire_count tokens now_unix =
    (length tokens - length (expire tokens now_unix), expire tokens now_unix)

abbrev pub clear : PairingTokens → PairingTokens
clear tokens = []
