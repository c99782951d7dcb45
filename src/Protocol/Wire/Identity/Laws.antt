-- ===== src/Protocol/Wire/Identity/Laws.antt =====
-- The sign-in messages are read back, and no parser of them reads past the end of its payload.
use deskhub.Base.{
  ℕ, ◌+◌, ◌≢◌, ◌≡◌, ◌≤◌, ◌<◌, List, [], ◌∷◌, arith, length, ltb, take, Bool-cases, inl, inr, refl,
}
use deskhub.Base.Result.{fault, byte_at_of_lt, bytes_at_of_le}
use deskhub.Protocol.MsgType
use deskhub.Protocol.ByteOrder.{put_u16}
use deskhub.Protocol.ByteOrder.Laws.{get_u16_of_le, u16_of-bytes}
use deskhub.Protocol.Wire.{control_chan}
use deskhub.Protocol.Wire.Header.{Delivers, deliver, header_of}
use deskhub.Protocol.Wire.Names.{read_printable_of_le}
use deskhub.Protocol.Wire.Identity.{
  max_auth_blob_bytes, auth_version, build_auth_response, parse_auth_response, parse_auth_start,
  parse_auth_challenge, parse_auth_result, read_token,
}

take_all : (p : List ℕ) → take (length p) p ≡ p
take_all [] = refl
take_all (b ∷ p) = rw (take_all p)

-- A proof of 1 to 256 bytes arrives as it was sent, if its buffer has room for it.
pub parse_auth_response-build_auth_response :
    (out_size : ℕ) (proof : List ℕ)
    → 0 < length proof
    → length proof ≤ max_auth_blob_bytes
    → 11 + length proof ≤ out_size
    → Delivers
        (build_auth_response out_size proof)
        (header_of MsgType.auth_response 0 control_chan 0)
        (11 + length proof)
        parse_auth_response
        proof
unfolding build_auth_response
parse_auth_response-build_auth_response out_size proof some_bytes small room =
    deliver _ MsgType.auth_response 0 control_chan 0 _ (auth_version ∷ put_u16 (length proof) proof)
      _ _ (omega arith) (ground arith) (unfold put_u16 in omega arith)
      (unfold parse_auth_response put_u16 in
        ground (
          arith,
          u16_of-bytes (length proof),
          take_all proof,
          bytes_at_of_le (auth_version ∷ put_u16 (length proof) proof) 3 (length proof),
        ))

pub parse_auth_challenge-ne-fault : (p : List ℕ) → parse_auth_challenge p ≢ fault
unfolding parse_auth_challenge
parse_auth_challenge-ne-fault p = ground (arith, byte_at_of_lt p 0, byte_at_of_lt p 1)

pub parse_auth_result-ne-fault : (p : List ℕ) → parse_auth_result p ≢ fault
unfolding parse_auth_result
parse_auth_result-ne-fault p = ground (arith, byte_at_of_lt p 0, byte_at_of_lt p 1)

pub parse_auth_response-ne-fault : (p : List ℕ) → parse_auth_response p ≢ fault
unfolding parse_auth_response
parse_auth_response-ne-fault p = elim (Bool-cases (ltb (length p) 3)) [
  | inl short ↦ rw short (λ e. cc)
  | inr long ↦
      let (blob, e) = get_u16_of_le p 1 (ground arith) in
      ground (arith, e, byte_at_of_lt p 0, bytes_at_of_le p 3 blob)
]

read_token-ne-fault : (p : List ℕ) (o : ℕ) → o < length p → read_token p o ≢ fault
unfolding read_token
read_token-ne-fault p o h =
    let (n, e) = byte_at_of_lt p o h in
    ground (arith, e, byte_at_of_lt p (o + 1 + n), bytes_at_of_le p (o + 1) n)

pub parse_auth_start-ne-fault : (p : List ℕ) → parse_auth_start p ≢ fault
unfolding parse_auth_start
parse_auth_start-ne-fault p = elim (Bool-cases (ltb (length p) 6)) [
  | inl short ↦ rw short (λ e. cc)
  | inr long ↦
      let (k, ek) = get_u16_of_le p 1 (ground arith) in
      elim (Bool-cases (ltb (length p) (1 + 2 + k + 1 + 1 + 1))) [
        | inl cut ↦ ground (arith, ek, byte_at_of_lt p 0)
        | inr whole ↦
            let (n, en) = byte_at_of_lt p (3 + k) (ground arith) in
            ground (
              arith,
              ek,
              en,
              byte_at_of_lt p 0,
              bytes_at_of_le p 3 k,
              read_token-ne-fault p (3 + k + 1 + n),
              read_printable_of_le p (3 + k + 1) n,
            )
      ]
]
