-- ===== src/Protocol/Wire/Identity.antt =====
-- The messages of core/src/protocol/Wire.cpp by which a viewer is let in.
pub mod Laws
use deskhub.Base.{
  ℕ, ◌+◌, Bool, not, ◌||◌, ◌&&◌, List, [], ◌∷◌, ◌++◌, length, ltb, leb, ◌==◌, if◌then◌else◌, take,
}
use deskhub.Base.Result.{Answer, ok, reject_if, byte_at, bytes_at, ◌>>=◌, ◌>>◌}
use deskhub.Protocol.MsgType
use deskhub.Protocol.ByteOrder.{put_u16, get_u16}
use deskhub.Protocol.Wire.{write_common, control_chan}
use deskhub.Protocol.Wire.Names.{max_client_name_bytes, sent_len, utf8_trunc_len, read_printable}

abbrev pub auth_version : ℕ
auth_version = 8

abbrev pub max_auth_blob_bytes : ℕ
max_auth_blob_bytes = 256

abbrev pub pairing_token_bytes : ℕ
pairing_token_bytes = 32

-- The last `AuthMode`; the modes are numbered from 0 (Denied) on.
abbrev pub mode_awaiting_approval : ℕ
mode_awaiting_approval = 3

-- Two of the `AuthResultCode`s, which are numbered from 0 (Accepted) on.
abbrev pub config_error : ℕ
config_error = 6

abbrev pub awaiting_approval : ℕ
awaiting_approval = 9

unfoldable pub is_wire_auth_result_code : ℕ → Bool
is_wire_auth_result_code code = leb code config_error || (code == awaiting_approval)

pub record AuthStart : Type 0 where
  pub public_key : List ℕ
  pub client_name : List ℕ
  pub pairing_token : List ℕ

unfoldable pub auth_start_payload : AuthStart → List ℕ
unfolding put_u16
auth_start_payload m =
    0
    ∷ put_u16 (length m.public_key) (
        m.public_key
        ++ (sent_len m.client_name ∷ take (sent_len m.client_name) m.client_name
            ++ (length m.pairing_token ∷ m.pairing_token ++ (auth_version ∷ []))))

unfoldable pub build_auth_start : ℕ → AuthStart → Answer (List ℕ)
unfolding write_common auth_start_payload
build_auth_start out_size m = do
  reject_if (length m.public_key == 0 || ltb max_auth_blob_bytes (length m.public_key))
  reject_if
      (not (length m.pairing_token == 0) && not (length m.pairing_token == pairing_token_bytes))
  header ←
      write_common out_size MsgType.auth_start 0 control_chan 0
        (1 + 2 + length m.public_key + 1 + sent_len m.client_name + 1 + length m.pairing_token + 1)
  ok (header (auth_start_payload m))

-- The `AuthChallenge` is its mode.
unfoldable pub build_auth_challenge : ℕ → ℕ → Answer (List ℕ)
unfolding write_common
build_auth_challenge out_size mode = do
  reject_if (ltb mode_awaiting_approval mode)
  header ← write_common out_size MsgType.auth_challenge 0 control_chan 0 2
  ok (header (auth_version ∷ mode ∷ []))

-- The `AuthResponse` is its proof.
unfoldable pub build_auth_response : ℕ → List ℕ → Answer (List ℕ)
unfolding write_common put_u16
build_auth_response out_size proof = do
  reject_if (length proof == 0 || ltb max_auth_blob_bytes (length proof))
  header ← write_common out_size MsgType.auth_response 0 control_chan 0 (1 + 2 + length proof)
  ok (header (auth_version ∷ put_u16 (length proof) proof))

-- The `AuthResult` is its code.
unfoldable pub build_auth_result : ℕ → ℕ → Answer (List ℕ)
unfolding write_common is_wire_auth_result_code
build_auth_result out_size code = do
  reject_if (not (is_wire_auth_result_code code))
  header ← write_common out_size MsgType.auth_result 0 control_chan 0 2
  ok (header (auth_version ∷ code ∷ []))

-- `token_off` is where the length of the token stands.
unfoldable pub read_token : List ℕ → ℕ → Answer (List ℕ)
unfolding byte_at bytes_at
read_token p token_off = do
  token_len ← byte_at p token_off
  reject_if (
      not (token_len == 0) && not (token_len == pairing_token_bytes)
      || not (length p == token_off + 1 + token_len + 1))
  version ← byte_at p (token_off + 1 + token_len)
  reject_if (not (version == auth_version))
  bytes_at p (token_off + 1) token_len

unfoldable pub parse_auth_start : List ℕ → Answer AuthStart
unfolding byte_at bytes_at get_u16 read_printable read_token
parse_auth_start p = do
  reject_if (ltb (length p) 6)
  first ← byte_at p 0
  reject_if (not (first == 0))
  key_len ← get_u16 p 1
  reject_if (
      (key_len == 0)
      || ltb max_auth_blob_bytes key_len
      || ltb (length p) (1 + 2 + key_len + 1 + 1 + 1))
  public_key ← bytes_at p 3 key_len
  name_len ← byte_at p (3 + key_len)
  reject_if
      (ltb max_client_name_bytes name_len || ltb (length p) (3 + key_len + 1 + name_len + 1 + 1))
  pairing_token ← read_token p (3 + key_len + 1 + name_len)
  client_name ← read_printable p (3 + key_len + 1) name_len
  ok (record { public_key = public_key; client_name = client_name; pairing_token = pairing_token })

unfoldable pub parse_auth_challenge : List ℕ → Answer ℕ
unfolding byte_at
parse_auth_challenge p = do
  reject_if (not (length p == 2))
  version ← byte_at p 0
  reject_if (not (version == auth_version))
  mode ← byte_at p 1
  reject_if (ltb mode_awaiting_approval mode)
  ok mode

unfoldable pub parse_auth_response : List ℕ → Answer (List ℕ)
unfolding byte_at bytes_at get_u16
parse_auth_response p = do
  reject_if (ltb (length p) 3)
  version ← byte_at p 0
  reject_if (not (version == auth_version))
  blob ← get_u16 p 1
  reject_if ((blob == 0) || ltb max_auth_blob_bytes blob || not (length p == 3 + blob))
  bytes_at p 3 blob

unfoldable pub parse_auth_result : List ℕ → Answer ℕ
unfolding byte_at is_wire_auth_result_code
parse_auth_result p = do
  reject_if (not (length p == 2))
  version ← byte_at p 0
  reject_if (not (version == auth_version))
  code ← byte_at p 1
  reject_if (not (is_wire_auth_result_code code))
  ok code
