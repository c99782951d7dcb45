-- ===== src/Protocol/Wire/Sources.antt =====
-- The list of shared screens and what the host offers, from core/src/protocol/Wire.cpp and Wire.h.
pub mod Laws
pub mod Reading
pub mod RoundTrip
use deskhub.Base.{
  ℕ, zero, suc, ◌+◌, Bool, true, not, ◌||◌, List, [], ◌∷◌, ◌++◌, length, ltb, leb, ◌==◌,
  if◌then◌else◌, take, bit_and, bit_or, Option, none, some,
}
use deskhub.Base.Result.{Answer, ok, reject, fault, reject_if, byte_at, bytes_at, ◌>>=◌, ◌>>◌}
use deskhub.Protocol.MsgType
use deskhub.Protocol.ByteOrder.{put_u16, get_u16}
use deskhub.Protocol.Wire.{write_common, control_chan}
use deskhub.Protocol.Wire.Names.{max_client_name_bytes, utf8_trunc_len, sent_len, is_printable}

abbrev pub max_sources : ℕ
max_sources = 8

abbrev pub max_source_name_bytes : ℕ
max_source_name_bytes = 64

pub record SourceInfo : Type 0 where
  pub source_id : ℕ
  pub width : ℕ
  pub height : ℕ
  pub name : List ℕ

pub record HostCaps : Type 0 where
  pub accepts_input : Bool
  pub terminal : Bool
  pub audio : Bool
  pub files : Bool

abbrev pub host_accepts_input : ℕ
host_accepts_input = 1

abbrev pub host_shares_terminal : ℕ
host_shares_terminal = 2

abbrev pub host_shares_audio : ℕ
host_shares_audio = 4

abbrev pub host_accepts_files : ℕ
host_accepts_files = 8

unfoldable pub host_cap_flags : HostCaps → ℕ
host_cap_flags caps =
    bit_or
      (bit_or
        (bit_or (if caps.accepts_input then host_accepts_input else 0)
          (if caps.terminal then host_shares_terminal else 0))
        (if caps.audio then host_shares_audio else 0))
      (if caps.files then host_accepts_files else 0)

unfoldable pub host_caps_of_flags : ℕ → HostCaps
host_caps_of_flags flags = record {
  accepts_input = not (bit_and flags host_accepts_input == 0);
  terminal = not (bit_and flags host_shares_terminal == 0);
  audio = not (bit_and flags host_shares_audio == 0);
  files = not (bit_and flags host_accepts_files == 0);
}

abbrev pub sent_source_len : List ℕ → ℕ
sent_source_len name = utf8_trunc_len name max_source_name_bytes

unfoldable pub put_sources : List SourceInfo → List ℕ → List ℕ
unfolding put_u16
put_sources [] rest = rest
put_sources (s ∷ sources) rest =
    s.source_id
    ∷ put_u16 s.width (
        put_u16 s.height (
          sent_source_len s.name ∷ take (sent_source_len s.name) s.name
          ++ put_sources sources rest))

-- The first eight screens are sent, and then the host's name.
unfoldable pub source_list_payload : List SourceInfo → List ℕ → List ℕ
unfolding put_sources
source_list_payload sources host_name =
    let n = if ltb (length sources) max_sources then length sources else max_sources in
    n ∷ put_sources (take n sources) (sent_len host_name ∷ take (sent_len host_name) host_name)

unfoldable pub build_source_list : ℕ → List SourceInfo → HostCaps → List ℕ → Answer (List ℕ)
unfolding write_common host_cap_flags source_list_payload
build_source_list out_size sources caps host_name = do
  header ←
      write_common out_size MsgType.source_list (host_cap_flags caps) control_chan 0
        (length (source_list_payload sources host_name))
  ok (header (source_list_payload sources host_name))

-- The screen at `off` with the offset behind it, if the payload has all of it.
unfoldable pub read_source : List ℕ → ℕ → Answer (SourceInfo × ℕ)
unfolding byte_at bytes_at get_u16
read_source p off = do
  reject_if (ltb (length p) (off + 6))
  name_len ← byte_at p (off + 5)
  reject_if (ltb (length p) (off + 6 + name_len))
  source_id ← byte_at p off
  width ← get_u16 p (off + 1)
  height ← get_u16 p (off + 3)
  name ← bytes_at p (off + 6) name_len
  ok (
    record { source_id = source_id; width = width; height = height; name = name },
    off + 6 + name_len,
  )

-- The loop stops at the first screen that is cut off.
unfoldable pub read_sources : List ℕ → ℕ → ℕ → Answer (List SourceInfo)
unfolding read_source
read_sources p zero off = ok []
read_sources p (suc n) off = elim (read_source p off) [
  | ok (s, off') ↦ do sources ← read_sources p n off'; ok (s ∷ sources)
  | reject ↦ ok []
  | fault ↦ fault
]

-- At most `room` screens; `room` is `out.size()`.
unfoldable pub parse_source_list : List ℕ → ℕ → Answer (List SourceInfo)
unfolding read_sources
parse_source_list [] room = ok []
parse_source_list (count ∷ p) room =
    read_sources (count ∷ p) (if ltb room count then room else count) 1

-- The offset behind the screens; `reject` where the payload is cut off.
unfoldable pub skip_sources : List ℕ → ℕ → ℕ → Answer ℕ
unfolding byte_at
skip_sources p zero off = ok off
skip_sources p (suc n) off = do
  reject_if (ltb (length p) (off + 6))
  name_len ← byte_at p (off + 5)
  skip_sources p n (off + (6 + name_len))

-- A byte that cannot be shown becomes a blank.
unfoldable pub blank_controls : List ℕ → List ℕ
unfolding is_printable
blank_controls [] = []
blank_controls (c ∷ name) =
    let rest = blank_controls name in if is_printable c then c ∷ rest else 0x20 ∷ rest

-- The name behind the screens.
unfoldable pub read_host_name : List ℕ → ℕ → Answer (List ℕ)
unfolding byte_at bytes_at blank_controls
read_host_name p off = do
  reject_if (leb (length p) off)
  name_len ← byte_at p off
  reject_if (ltb max_client_name_bytes name_len || ltb (length p) (off + 1 + name_len))
  name ← bytes_at p (off + 1) name_len
  ok (blank_controls name)

-- `reject` is the empty name.
unfoldable pub parse_source_list_host_name : List ℕ → Answer (List ℕ)
unfolding skip_sources read_host_name
parse_source_list_host_name [] = reject
parse_source_list_host_name (count ∷ p) =
    skip_sources (count ∷ p) count 1 >>= read_host_name (count ∷ p)
