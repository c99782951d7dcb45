-- ===== src/Transport/Reassembler/Recovery.antt =====
-- Reassembler.cpp: `TryRecover`, which makes the one missing packet of a group from its parity.
use deskhub.Base.{
  ℕ, zero, suc, ◌+◌, ◌*◌, ◌/◌, ◌%◌, ◌^◌, ◌||◌, List, [], ◌∷◌, length, ltb, leb, ◌==◌, if◌then◌else◌,
  bit_or, bit_xor, get_or, set, take, Option, none, some,
}
use deskhub.Base.Words.{add64, to_u16}
use deskhub.Base.OrderedMap.{find}
use deskhub.Protocol.Wire.Media.{fec_len_prefix, max_video_payload, num_groups}
use deskhub.Transport.Reassembler.State.{Pending}

-- `for (i = first; i < limit; i += stride)`: the numbers it takes. With a stride above 0, `limit`
-- rounds are enough.
unfoldable pub strided : ℕ → ℕ → ℕ → ℕ → List ℕ
strided zero first stride limit = []
strided (suc fuel) first stride limit =
    let rest = strided fuel (first + stride) stride limit in
    if ltb first limit then first ∷ rest else []

abbrev pub group_indices : ℕ → ℕ → List ℕ
group_indices pkt_count group = strided pkt_count group (num_groups pkt_count) pkt_count

-- `pieces[i]`; the indices are below `pktCount`, which is the number of pieces.
abbrev pub piece : List (List ℕ) → ℕ → List ℕ
piece pieces i = get_or pieces i []

unfoldable pub missing_of : List (List ℕ) → List ℕ → List ℕ
missing_of pieces [] = []
missing_of pieces (i ∷ is) =
    let rest = missing_of pieces is in if length (piece pieces i) == 0 then i ∷ rest else rest

-- `rec[b] ^= p[b]`; what is past the end of the piece stays.
unfoldable pub xor_bytes : List ℕ → List ℕ → List ℕ
xor_bytes [] p = []
xor_bytes (r ∷ rec) [] = r ∷ rec
xor_bytes (r ∷ rec) (b ∷ p) = bit_xor r b ∷ xor_bytes rec p

-- A piece with its length before it, taken off the parity.
unfoldable pub xor_piece : List ℕ → List ℕ → List ℕ
unfolding xor_bytes
xor_piece rec p = xor_bytes rec (length p / 2 ^ 8 % 2 ^ 8 ∷ length p % 2 ^ 8 ∷ p)

-- `none` where a piece does not fit into the parity.
unfoldable pub xor_other : List (List ℕ) → ℕ → ℕ → List ℕ → Option (List ℕ)
unfolding xor_piece
xor_other pieces missing_idx i rec =
    if i == missing_idx
    then some rec
    else if ltb (length rec) (fec_len_prefix + length (piece pieces i))
    then none
    else some (xor_piece rec (piece pieces i))

unfoldable pub xor_others : List (List ℕ) → ℕ → List ℕ → List ℕ → Option (List ℕ)
unfolding xor_other
xor_others pieces missing_idx [] rec = some rec
xor_others pieces missing_idx (i ∷ is) rec = elim (xor_other pieces missing_idx i rec) [
  | none ↦ none
  | some rec' ↦ xor_others pieces missing_idx is rec'
]

-- The length and the bytes that `rec` holds. `PushFec` keeps no parity shorter than the length.
unfoldable pub recovered_piece : List ℕ → Option (List ℕ)
recovered_piece [] = none
recovered_piece (r0 ∷ []) = none
recovered_piece (r0 ∷ r1 ∷ body) =
    let len = bit_or (r0 * 2 ^ 8) r1 in
    if len == 0 || ltb max_video_payload len || ltb (length (r0 ∷ r1 ∷ body)) (fec_len_prefix + len)
    then none
    else some (take len body)

unfoldable pub fill_piece : Pending → ℕ → List ℕ → Pending
fill_piece f i p = record f {
  pieces = set f.pieces i p;
  bytes = add64 f.bytes (length p);
  received = to_u16 (suc f.received);
}

-- The parity less the pieces that are there is the piece that is not.
unfoldable pub solve : Pending → ℕ → List ℕ → ℕ → Option (List ℕ)
unfolding xor_others recovered_piece
solve f group par missing_idx =
    elim (xor_others f.pieces missing_idx (group_indices f.pkt_count group) par) [
      | none ↦ none
      | some rec ↦ recovered_piece rec
    ]

-- A group is made whole if one packet of it is missing, no more and no less.
unfoldable pub fill_missing : Pending → ℕ → List ℕ → List ℕ → Option Pending
unfolding solve fill_piece
fill_missing f group par (missing_idx ∷ []) = elim (solve f group par missing_idx) [
  | none ↦ none
  | some p ↦ some (fill_piece f missing_idx p)
]
fill_missing f group par [] = none
fill_missing f group par (i ∷ j ∷ is) = none

-- `none` is the answer false, which changes nothing.
unfoldable pub try_recover : Pending → ℕ → Option Pending
unfolding missing_of fill_missing
try_recover f group = elim (find group f.parity) [
  | none ↦ none
  | some par ↦
      if num_groups f.pkt_count == 0 || leb (num_groups f.pkt_count) group
      then none
      else fill_missing f group par (missing_of f.pieces (group_indices f.pkt_count group))
]
