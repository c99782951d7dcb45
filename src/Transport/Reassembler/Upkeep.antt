-- ===== src/Transport/Reassembler/Upkeep.antt =====
-- What comes in keeps the frames valid and lowers no floor.
use deskhub.Base.{
  ℕ, zero, suc, ◌+◌, ◌*◌, ◌^◌, ◌<◌, ◌≡◌, refl, List, [], ◌∷◌, arith, length, ◌∙◌, sym, subst, some,
  All, Option-cases, length-set, length-take, inl, inr, bit_or,
}
use deskhub.Base.OrderedMap.{find}
use deskhub.Protocol.Wire.Media.{num_groups}
use deskhub.Transport.Reassembler.State.{Pending}
use deskhub.Transport.Reassembler.Recovery.{
  piece, strided, group_indices, missing_of, xor_others, recovered_piece, fill_piece, solve,
  fill_missing, try_recover,
}
use deskhub.Transport.Reassembler.Valid.{FrameValid, filled_count-lt, filled_count-set}

-- A missing piece is filled in.
pub fill_piece-FrameValid :
    (f : Pending) (i : ℕ) (p : List ℕ)
    → FrameValid f
    → i < f.pkt_count
    → length (piece f.pieces i) ≡ 0
    → 0 < length p
    → FrameValid (fill_piece f i p)
unfolding fill_piece
fill_piece-FrameValid f i p v h e n =
    let room : i < length f.pieces = omega (arith, v.pieces) in
    record {
      pieces = length-set f.pieces i p ∙ v.pieces;
      pkt_count = v.pkt_count;
      received = omega (
        arith,
        v.received,
        v.pieces,
        v.pkt_count,
        filled_count-set f.pieces i p room e n,
        filled_count-lt f.pieces i room e,
      );
    }

-- The numbers of the loop are below its limit.
pub strided-lt :
    (fuel first stride limit : ℕ) → All (λ i. i < limit) (strided fuel first stride limit)
unfolding strided
strided-lt zero first stride limit = tt
strided-lt (suc fuel) first stride limit =
    ground (arith, strided-lt fuel (first + stride) stride limit)

missing_of-All :
    (pieces : List (List ℕ)) (n : ℕ) (is : List ℕ)
    → All (λ i. i < n) is
    → All (λ i. (i < n) × (length (piece pieces i) ≡ 0)) (missing_of pieces is)
unfolding missing_of
missing_of-All pieces n [] h = tt
missing_of-All pieces n (i ∷ is) h = ground (arith, missing_of-All pieces n is h.1)

recovered_piece-length : (rec p : List ℕ) → recovered_piece rec ≡ some p → 0 < length p
unfolding recovered_piece
recovered_piece-length [] p e = absurd (cc)
recovered_piece-length (r0 ∷ []) p e = absurd (cc)
recovered_piece-length (r0 ∷ r1 ∷ body) p e =
    ground (arith, length-take (bit_or (r0 * 2 ^ 8) r1) body)

-- What a recovery fills in: one missing piece, with bytes that are there.
pub record Filled (f : Pending) (group : ℕ) (par missing : List ℕ) (f' : Pending) : Type 0 where
  pub index : ℕ
  pub only : missing ≡ index ∷ []
  pub bytes : List ℕ
  pub some_bytes : 0 < length bytes
  pub solved : solve f group par index ≡ some bytes
  pub result : f' ≡ fill_piece f index bytes

solve-length :
    (f : Pending) (group : ℕ) (par : List ℕ) (i : ℕ) (p : List ℕ)
    → solve f group par i ≡ some p
    → 0 < length p
unfolding solve
solve-length f group par i p e =
    elim (Option-cases (xor_others f.pieces i (group_indices f.pkt_count group) par)) [
      | inl h ↦ absurd (cc)
      | inr (rec, h) ↦ recovered_piece-length rec p (ground arith)
    ]

fill_missing-Filled :
    (f : Pending) (group : ℕ) (par missing : List ℕ) (f' : Pending)
    → fill_missing f group par missing ≡ some f'
    → Filled f group par missing f'
unfolding fill_missing
fill_missing-Filled f group par [] f' e = absurd (cc)
fill_missing-Filled f group par (i ∷ []) f' e = elim (Option-cases (solve f group par i)) [
  | inl h ↦ absurd (ground arith)
  | inr (p, h) ↦ record {
    index = i;
    only = refl;
    bytes = p;
    some_bytes = solve-length f group par i p h;
    solved = h;
    result = ground arith;
  }
]
fill_missing-Filled f group par (i ∷ j ∷ is) f' e = absurd (cc)

pub try_recover-Filled :
    (f f' : Pending) (group : ℕ)
    → try_recover f group ≡ some f'
    → (par : List ℕ) × (find group f.parity ≡ some par)
      × Filled f group par (missing_of f.pieces (group_indices f.pkt_count group)) f'
unfolding try_recover
try_recover-Filled f f' group e = elim (Option-cases (find group f.parity)) [
  | inl h ↦ absurd (ground arith)
  | inr (par, h) ↦ (
    par,
    h,
    fill_missing-Filled f group par (missing_of f.pieces (group_indices f.pkt_count group)) f'
        (ground arith),
  )
]

-- What is filled in was missing, and its index is one of the frame's.
pub Filled-missing :
    (f f' : Pending) (group : ℕ) (par : List ℕ)
    (x : Filled f group par (missing_of f.pieces (group_indices f.pkt_count group)) f')
    → (x.index < f.pkt_count) × (length (piece f.pieces x.index) ≡ 0)
Filled-missing f f' group par x =
    let found =
      missing_of-All f.pieces f.pkt_count (group_indices f.pkt_count group)
        (strided-lt f.pkt_count group (num_groups f.pkt_count) f.pkt_count) in
    (subst (λ l. All (λ i. (i < f.pkt_count) × (length (piece f.pieces i) ≡ 0)) l) x.only found).0

-- A recovered packet keeps a frame valid.
pub try_recover-FrameValid :
    (f f' : Pending) (group : ℕ) → FrameValid f → try_recover f group ≡ some f' → FrameValid f'
try_recover-FrameValid f f' group v e =
    let (par, h, x) = try_recover-Filled f f' group e in
    let (low, empty) = Filled-missing f f' group par x in
    subst FrameValid (sym x.result)
      (fill_piece-FrameValid f x.index x.bytes v low empty x.some_bytes)
