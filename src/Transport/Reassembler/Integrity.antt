-- ===== src/Transport/Reassembler/Integrity.antt =====
-- A pending frame against the pieces that its sender cut it into.
use deskhub.Base.{
  ℕ, zero, suc, ◌+◌, ◌≤◌, ◌<◌, ◌≡◌, refl, sym, ap, ◌∙◌, subst, true, false, List, [], ◌∷◌, arith,
  length, length-set, ◌==◌, set, replicate, All, some, none, Bool-cases, Option-cases, ◌⊎◌, inl,
  inr, if◌then◌else◌,
}
use deskhub.Base.OrderedMap.{Each, find-Each}
use deskhub.Protocol.Wire.Media.{fec_len_prefix, max_video_payload}
use deskhub.Transport.Reassembler.State.{Pending}
use deskhub.Transport.Reassembler.Recovery.{
  piece, xor_other, xor_others, missing_of, solve, fill_piece, group_indices, try_recover,
}
use deskhub.Transport.Reassembler.Upkeep.{Filled-missing, try_recover-Filled}
use deskhub.Transport.Reassembler.Parity.{
  group_parity, only, only-here, get_or-set_ne, solve-group_parity, xor_others-step,
}

-- `parity_.assign(..., 0)`: the parity of a group before any packet.
unfoldable pub no_parity : List ℕ
no_parity = replicate (suc (suc max_video_payload)) 0

-- A piece is neither empty nor longer than a packet may carry.
abbrev pub PieceFits : List ℕ → Type 0
PieceFits p = (0 < length p) × (length p ≤ max_video_payload)

-- The frame holds nothing but what was sent: its pieces are missing or the sent ones, and its
-- parities are those of the sent pieces.
pub record Agrees (sent : List (List ℕ)) (f : Pending) : Type 0 where
  pub count : f.pkt_count ≡ length sent
  pub size : length f.pieces ≡ length sent
  pub pieces : (i : ℕ) → (length (piece f.pieces i) ≡ 0) ⊎ (piece f.pieces i ≡ piece sent i)
  pub parity :
      Each (λ g par. par ≡ group_parity sent (group_indices (length sent) g) no_parity) f.parity

piece-All :
    (sent : List (List ℕ)) (i : ℕ) → All PieceFits sent → i < length sent → PieceFits (piece sent i)
piece-All [] i h l = elim l [ ]
piece-All (p ∷ sent) zero h l = h.0
piece-All (p ∷ sent) (suc i) h l = piece-All sent i h.1 (omega arith)

piece-fits :
    (sent : List (List ℕ)) (i : ℕ) → All PieceFits sent → length (piece sent i) ≤ max_video_payload
piece-fits [] i h = omega arith
piece-fits (p ∷ sent) zero h = h.0.1
piece-fits (p ∷ sent) (suc i) h = piece-fits sent i h.1

-- Among the indices of a group the one that is missing stands once.
only-missing :
    (pieces : List (List ℕ)) (i : ℕ) (is : List ℕ)
    → length (piece pieces i) ≡ 0
    → only i is ≡ only i (missing_of pieces is)
unfolding only missing_of
only-missing pieces i [] e = refl
only-missing pieces i (j ∷ is) e = elim (Bool-cases (j == i)) [
  | inl h ↦
      let same : j ≡ i = ground arith in
      let gone : length (piece pieces j) ≡ 0 = ap (λ k. length (piece pieces k)) same ∙ e in
      ground (arith, only-missing pieces i is e)
  | inr h ↦ ground (arith, only-missing pieces i is e)
]

-- An index is missing or there.
others_there :
    (pieces : List (List ℕ)) (i : ℕ) (is : List ℕ)
    → All (λ j. (j == i) ≡ true) (missing_of pieces is)
    → All (λ j. (0 < length (piece pieces j)) ⊎ ((j == i) ≡ true)) is
unfolding missing_of
others_there pieces i [] h = tt
others_there pieces i (j ∷ is) h = elim (Bool-cases (length (piece pieces j) == 0)) [
  | inl e ↦
      let h' =
        subst
          (λ x.
            All (λ j. (j == i) ≡ true)
              (if x then j ∷ missing_of pieces is else missing_of pieces is))
          e h in
      (inr h'.0, others_there pieces i is h'.1)
  | inr e ↦
      let h' =
        subst
          (λ x.
            All (λ j. (j == i) ≡ true)
              (if x then j ∷ missing_of pieces is else missing_of pieces is))
          e h in
      (inl (ground arith), others_there pieces i is h')
]

xor_other-cong :
    (a b : List (List ℕ)) (i j : ℕ) (rec : List ℕ)
    → (piece a j ≡ piece b j) ⊎ ((j == i) ≡ true)
    → xor_other a i j rec ≡ xor_other b i j rec
unfolding xor_other
xor_other-cong a b i j rec (inl e) = rw e refl
xor_other-cong a b i j rec (inr e) = rw e refl

xor_others-none :
    (pieces : List (List ℕ)) (i j : ℕ) (is rec : List ℕ)
    → xor_other pieces i j rec ≡ none
    → xor_others pieces i (j ∷ is) rec ≡ none
unfolding xor_others
xor_others-none pieces i j is rec e = rw (e, xor_others)

-- The parity is solved from the pieces of the group alone.
xor_others-cong :
    (a b : List (List ℕ)) (i : ℕ) (is rec : List ℕ)
    → All (λ j. (piece a j ≡ piece b j) ⊎ ((j == i) ≡ true)) is
    → xor_others a i is rec ≡ xor_others b i is rec
unfolding xor_others
xor_others-cong a b i [] rec h = refl
xor_others-cong a b i (j ∷ is) rec h =
    let same = xor_other-cong a b i j rec h.0 in
    elim (Option-cases (xor_other b i j rec)) [
      | inl e ↦ xor_others-none a i j is rec (same ∙ e) ∙ sym (xor_others-none b i j is rec e)
      | inr (rec', e) ↦
          xor_others-step a i j is rec rec' (same ∙ e)
          ∙ xor_others-cong a b i is rec' h.1
          ∙ sym (xor_others-step b i j is rec rec' e)
    ]

-- A piece that is there is the one that was sent, also where `i` is taken out.
there-set :
    (pieces sent : List (List ℕ)) (i : ℕ) (is : List ℕ)
    → ((j : ℕ) → (length (piece pieces j) ≡ 0) ⊎ (piece pieces j ≡ piece sent j))
    → All (λ j. (0 < length (piece pieces j)) ⊎ ((j == i) ≡ true)) is
    → All (λ j. (piece pieces j ≡ piece (set sent i []) j) ⊎ ((j == i) ≡ true)) is
there-set pieces sent i [] a h = tt
there-set pieces sent i (j ∷ is) a h =
    (pick (a j) h.0 (Bool-cases (j == i)), there-set pieces sent i is a h.1)
  where
    pick :
        (length (piece pieces j) ≡ 0) ⊎ (piece pieces j ≡ piece sent j)
        → (0 < length (piece pieces j)) ⊎ ((j == i) ≡ true)
        → ((j == i) ≡ true) ⊎ ((j == i) ≡ false)
        → (piece pieces j ≡ piece (set sent i []) j) ⊎ ((j == i) ≡ true)
    pick x y (inl e) = inr e
    pick (inl gone) (inl there) (inr e) = absurd (omega (arith, gone, there))
    pick (inr same) y (inr e) = inl (same ∙ sym (get_or-set_ne sent i j [] e))
    pick x (inr e) (inr e') = inr e

group_fits :
    (sent : List (List ℕ)) (is : List ℕ)
    → All PieceFits sent
    → All (λ j. fec_len_prefix + length (piece sent j) ≤ suc (suc max_video_payload)) is
group_fits sent [] h = tt
group_fits sent (j ∷ is) h = (omega (arith, piece-fits sent j h), group_fits sent is h)

solve-cong :
    (f : Pending) (b : List (List ℕ)) (group i : ℕ) (par : List ℕ)
    → xor_others f.pieces i (group_indices f.pkt_count group) par
      ≡ xor_others b i (group_indices f.pkt_count group) par
    → solve f group par i ≡ solve (record f { pieces = b }) group par i
unfolding solve
solve-cong f b group i par e = rw (e, solve) refl

-- A packet that is made from a parity is the packet that was sent.
solve-sent :
    (f : Pending) (sent : List (List ℕ)) (group i : ℕ)
    → All PieceFits sent
    → Agrees sent f
    → i < length sent
    → missing_of f.pieces (group_indices f.pkt_count group) ≡ i ∷ []
    → length (piece f.pieces i) ≡ 0
    → solve f group (group_parity sent (group_indices f.pkt_count group) no_parity) i
      ≡ some (piece sent i)
unfolding no_parity
solve-sent f sent group i fit a low alone gone =
    let is = group_indices f.pkt_count group in
    let self : (i == i) ≡ true = ground arith in
    let once : only i is ≡ i ∷ [] =
      only-missing f.pieces i is gone
      ∙ ap (only i) alone
      ∙ (unfold only in only-here i i [] self) in
    let there =
      others_there f.pieces i is (subst (All (λ j. (j == i) ≡ true)) (sym alone) (self, tt)) in
    let p = piece-All sent i fit low in
    solve-cong f (set sent i []) group i (group_parity sent is no_parity) (
      xor_others-cong f.pieces (set sent i []) i is (group_parity sent is no_parity)
        (there-set f.pieces sent i is a.pieces there))
    ∙ solve-group_parity (record f { pieces = set sent i [] }) group i max_video_payload sent refl
        once (group_fits sent is fit) p.0 p.1 p.1

-- Where a piece is put in, the others stay.
pub piece-set :
    (pieces : List (List ℕ)) (i j : ℕ) (p : List ℕ)
    → i < length pieces
    → piece (set pieces i p) j ≡ (if j == i then p else piece pieces j)
piece-set [] i j p h = elim h [ ]
piece-set (q ∷ pieces) zero zero p h = ground arith
piece-set (q ∷ pieces) zero (suc j) p h = ground arith
piece-set (q ∷ pieces) (suc i) zero p h = ground arith
piece-set (q ∷ pieces) (suc i) (suc j) p h = ground (arith, piece-set pieces i j p (omega arith))

-- A sent piece that is put in keeps the frame in agreement.
pub fill_piece-Agrees :
    (sent : List (List ℕ)) (f : Pending) (i : ℕ)
    → Agrees sent f
    → i < length sent
    → Agrees sent (fill_piece f i (piece sent i))
unfolding fill_piece
fill_piece-Agrees sent f i a low = record {
  count = a.count;
  size = length-set f.pieces i (piece sent i) ∙ a.size;
  pieces = λ j. elim (Bool-cases (j == i)) [
    | inl e ↦
        inr (piece-set f.pieces i j (piece sent i) (omega (arith, low, a.size)) ∙ ground arith)
    | inr e ↦ elim (a.pieces j) [
      | inl gone ↦ inl (
          ap length (piece-set f.pieces i j (piece sent i) (omega (arith, low, a.size)))
          ∙ ground arith)
      | inr same ↦
          inr (piece-set f.pieces i j (piece sent i) (omega (arith, low, a.size)) ∙ ground arith)
    ]
  ];
  parity = a.parity;
}

-- A packet that is recovered keeps the frame in agreement.
pub try_recover-Agrees :
    (sent : List (List ℕ)) (f f' : Pending) (group : ℕ)
    → All PieceFits sent
    → Agrees sent f
    → try_recover f group ≡ some f'
    → Agrees sent f'
try_recover-Agrees sent f f' group fit a e =
    let (par, h, x) = try_recover-Filled f f' group e in
    let (low, gone) = Filled-missing f f' group par x in
    let of_sent : par ≡ group_parity sent (group_indices (length sent) group) no_parity =
      find-Each (λ g par. par ≡ group_parity sent (group_indices (length sent) g) no_parity) group
        par f.parity a.parity h in
    let same : x.bytes ≡ piece sent x.index = cc (
      x.solved,
      of_sent,
      a.count,
      solve-sent f sent group x.index fit a (omega (arith, low, a.count)) x.only gone,
    ) in
    subst (Agrees sent) (sym (x.result ∙ ap (fill_piece f x.index) same))
      (fill_piece-Agrees sent f x.index a (omega (arith, low, a.count)))
