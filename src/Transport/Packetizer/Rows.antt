-- ===== src/Transport/Packetizer/Rows.antt =====
-- The parity that the packets of a group leave in its row.
use deskhub.Base.{
  ℕ, zero, suc, ◌+◌, ◌%◌, ◌≤◌, ◌<◌, ◌≡◌, refl, sym, ap, ◌∙◌, true, List, [], ◌∷◌, arith, length,
  length-set, ◌==◌, ltb, if◌then◌else◌, Bool-cases, ◌⊎◌, inl, inr,
}
use native.Mathlib.Nat.{suc-mod, mod-eq_of_lt, mod_self, mod-lt, zero-mod}
use deskhub.Protocol.Wire.Media.{num_groups}
use deskhub.Transport.Reassembler.Recovery.{piece, strided, group_indices, xor_piece}
use deskhub.Transport.Reassembler.Parity.{group_parity}
use deskhub.Transport.Reassembler.Integrity.{piece-set}
use deskhub.Transport.Packetizer.{Outgoing, chunk, add_parity}

-- The numbers from `i` on, `n` of them, that leave `g` over by `m`.
unfoldable pub residues : (n i m g : ℕ) → List ℕ
residues zero i m g = []
residues (suc n) i m g = let rest = residues n (suc i) m g in if i % m == g then i ∷ rest else rest

-- How the remainder goes on.
next-mod :
    (i m : ℕ)
    → 0 < m
    → ((suc (i % m) < m) × (suc i % m ≡ suc (i % m))) ⊎ ((suc (i % m) ≡ m) × (suc i % m ≡ 0))
next-mod i m h = elim (Bool-cases (ltb (suc (i % m)) m)) [
  | inl e ↦ let low : suc (i % m) < m = ground arith in inl (low, suc-mod i m ∙ mod-eq_of_lt low)
  | inr e ↦
      let bound = mod-lt i {m = m} h in
      let full : suc (i % m) ≡ m = ground (arith, bound) in
      inr (full, suc-mod i m ∙ ap (λ k. k % m) full ∙ mod_self m)
]

residues-here : (n i m g : ℕ) → i % m ≡ g → residues (suc n) i m g ≡ i ∷ residues n (suc i) m g
unfolding residues
residues-here n i m g e = ground (arith, e)

residues-there : (n i m g : ℕ) → (i % m ≡ g → ⊥) → residues (suc n) i m g ≡ residues n (suc i) m g
unfolding residues
residues-there n i m g e = ground (arith, e)

strided-in :
    (fuel first stride limit : ℕ)
    → first < limit
    → strided (suc fuel) first stride limit ≡ first ∷ strided fuel (first + stride) stride limit
unfolding strided
strided-in fuel first stride limit h = ground arith

strided-out : (fuel first stride limit : ℕ) → limit ≤ first → strided fuel first stride limit ≡ []
unfolding strided
strided-out zero first stride limit h = refl
strided-out (suc fuel) first stride limit h = ground arith

-- `first` is the next number from `i` on that leaves `g` over by `m`.
abbrev IsNext : (i first m g : ℕ) → Type 0
IsNext i first m g =
    ((first + i % m ≡ i + g) × (i % m ≤ g)) ⊎ ((first + i % m ≡ i + g + m) × (g < i % m))

IsNext-there :
    (i first m g : ℕ) → g < m → (i % m ≡ g → ⊥) → IsNext i first m g → IsNext (suc i) first m g
IsNext-there i first m g h ne d = elim (next-mod i m (omega (arith, h))) [
  | inl up ↦ elim d [
    | inl k ↦ inl (omega (arith, up.1, k.0), omega (arith, up.1, k.1, ne))
    | inr k ↦ inr (omega (arith, up.1, k.0), omega (arith, up.1, k.1))
  ]
  | inr wrap ↦ elim d [
    | inl k ↦ absurd (ne (omega (arith, wrap.0, h, k.1)))
    | inr k ↦ inl (omega (arith, wrap.0, wrap.1, k.0), omega (arith, wrap.1))
  ]
]

IsNext-here :
    (i first m g : ℕ)
    → g < m
    → i % m ≡ g
    → IsNext i first m g
    → (first ≡ i) × IsNext (suc i) (first + m) m g
IsNext-here i first m g h eq d =
    let here : first ≡ i = elim d [
      | inl k ↦ omega (arith, k.0, eq)
      | inr k ↦ absurd (omega (arith, k.1, eq))
    ] in
    (
      here,
      elim (next-mod i m (omega (arith, h))) [
        | inl up ↦ inr (omega (arith, up.1, here, eq), omega (arith, up.1, eq))
        | inr wrap ↦ inl (omega (arith, wrap.0, wrap.1, here, eq), omega (arith, wrap.1))
      ],
    )

-- Where `first` is the next number from `i` on that leaves `g` over, the strides find them all.
residues-strided :
    (n fuel i first m g : ℕ)
    → g < m
    → n ≤ fuel
    → IsNext i first m g
    → residues n i m g ≡ strided fuel first m (i + n)
residues-strided zero fuel i first m g h e d =
    unfold residues in
    sym (
      strided-out fuel first m (i + 0) (elim d [
        | inl k ↦ omega (arith, k.0, k.1)
        | inr k ↦ omega (arith, k.0, k.1, mod-lt i {m = m} (omega (arith, h)))
      ]))
residues-strided (suc n) zero i first m g h e d = absurd (omega (arith, e))
residues-strided (suc n) (suc fuel) i first m g h e d = elim (Bool-cases (i % m == g)) [
  | inl same ↦
      let eq : i % m ≡ g = ground arith in
      let (here, d') = IsNext-here i first m g h eq d in
      let later = residues-strided n fuel (suc i) (first + m) m g h (omega (arith, e)) d' in
      let limit : suc i + n ≡ i + suc n = omega arith in
      residues-here n i m g eq
      ∙ ap (◌∷◌ i) (later ∙ ap (strided fuel (first + m) m) limit)
      ∙ ap (λ x. x ∷ strided fuel (first + m) m (i + suc n)) (sym here)
      ∙ sym (strided-in fuel first m (i + suc n) (omega (arith, here)))
  | inr other ↦
      let ne : i % m ≡ g → ⊥ = λ eq. ground (arith, eq) in
      let limit : suc i + n ≡ i + suc n = omega arith in
      residues-there n i m g ne
      ∙ residues-strided n (suc fuel) (suc i) first m g h (omega (arith, e))
          (IsNext-there i first m g h ne d)
      ∙ ap (strided (suc fuel) first m) limit
]

-- The rows after the rounds from `i` on, `n` of them.
unfoldable pub add_rows : Outgoing → (n i : ℕ) → List (List ℕ) → List (List ℕ)
unfolding add_parity
add_rows o zero i rows = rows
add_rows o (suc n) i rows = add_rows o n (suc i) (add_parity o true i rows)

pub length-add_rows :
    (o : Outgoing) (n i : ℕ) (rows : List (List ℕ)) → length (add_rows o n i rows) ≡ length rows
unfolding add_rows
length-add_rows o zero i rows = refl
length-add_rows o (suc n) i rows =
    length-add_rows o n (suc i) (add_parity o true i rows)
    ∙ (unfold add_parity in length-set rows _ _)

module _ (o : Outgoing) (sent : List (List ℕ))
    (cut : (j : ℕ) → j < o.count → piece sent j ≡ chunk o.nal j) where
  -- A row takes in the chunks of its group, in order.
  pub piece-add_rows :
      (n i : ℕ) (rows : List (List ℕ)) (g : ℕ)
      → length rows ≡ num_groups o.count
      → g < num_groups o.count
      → i + n ≤ o.count
      → piece (add_rows o n i rows) g
        ≡ group_parity sent (residues n i (num_groups o.count) g) (piece rows g)
  unfolding add_rows group_parity residues
  piece-add_rows zero i rows g l h k = refl
  piece-add_rows (suc n) i rows g l h k =
      let m = num_groups o.count in
      let rows' = add_parity o true i rows in
      let size : length rows' ≡ num_groups o.count =
        (unfold add_parity in length-set rows _ _) ∙ l in
      let low = mod-lt i {m = m} (omega (arith, h)) in
      let now : piece rows' g
          ≡ (if g == i % m then xor_piece (piece rows (i % m)) (chunk o.nal i) else piece rows g) =
        unfold add_parity in piece-set rows (i % m) g _ (omega (arith, low, l)) in
      let later = piece-add_rows n (suc i) rows' g size h (omega (arith, k)) in
      let same = cut i (omega (arith, k)) in
      elim (Bool-cases (g == i % m)) [
        | inl e ↦
            let eq : i % m ≡ g = ground arith in
            let row : piece rows' g ≡ xor_piece (piece rows g) (piece sent i) =
              now
              ∙ ap (λ b. if b then xor_piece (piece rows (i % m)) (chunk o.nal i) else piece rows g)
                  e
              ∙ ap (λ j. xor_piece (piece rows j) (chunk o.nal i)) eq
              ∙ ap (xor_piece (piece rows g)) (sym same) in
            later
            ∙ ap (group_parity sent (residues n (suc i) m g)) row
            ∙ ap (λ x. group_parity sent x (piece rows g)) (sym (residues-here n i m g eq))
        | inr e ↦
            later
            ∙ ap (group_parity sent (residues n (suc i) m g)) (
                now
                ∙ ap
                    (λ b.
                      if b then xor_piece (piece rows (i % m)) (chunk o.nal i) else piece rows g)
                    e)
            ∙ ap (λ x. group_parity sent x (piece rows g))
                (sym (residues-there n i m g (λ eq. ground (arith, eq))))
      ]

-- The chunks of a group are those that the Reassembler takes for it.
pub residues-group_indices :
    (count g : ℕ)
    → g < num_groups count
    → residues count 0 (num_groups count) g ≡ group_indices count g
residues-group_indices count g h =
    let none_yet : 0 % num_groups count ≡ 0 = zero-mod (num_groups count) in
    residues-strided count count 0 g (num_groups count) g h (omega arith)
      (inl (omega (arith, none_yet), omega (arith, none_yet)))
    ∙ ap (strided count g (num_groups count)) (omega arith)
