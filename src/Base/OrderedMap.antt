-- ===== src/Base/OrderedMap.antt =====
-- `std::map` with numbers for keys: a list of entries, by ascending key.
use deskhub.Base.{
  ℕ, ◌+◌, ◌≤◌, ◌<◌, ◌≡◌, refl, List, [], ◌∷◌, Option, none, some, arith, length, ltb, ◌==◌,
  if◌then◌else◌, ◌⊎◌, inl, inr,
}

abbrev pub OrderedMap {ℓ} : Type ℓ → Type ℓ
OrderedMap V = List (ℕ × V)

module _ {ℓ} {V : Type ℓ} where
  unfoldable pub find : ℕ → OrderedMap V → Option V
  find k [] = none
  find k ((j, v) ∷ m) = if j == k then some v else find k m

  -- `m[k] = v`: the entry of `k` is made or replaced.
  unfoldable pub put : ℕ → V → OrderedMap V → OrderedMap V
  put k v [] = (k, v) ∷ []
  put k v ((j, w) ∷ m) =
      if j == k then (k, v) ∷ m else if ltb k j then (k, v) ∷ (j, w) ∷ m else (j, w) ∷ put k v m

  unfoldable pub erase : ℕ → OrderedMap V → OrderedMap V
  erase k [] = []
  erase k ((j, w) ∷ m) = if j == k then m else (j, w) ∷ erase k m

  pub erase-head : (k : ℕ) (v : V) (m : OrderedMap V) → erase k ((k, v) ∷ m) ≡ m
  unfolding erase
  erase-head k v m = ground arith

  -- Every key is above `n`, and the keys ascend.
  abbrev pub Above : ℕ → OrderedMap V → Type 0
  Above n [] = Unit {0}
  Above n ((j, w) ∷ m) = (n < j) × Above j m

  abbrev pub IsSorted : OrderedMap V → Type 0
  IsSorted [] = Unit {0}
  IsSorted ((j, w) ∷ m) = Above j m

  abbrev pub Each {κ} : (ℕ → V → Type κ) → OrderedMap V → Type κ
  Each P [] = Unit
  Each P ((j, w) ∷ m) = P j w × Each P m

  pub Above-IsSorted : (n : ℕ) (m : OrderedMap V) → Above n m → IsSorted m
  Above-IsSorted n [] h = tt
  Above-IsSorted n ((j, w) ∷ m) h = h.1

  pub find-put :
      (k j : ℕ) (v : V) (m : OrderedMap V)
      → find j (put k v m) ≡ (if k == j then some v else find j m)
  unfolding find put
  find-put k j v [] = refl
  find-put k j v ((i, w) ∷ m) = ground (arith, find-put k j v m)

  Above-mono : (a b : ℕ) (m : OrderedMap V) → a ≤ b → Above b m → Above a m
  Above-mono a b [] h s = tt
  Above-mono a b ((j, w) ∷ m) h s = (omega arith, s.1)

  pub put-Above : (n k : ℕ) (v : V) (m : OrderedMap V) → n < k → Above n m → Above n (put k v m)
  unfolding put
  put-Above n k v [] h s = (h, tt)
  put-Above n k v ((j, w) ∷ m) h s = ground (arith, put-Above j k v m)

  pub put-IsSorted : (k : ℕ) (v : V) (m : OrderedMap V) → IsSorted m → IsSorted (put k v m)
  unfolding put
  put-IsSorted k v [] s = tt
  put-IsSorted k v ((j, w) ∷ m) s = ground (arith, put-Above j k v m)

  pub erase-Above : (n k : ℕ) (m : OrderedMap V) → Above n m → Above n (erase k m)
  unfolding erase
  erase-Above n k [] s = tt
  erase-Above n k ((j, w) ∷ m) s = ground (arith, erase-Above j k m s.1, Above-mono n j m)

  pub find_of_Above : (n k : ℕ) (m : OrderedMap V) → Above n m → k ≤ n → find k m ≡ none
  unfolding find
  find_of_Above n k [] s h = refl
  find_of_Above n k ((j, w) ∷ m) s h = ground (arith, find_of_Above j k m s.1)

  -- In a sorted map the entry of a key goes for good.
  pub find-erase :
      (n k j : ℕ) (m : OrderedMap V)
      → Above n m
      → find j (erase k m) ≡ (if k == j then none else find j m)
  unfolding find erase
  find-erase n k j [] s = ground arith
  find-erase n k j ((i, w) ∷ m) s = ground (arith, find-erase i k j m s.1, find_of_Above i j m s.1)

  pub length-put-le : (k : ℕ) (v : V) (m : OrderedMap V) → length (put k v m) ≤ length m + 1
  unfolding put
  length-put-le k v [] = omega arith
  length-put-le k v ((j, w) ∷ m) = ground (arith, length-put-le k v m)

  pub length-erase-le : (k : ℕ) (m : OrderedMap V) → length (erase k m) ≤ length m
  unfolding erase
  length-erase-le k [] = omega arith
  length-erase-le k ((j, w) ∷ m) = ground (arith, length-erase-le k m)

  pub length-put_of_find :
      (k : ℕ) (v w : V) (m : OrderedMap V) (n : ℕ)
      → Above n m
      → find k m ≡ some w
      → length (put k v m) ≡ length m
  unfolding put find
  length-put_of_find k v w [] n s e = cc
  length-put_of_find k v w ((j, u) ∷ m) n s e =
      ground (arith, find_of_Above j k m s.1, length-put_of_find k v w m j s.1)

  pub put-Each {κ} :
      (P : ℕ → V → Type κ) (k : ℕ) (v : V) (m : OrderedMap V)
      → P k v
      → Each P m
      → Each P (put k v m)
  unfolding put
  put-Each P k v [] p e = (p, tt)
  put-Each P k v ((j, w) ∷ m) p e = ground (arith, put-Each P k v m p e.1)

  pub find-Each {κ} :
      (P : ℕ → V → Type κ) (k : ℕ) (v : V) (m : OrderedMap V) → Each P m → find k m ≡ some v → P k v
  unfolding find
  find-Each P k v [] e h = absurd (cc)
  find-Each P k v ((j, w) ∷ m) e h = ground (arith, find-Each P k v m e.1)

  -- To split on a computed map and keep the equation.
  pub OrderedMap-cases :
      (m : OrderedMap V) → (m ≡ []) ⊎ ((k : ℕ) × (v : V) × (r : OrderedMap V) × (m ≡ (k, v) ∷ r))
  OrderedMap-cases [] = inl refl
  OrderedMap-cases ((k, v) ∷ r) = inr (k, v, r, refl)

  -- What is found behind the first entry of a sorted map is not the first entry.
  pub find-tail :
      (k j : ℕ) (v w : V) (r : OrderedMap V)
      → Above j r
      → find k r ≡ some v
      → find k ((j, w) ∷ r) ≡ some v
  unfolding find
  find-tail k j v w r s e = ground (arith, find_of_Above j k r s)

  pub length-put_of_IsSorted :
      (k : ℕ) (v w : V) (m : OrderedMap V)
      → IsSorted m
      → find k m ≡ some w
      → length (put k v m) ≡ length m
  unfolding put find
  length-put_of_IsSorted k v w [] s e = cc
  length-put_of_IsSorted k v w ((j, u) ∷ m) s e =
      ground (arith, find_of_Above j k m s, length-put_of_find k v w m j s)

  pub find-put_self : (k : ℕ) (v : V) (m : OrderedMap V) → find k (put k v m) ≡ some v
  find-put_self k v m = ground (arith, find-put k k v m)

  Each-find-tail :
      (j : ℕ) (w : V) (r m : OrderedMap V)
      → Above j r
      → Each (λ i v. find i r ≡ some v) m
      → Each (λ i v. find i ((j, w) ∷ r) ≡ some v) m
  Each-find-tail j w r [] s e = tt
  Each-find-tail j w r ((i, v) ∷ m) s e = (find-tail i j v w r s e.0, Each-find-tail j w r m s e.1)

  -- Every entry of a sorted map is found.
  pub IsSorted-find : (m : OrderedMap V) → IsSorted m → Each (λ i v. find i m ≡ some v) m
  unfolding find
  IsSorted-find [] s = tt
  IsSorted-find ((j, w) ∷ m) s =
      (ground arith, Each-find-tail j w m m s (IsSorted-find m (Above-IsSorted j m s)))

  pub erase-Each {κ} :
      (P : ℕ → V → Type κ) (k : ℕ) (m : OrderedMap V) → Each P m → Each P (erase k m)
  unfolding erase
  erase-Each P k [] e = tt
  erase-Each P k ((j, w) ∷ m) e = ground (arith, erase-Each P k m e.1)
