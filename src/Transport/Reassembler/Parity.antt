-- ===== src/Transport/Reassembler/Parity.antt =====
-- A packet that is lost is the parity of its group less the packets that are there.
use deskhub.Base.{
  ℕ, zero, suc, ◌+◌, ◌*◌, ◌/◌, ◌%◌, ◌^◌, ◌≤◌, ◌<◌, ◌≡◌, refl, sym, ap, ◌∙◌, true, false, List, [],
  ◌∷◌, arith, length, ◌==◌, if◌then◌else◌, set, take, replicate, length-replicate, some, All,
  Bool-cases, inl, inr,
}
use deskhub.Base.Bits.{bit_xor_comm, bit_xor_assoc, bit_xor_cancel, zero-bit_xor, bit_or-shift}
use deskhub.Protocol.Wire.Media.{fec_len_prefix, max_video_payload}
use deskhub.Transport.Reassembler.State.{Pending}
use deskhub.Transport.Reassembler.Recovery.{
  piece, xor_bytes, xor_piece, xor_other, xor_others, recovered_piece, solve, group_indices,
}

-- The parity of the pieces at `is`: each is taken in with its length, on top of `acc`.
unfoldable pub group_parity : List (List ℕ) → List ℕ → List ℕ → List ℕ
unfolding xor_piece
group_parity pieces [] acc = acc
group_parity pieces (i ∷ is) acc = group_parity pieces is (xor_piece acc (piece pieces i))

length-xor_bytes : (r p : List ℕ) → length (xor_bytes r p) ≡ length r
unfolding xor_bytes
length-xor_bytes [] p = refl
length-xor_bytes (a ∷ r) [] = refl
length-xor_bytes (a ∷ r) (b ∷ p) = ap suc (length-xor_bytes r p)

xor_bytes-swap : (r p q : List ℕ) → xor_bytes (xor_bytes r p) q ≡ xor_bytes (xor_bytes r q) p
unfolding xor_bytes
xor_bytes-swap [] p q = refl
xor_bytes-swap (a ∷ r) [] [] = refl
xor_bytes-swap (a ∷ r) [] (c ∷ q) = refl
xor_bytes-swap (a ∷ r) (b ∷ p) [] = refl
xor_bytes-swap (a ∷ r) (b ∷ p) (c ∷ q) =
    rw (xor_bytes-swap r p q, bit_xor_assoc a b c, bit_xor_comm b c, sym (bit_xor_assoc a c b))

xor_bytes-cancel : (r p : List ℕ) → xor_bytes (xor_bytes r p) p ≡ r
unfolding xor_bytes
xor_bytes-cancel [] p = refl
xor_bytes-cancel (a ∷ r) [] = refl
xor_bytes-cancel (a ∷ r) (b ∷ p) = rw (xor_bytes-cancel r p, bit_xor_cancel a b)

-- A piece is taken out of a parity wherever it went in.
group_parity-out :
    (pieces : List (List ℕ)) (is acc p : List ℕ)
    → xor_piece (group_parity pieces is (xor_piece acc p)) p ≡ group_parity pieces is acc
unfolding group_parity xor_piece
group_parity-out pieces [] acc p = xor_bytes-cancel acc _
group_parity-out pieces (i ∷ is) acc p =
    rw
      (xor_bytes-swap acc (length p / 2 ^ 8 % 2 ^ 8 ∷ length p % 2 ^ 8 ∷ p) (
        length (piece pieces i) / 2 ^ 8 % 2 ^ 8 ∷ length (piece pieces i) % 2 ^ 8 ∷ piece pieces i))
      (group_parity-out pieces is (xor_piece acc (piece pieces i)) p)

pub length-group_parity :
    (pieces : List (List ℕ)) (is acc : List ℕ) → length (group_parity pieces is acc) ≡ length acc
unfolding group_parity xor_piece
length-group_parity pieces [] acc = refl
length-group_parity pieces (i ∷ is) acc =
    length-group_parity pieces is (xor_piece acc (piece pieces i)) ∙ length-xor_bytes acc _

-- Those of the indices that are `i`.
unfoldable pub only : ℕ → List ℕ → List ℕ
only i [] = []
only i (j ∷ is) = let rest = only i is in if j == i then j ∷ rest else rest

pub get_or-set_ne :
    (xs : List (List ℕ)) (i j : ℕ) (v : List ℕ)
    → (j == i) ≡ false
    → piece (set xs i v) j ≡ piece xs j
get_or-set_ne [] i j v h = refl
get_or-set_ne (x ∷ xs) zero zero v h = absurd (ground arith)
get_or-set_ne (x ∷ xs) zero (suc j) v h = refl
get_or-set_ne (x ∷ xs) (suc i) zero v h = refl
get_or-set_ne (x ∷ xs) (suc i) (suc j) v h = get_or-set_ne xs i j v (ground arith)

-- A piece that is there leaves the parity.
xor_other-out :
    (pieces : List (List ℕ)) (i j : ℕ) (is acc : List ℕ)
    → (j == i) ≡ false
    → fec_len_prefix + length (piece pieces j) ≤ length acc
    → xor_other (set pieces i []) i j (group_parity pieces is (xor_piece acc (piece pieces j)))
      ≡ some (group_parity pieces is acc)
unfolding xor_other
xor_other-out pieces i j is acc e h =
    let long : length (group_parity pieces is (xor_piece acc (piece pieces j))) ≡ length acc =
      length-group_parity pieces is (xor_piece acc (piece pieces j))
      ∙ (unfold xor_piece in length-xor_bytes acc _) in
    rw (e, get_or-set_ne pieces i j [] e, long, group_parity-out pieces is acc (piece pieces j))
      (ground arith)

xor_other-skip :
    (pieces : List (List ℕ)) (i j : ℕ) (rec : List ℕ)
    → (j == i) ≡ true
    → xor_other pieces i j rec ≡ some rec
unfolding xor_other
xor_other-skip pieces i j rec e = rw e

pub xor_others-step :
    (pieces : List (List ℕ)) (i j : ℕ) (is rec rec' : List ℕ)
    → xor_other pieces i j rec ≡ some rec'
    → xor_others pieces i (j ∷ is) rec ≡ xor_others pieces i is rec'
unfolding xor_others
xor_others-step pieces i j is rec rec' e = rw (e, xor_others)

pub only-here : (i j : ℕ) (is : List ℕ) → (j == i) ≡ true → only i (j ∷ is) ≡ j ∷ only i is
unfolding only
only-here i j is e = rw e

pub only-there : (i j : ℕ) (is : List ℕ) → (j == i) ≡ false → only i (j ∷ is) ≡ only i is
unfolding only
only-there i j is e = rw e

-- What the pieces that are there leave of the parity.
xor_others-parity :
    (pieces : List (List ℕ)) (i n : ℕ) (is acc : List ℕ)
    → length acc ≡ n
    → All (λ j. fec_len_prefix + length (piece pieces j) ≤ n) is
    → xor_others (set pieces i []) i is (group_parity pieces is acc)
      ≡ some (group_parity pieces (only i is) acc)
unfolding xor_others only group_parity
xor_others-parity pieces i n [] acc l h = refl
xor_others-parity pieces i n (j ∷ is) acc l h = elim (Bool-cases (j == i)) [
  | inl e ↦
      let rec = group_parity pieces is (xor_piece acc (piece pieces j)) in
      xor_others-step (set pieces i []) i j is rec rec (xor_other-skip (set pieces i []) i j rec e)
      ∙ xor_others-parity pieces i n is (xor_piece acc (piece pieces j))
          ((unfold xor_piece in length-xor_bytes acc _) ∙ l) h.1
      ∙ ap (λ x. some (group_parity pieces x acc)) (sym (only-here i j is e))
  | inr e ↦
      xor_others-step (set pieces i []) i j is
        (group_parity pieces is (xor_piece acc (piece pieces j))) (group_parity pieces is acc)
        (xor_other-out pieces i j is acc e (omega (arith, l, h.0)))
      ∙ xor_others-parity pieces i n is acc l h.1
      ∙ ap (λ x. some (group_parity pieces x acc)) (sym (only-there i j is e))
]

-- A piece in front of nothing but zeros is itself.
xor_bytes-zeros :
    (n : ℕ) (p : List ℕ) → length p ≤ n → take (length p) (xor_bytes (replicate n 0) p) ≡ p
unfolding xor_bytes
xor_bytes-zeros n [] h = refl
xor_bytes-zeros zero (b ∷ p) h = absurd (omega arith)
xor_bytes-zeros (suc n) (b ∷ p) h = rw (zero-bit_xor b, xor_bytes-zeros n p (omega arith))

recovered_piece-zeros :
    (n : ℕ) (p : List ℕ)
    → 0 < length p
    → length p ≤ max_video_payload
    → length p ≤ n
    → recovered_piece (xor_piece (replicate (suc (suc n)) 0) p) ≡ some p
unfolding recovered_piece xor_piece xor_bytes
recovered_piece-zeros n p some_bytes small room =
    let whole : length p / 2 ^ 8 % 2 ^ 8 * 2 ^ 8 + length p % 2 ^ 8 ≡ length p =
      omega (arith, small) in
    rw
      (
        zero-bit_xor (length p / 2 ^ 8 % 2 ^ 8),
        zero-bit_xor (length p % 2 ^ 8),
        bit_or-shift 8 (length p / 2 ^ 8 % 2 ^ 8) (length p % 2 ^ 8) (omega arith),
        whole,
        length-xor_bytes (replicate n 0) p,
        length-replicate {A = ℕ} n 0,
        xor_bytes-zeros n p room,
      )
      (ground arith)

-- The parity of a group, as long as its two length bytes and `n` more, gives back the one packet
-- `i` of the group that is lost, if each packet of the group has `n` bytes at most and the lost one
-- is neither empty nor longer than a packet may be: the bytes are exactly those that were sent.
pub solve-group_parity :
    (f : Pending) (group i n : ℕ) (sent : List (List ℕ))
    → f.pieces ≡ set sent i []
    → only i (group_indices f.pkt_count group) ≡ i ∷ []
    → All
        (λ j. fec_len_prefix + length (piece sent j) ≤ suc (suc n))
        (group_indices f.pkt_count group)
    → 0 < length (piece sent i)
    → length (piece sent i) ≤ max_video_payload
    → length (piece sent i) ≤ n
    → solve f group
        (group_parity sent (group_indices f.pkt_count group) (replicate (suc (suc n)) 0))
        i
      ≡ some (piece sent i)
unfolding solve group_parity
solve-group_parity f group i n sent lost once fit some_bytes small room =
    let is = group_indices f.pkt_count group in
    let zeros = replicate (suc (suc n)) 0 in
    let left : xor_others f.pieces i is (group_parity sent is zeros)
        ≡ some (xor_piece zeros (piece sent i)) =
      ap (λ x. xor_others x i is (group_parity sent is zeros)) lost
      ∙ xor_others-parity sent i (suc (suc n)) is zeros (length-replicate {A = ℕ} (suc (suc n)) 0)
          fit
      ∙ ap (λ x. some (group_parity sent x zeros)) once in
    rw (left, solve) (recovered_piece-zeros n (piece sent i) some_bytes small room)
