-- ===== src/Media/PcmRing/Places.antt =====
-- The places of the ring that are read and written.
use deskhub.Base.{
  ℕ, zero, suc, ◌+◌, ◌-◌, ◌%◌, ◌≤◌, ◌<◌, ◌≡◌, ◌≢◌, refl, sym, ap, ◌∙◌, List, [], ◌∷◌, ◌++◌, arith,
  length, ltb, get_or, set, take, drop, length-set, Bool-cases, inl, inr,
}
use native.Mathlib.Nat.{
  suc-mod, mod-eq_of_lt, mod-lt, mod-add-mod, mod-eq-sub-mod, mod-mod, add-mod_right,
}
use deskhub.Media.PcmRing.{take_loop, write_loop}

-- `count` samples from a place on, around the end of the ring.
unfoldable pub reads : List ℕ → (count place : ℕ) → List ℕ
reads ring zero place = []
reads ring (suc count) place = get_or ring (place % length ring) 0 ∷ reads ring count (suc place)

pub reads-mod :
    (ring : List ℕ) (count a b : ℕ)
    → a % length ring ≡ b % length ring
    → reads ring count a ≡ reads ring count b
unfolding reads
reads-mod ring zero a b e = refl
reads-mod ring (suc count) a b e =
    let next : suc a % length ring ≡ suc b % length ring =
      suc-mod a (length ring) ∙ ap (λ k. suc k % length ring) e ∙ sym (suc-mod b (length ring)) in
    let later = reads-mod ring count (suc a) (suc b) next in
    ap (λ k. get_or ring k 0 ∷ reads ring count (suc a)) e
    ∙ ap (◌∷◌ (get_or ring (b % length ring) 0)) later

pub length-reads : (ring : List ℕ) (count place : ℕ) → length (reads ring count place) ≡ count
unfolding reads
length-reads ring zero place = refl
length-reads ring (suc count) place = ap suc (length-reads ring count (suc place))

pub take-reads :
    (ring : List ℕ) (n count place : ℕ)
    → n ≤ count
    → take n (reads ring count place) ≡ reads ring n place
unfolding reads
take-reads ring zero count place h = refl
take-reads ring (suc n) zero place h = absurd (omega (arith, h))
take-reads ring (suc n) (suc count) place h =
    ap (◌∷◌ (get_or ring (place % length ring) 0))
      (take-reads ring n count (suc place) (omega (arith, h)))

pub drop-reads :
    (ring : List ℕ) (n count place : ℕ)
    → n ≤ count
    → drop n (reads ring count place) ≡ reads ring (count - n) (place + n)
unfolding reads
drop-reads ring zero count place h =
    let same : count ≡ count - 0 = omega arith in
    let same' : place ≡ place + 0 = omega arith in
    ap (λ k. reads ring k place) same ∙ ap (reads ring (count - 0)) same'
drop-reads ring (suc n) zero place h = absurd (omega (arith, h))
drop-reads ring (suc n) (suc count) place h =
    let same : count - n ≡ suc count - suc n = omega arith in
    let same' : suc place + n ≡ place + suc n = omega arith in
    drop-reads ring n count (suc place) (omega (arith, h))
    ∙ ap (λ k. reads ring k (suc place + n)) same
    ∙ ap (reads ring (suc count - suc n)) same'

append-reads :
    (ring : List ℕ) (a b place : ℕ)
    → reads ring a place ++ reads ring b (place + a) ≡ reads ring (a + b) place
unfolding reads
append-reads ring zero b place =
    let same : b ≡ zero + b = omega arith in
    let same' : place + 0 ≡ place = omega arith in
    ap (reads ring b) same' ∙ ap (λ k. reads ring k place) same
append-reads ring (suc a) b place =
    let same : suc (a + b) ≡ suc a + b = omega arith in
    let same' : place + suc a ≡ suc place + a = omega arith in
    ap (λ p. get_or ring (place % length ring) 0 ∷ (reads ring a (suc place) ++ reads ring b p))
      same'
    ∙ ap (◌∷◌ (get_or ring (place % length ring) 0)) (append-reads ring a b (suc place))
    ∙ (unfold reads in ap (λ k. reads ring k place) same)

-- The loop of Take reads the oldest samples.
pub take_loop-reads :
    (ring : List ℕ) (rounds read_at : ℕ)
    → read_at < length ring
    → take_loop ring rounds read_at ≡ (reads ring rounds read_at, (read_at + rounds) % length ring)
unfolding take_loop reads
take_loop-reads ring zero read_at h =
    let same : read_at + 0 ≡ read_at = omega arith in
    ap (λ k. ([], k)) (sym (ap (λ k. k % length ring) same ∙ mod-eq_of_lt h))
take_loop-reads ring (suc rounds) read_at h =
    let n = length ring in
    let next : (read_at + 1) % n < n = mod-lt (read_at + 1) {m = n} (omega (arith, h)) in
    let later = take_loop-reads ring rounds ((read_at + 1) % n) next in
    let one : read_at + 1 ≡ suc read_at = omega arith in
    let end : ((read_at + 1) % n + rounds) % n ≡ (read_at + suc rounds) % n =
      (let same : read_at + 1 + rounds ≡ read_at + suc rounds = omega arith in
        mod-add-mod (read_at + 1) n rounds ∙ ap (λ k. k % n) same) in
    let samples : reads ring rounds ((read_at + 1) % n) ≡ reads ring rounds (suc read_at) =
      reads-mod ring rounds ((read_at + 1) % n) (suc read_at)
        (mod-mod (read_at + 1) n ∙ ap (λ k. k % n) one) in
    ap (λ x. (get_or ring read_at 0 ∷ x.0, x.1)) later
    ∙ ap (λ k. (get_or ring read_at 0 ∷ reads ring rounds ((read_at + 1) % n), k)) end
    ∙ ap (λ xs. (get_or ring read_at 0 ∷ xs, (read_at + suc rounds) % n)) samples
    ∙ ap (λ k. (get_or ring k 0 ∷ reads ring rounds (suc read_at), (read_at + suc rounds) % n))
        (sym (mod-eq_of_lt h))

-- Another place of the ring, less than once around, is another sample.
mod_shift-ne : (w d n : ℕ) → 0 < d → d < n → (w + d) % n ≢ w % n
mod_shift-ne w d n h lt e =
    let r = w % n in
    let low : r < n = mod-lt w {m = n} (omega (arith, lt)) in
    let same : (r + d) % n ≡ r = mod-add-mod w n d ∙ e in
    elim (Bool-cases (ltb (r + d) n)) [
      | inl small ↦
          let at : (r + d) % n ≡ r + d = mod-eq_of_lt (ground arith) in omega (arith, same, at, h)
      | inr big ↦
          let over : n ≤ r + d = ground arith in
          let at : (r + d) % n ≡ r + d - n =
            mod-eq-sub-mod over ∙ mod-eq_of_lt (omega (arith, low, lt)) in
          omega (arith, same, at, lt, over)
    ]

get_or-set_self : (xs : List ℕ) (i v : ℕ) → i < length xs → get_or (set xs i v) i 0 ≡ v
get_or-set_self [] i v h = elim h [ ]
get_or-set_self (x ∷ xs) zero v h = refl
get_or-set_self (x ∷ xs) (suc i) v h = get_or-set_self xs i v (omega (arith, h))

get_or-set_other : (xs : List ℕ) (i j v : ℕ) → j ≢ i → get_or (set xs i v) j 0 ≡ get_or xs j 0
get_or-set_other [] i j v h = refl
get_or-set_other (x ∷ xs) zero zero v h = absurd (h refl)
get_or-set_other (x ∷ xs) zero (suc j) v h = refl
get_or-set_other (x ∷ xs) (suc i) zero v h = refl
get_or-set_other (x ∷ xs) (suc i) (suc j) v h = get_or-set_other xs i j v (λ e. h (ap suc e))

pub length-write_loop :
    (ring : List ℕ) (at : ℕ) (pcm : List ℕ) → length (write_loop ring at pcm) ≡ length ring
unfolding write_loop
length-write_loop ring at [] = refl
length-write_loop ring at (s ∷ pcm) =
    length-write_loop (set ring at s) ((at + 1) % length ring) pcm ∙ length-set ring at s

-- The next place to write to.
next-place : (w n : ℕ) → (w % n + 1) % n ≡ (w + 1) % n
next-place w n = mod-add-mod w n 1

-- What is written from the place `w` on leaves the places behind it, as far as once around.
write_loop-leaves :
    (ring : List ℕ) (w j : ℕ) (pcm : List ℕ)
    → w + length pcm ≤ j
    → j < w + length ring
    → get_or (write_loop ring (w % length ring) pcm) (j % length ring) 0
      ≡ get_or ring (j % length ring) 0
unfolding write_loop
write_loop-leaves ring w j [] h k = refl
write_loop-leaves ring w j (s ∷ pcm) h k =
    let n = length ring in
    let ring' = set ring (w % n) s in
    let size : length ring' ≡ n = length-set ring (w % n) s in
    let ih = write_loop-leaves ring' (w + 1) j pcm (omega (arith, h)) (omega (arith, k, size)) in
    let apart : j % n ≢ w % n = λ e.
      mod_shift-ne w (j - w) n (omega (arith, h)) (omega (arith, h, k))
        (let back : w + (j - w) ≡ j = omega (arith, h) in ap (λ x. x % n) back ∙ e) in
    ap (λ p. get_or (write_loop ring' p pcm) (j % n) 0) (next-place w n)
    ∙ ap (λ x. get_or (write_loop ring' ((w + 1) % x) pcm) (j % x) 0) (sym size)
    ∙ ih
    ∙ ap (λ x. get_or ring' (j % x) 0) size
    ∙ get_or-set_other ring (w % n) (j % n) s apart

-- Reading back gives what was written.
reads-write_loop :
    (ring : List ℕ) (w : ℕ) (pcm : List ℕ)
    → length pcm ≤ length ring
    → reads (write_loop ring (w % length ring) pcm) (length pcm) w ≡ pcm
unfolding reads write_loop
reads-write_loop ring w [] h = refl
reads-write_loop ring w (s ∷ pcm) h =
    let n = length ring in
    let ring' = set ring (w % n) s in
    let size : length ring' ≡ n = length-set ring (w % n) s in
    let done = write_loop ring' ((w % n + 1) % n) pcm in
    let done_size : length done ≡ n = length-write_loop ring' ((w % n + 1) % n) pcm ∙ size in
    let moved : done ≡ write_loop ring' ((w + 1) % length ring') pcm =
      ap (λ p. write_loop ring' p pcm) (next-place w n)
      ∙ ap (λ x. write_loop ring' ((w + 1) % x) pcm) (sym size) in
    let inside : w % n < n = mod-lt w {m = n} (omega (arith, h)) in
    let around : (w + n) % n ≡ w % n = add-mod_right w n in
    let head : get_or done (w % length done) 0 ≡ s =
      ap (λ x. get_or done (w % x) 0) done_size
      ∙ ap (λ x. get_or done x 0) (sym around)
      ∙ ap (λ x. get_or x ((w + n) % n) 0) moved
      ∙ ap (λ x. get_or (write_loop ring' ((w + 1) % length ring') pcm) ((w + n) % x) 0) (sym size)
      ∙ write_loop-leaves ring' (w + 1) (w + n) pcm (omega (arith, h)) (omega (arith, size))
      ∙ ap (λ x. get_or ring' ((w + n) % x) 0) size
      ∙ ap (λ x. get_or ring' x 0) around
      ∙ get_or-set_self ring (w % n) s inside in
    let one : suc w ≡ w + 1 = omega arith in
    let tail : reads done (length pcm) (suc w) ≡ pcm =
      ap (λ x. reads x (length pcm) (suc w)) moved
      ∙ ap (reads (write_loop ring' ((w + 1) % length ring') pcm) (length pcm)) one
      ∙ reads-write_loop ring' (w + 1) pcm (omega (arith, h, size)) in
    ap (λ x. x ∷ reads done (length pcm) (suc w)) head ∙ ap (◌∷◌ s) tail

reads-cong :
    (xs ys : List ℕ) (count place : ℕ)
    → length xs ≡ length ys
    → ((j : ℕ)
        → place ≤ j
        → j < place + count
        → get_or xs (j % length ys) 0 ≡ get_or ys (j % length ys) 0)
    → reads xs count place ≡ reads ys count place
unfolding reads
reads-cong xs ys zero place e h = refl
reads-cong xs ys (suc count) place e h =
    let later =
      reads-cong xs ys count (suc place) e
        (λ j low high. h j (omega (arith, low)) (omega (arith, high))) in
    ap (λ n. get_or xs (place % n) 0 ∷ reads xs count (suc place)) e
    ∙ ap (λ x. x ∷ reads xs count (suc place)) (h place (omega arith) (omega arith))
    ∙ ap (◌∷◌ (get_or ys (place % length ys) 0)) later

-- What waits is not written over.
reads_kept :
    (ring : List ℕ) (place count : ℕ) (pcm : List ℕ)
    → count + length pcm ≤ length ring
    → reads (write_loop ring ((place + count) % length ring) pcm) count place
      ≡ reads ring count place
reads_kept ring place count pcm h =
    let n = length ring in
    let done = write_loop ring ((place + count) % n) pcm in
    reads-cong done ring count place (length-write_loop ring ((place + count) % n) pcm)
      (λ j low high.
        let around : (j + n) % n ≡ j % n = add-mod_right j n in
        ap (λ x. get_or done x 0) (sym around)
        ∙ write_loop-leaves ring (place + count) (j + n) pcm (omega (arith, low, h))
            (omega (arith, high))
        ∙ ap (λ x. get_or ring x 0) around)

-- What is written stands behind what waits.
pub put-contents :
    (ring : List ℕ) (place count : ℕ) (pcm : List ℕ)
    → count + length pcm ≤ length ring
    → reads (write_loop ring ((place + count) % length ring) pcm) (count + length pcm) place
      ≡ reads ring count place ++ pcm
put-contents ring place count pcm h =
    let done = write_loop ring ((place + count) % length ring) pcm in
    sym (append-reads done count (length pcm) place)
    ∙ ap (λ xs. xs ++ reads done (length pcm) (place + count)) (reads_kept ring place count pcm h)
    ∙ ap (λ xs. reads ring count place ++ xs)
        (reads-write_loop ring (place + count) pcm (omega (arith, h)))
