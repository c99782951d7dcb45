-- ===== src/Media/PcmRing/Queue.antt =====
-- The ring as a queue of bounded length.
use deskhub.Base.{
  ℕ, zero, suc, ◌+◌, ◌-◌, ◌%◌, ◌≤◌, ◌<◌, ◌≡◌, refl, sym, ap, ◌∙◌, subst, Bool, true, false, ◌||◌,
  List, [], ◌++◌, arith, length, ltb, ◌==◌, if◌then◌else◌, min, take, drop, leb, drop_of_le,
  take_of_le, take-nil, drop-nil, Bool-cases, inl, inr,
}
use native.Mathlib.Nat.{mod-lt, mod-mod}
use deskhub.Base.Words.{add64}
use deskhub.Media.PcmRing.Places.{
  reads, reads-mod, length-reads, take-reads, drop-reads, take_loop-reads, length-write_loop,
  put-contents,
}
use deskhub.Media.PcmRing.{PcmRing, take_loop, take_samples, drop_loop, put_samples}

-- The samples that wait, oldest first.
abbrev pub contents : PcmRing → List ℕ
contents r = reads r.ring r.filled r.read_at

-- The queue that the ring stands for: `room` samples at most. What does not fit at all is refused;
-- where there is no room as many of the oldest samples go as come, or all.
unfoldable pub queue_put : ℕ → List ℕ → List ℕ → List ℕ
queue_put room xs pcm =
    if room == 0 || ltb room (length pcm)
    then xs
    else if ltb (room - length xs) (length pcm)
    then drop (length pcm) xs ++ pcm
    else xs ++ pcm

-- The places that the ring uses are inside.
pub record IsValid (r : PcmRing) : Type 0 where
  pub filled : r.filled ≤ length r.ring
  pub read_at : 0 < length r.ring → r.read_at < length r.ring

drop_loop-stop :
    (fuel : ℕ) (r : PcmRing) (size : ℕ)
    → ltb (length r.ring - r.filled) size ≡ false
    → drop_loop fuel r size ≡ r
unfolding drop_loop
drop_loop-stop zero r size e = refl
drop_loop-stop (suc fuel) r size e = rw e refl

abbrev drop_once : PcmRing → ℕ → PcmRing
drop_once r size = record r {
  read_at = (r.read_at + min size r.filled) % length r.ring;
  filled = r.filled - min size r.filled;
  dropped = add64 r.dropped 1;
}

drop_loop-go :
    (fuel : ℕ) (r : PcmRing) (size : ℕ)
    → ltb (length r.ring - r.filled) size ≡ true
    → drop_loop (suc fuel) r size ≡ drop_loop fuel (drop_once r size) size
unfolding drop_loop
drop_loop-go fuel r size e = rw e refl

-- Room is made at once: one round is enough.
drop_loop-once :
    (fuel : ℕ) (r : PcmRing) (size : ℕ)
    → IsValid r
    → size ≤ length r.ring
    → r.filled ≤ fuel
    → drop_loop fuel r size ≡ (if ltb (length r.ring - r.filled) size then drop_once r size else r)
drop_loop-once fuel r size v h enough = elim (Bool-cases (ltb (length r.ring - r.filled) size)) [
  | inr e ↦ rw e (drop_loop-stop fuel r size e)
  | inl e ↦ rw e (go fuel enough e)
]
  where
    go :
        (fuel : ℕ)
        → r.filled ≤ fuel
        → ltb (length r.ring - r.filled) size ≡ true
        → drop_loop fuel r size ≡ drop_once r size
    go zero enough e = absurd (ground (arith, e, h, v.filled, enough))
    go (suc fuel) enough e =
        drop_loop-go fuel r size e
        ∙ drop_loop-stop fuel (drop_once r size) size (ground (arith, e, h, v.filled))

drop-min : (n : ℕ) (xs : List ℕ) (size : ℕ) → length xs ≡ size → drop (min n size) xs ≡ drop n xs
drop-min n xs size e = elim (Bool-cases (leb n size)) [
  | inl low ↦ let same : min n size ≡ n = ground arith in ap (λ k. drop k xs) same
  | inr high ↦
      drop_of_le (min n size) xs (ground (arith, e)) ∙ sym (drop_of_le n xs (ground (arith, e)))
]

take-min : (n : ℕ) (xs : List ℕ) (size : ℕ) → length xs ≡ size → take (min n size) xs ≡ take n xs
take-min n xs size e = elim (Bool-cases (leb n size)) [
  | inl low ↦ let same : min n size ≡ n = ground arith in ap (λ k. take k xs) same
  | inr high ↦
      take_of_le (min n size) xs (ground (arith, e)) ∙ sym (take_of_le n xs (ground (arith, e)))
]

-- The samples that Take reads and the place after them.
take_loop-contents :
    (r : PcmRing) (wanted : ℕ)
    → IsValid r
    → 0 < length r.ring
    → take_loop r.ring (min wanted r.filled) r.read_at
      ≡ (take wanted (contents r), (drop_once r wanted).read_at)
take_loop-contents r wanted v h =
    let count = min wanted r.filled in
    take_loop-reads r.ring count r.read_at (v.read_at h)
    ∙ ap (λ xs. (xs, (drop_once r wanted).read_at))
        (sym (take-reads r.ring count r.filled r.read_at (omega arith))
          ∙ take-min wanted (contents r) r.filled (length-reads r.ring r.filled r.read_at))

drop_once-contents : (r : PcmRing) (size : ℕ) → contents (drop_once r size) ≡ drop size (contents r)
drop_once-contents r size =
    let count = min size r.filled in
    reads-mod r.ring (r.filled - count) ((r.read_at + count) % length r.ring) (r.read_at + count)
      (mod-mod (r.read_at + count) (length r.ring))
    ∙ sym (drop-reads r.ring count r.filled r.read_at (omega arith))
    ∙ drop-min size (contents r) r.filled (length-reads r.ring r.filled r.read_at)

-- What a call leaves of the queue, in a ring of the same size.
pub record Leaves (r : PcmRing) (xs : List ℕ) (r' : PcmRing) : Type 0 where
  pub queue : contents r' ≡ xs
  pub valid : IsValid r'
  pub size : length r'.ring ≡ length r.ring

drop_loop-Leaves :
    (r : PcmRing) (size : ℕ)
    → IsValid r
    → size ≤ length r.ring
    → let r' = drop_loop r.filled r size in
      Leaves r
        (if ltb (length r.ring - r.filled) size then drop size (contents r) else contents r)
        r'
      × (r'.filled + size ≤ length r.ring)
      × (r'.ring ≡ r.ring)
drop_loop-Leaves r size v h = elim (Bool-cases (ltb (length r.ring - r.filled) size)) [
  | inl e ↦
      rw (drop_loop-once r.filled r size v h (omega arith), e)
        (
          record {
            queue = drop_once-contents r size;
            valid = record {
              filled = omega (arith, v.filled);
              read_at = λ k. mod-lt (r.read_at + min size r.filled) {m = length r.ring} k;
            };
            size = refl;
          },
          ground (arith, e, h, v.filled),
          refl,
        )
  | inr e ↦
      rw (drop_loop-once r.filled r size v h (omega arith), e)
        (record { queue = refl; valid = v; size = refl }, ground (arith, e, h, v.filled), refl)
]

-- Take, if it gets the lock, gives the oldest samples, as many as are wanted and there are, and
-- takes them off the queue; without the lock it gives none.
pub take_samples-Leaves :
    (r : PcmRing) (owns_lock : Bool) (wanted : ℕ)
    → IsValid r
    → let x = take_samples r owns_lock wanted in
      let n = if owns_lock then wanted else 0 in
      (x.0 ≡ take n (contents r)) × Leaves r (drop n (contents r)) x.1
unfolding take_samples
take_samples-Leaves r false wanted v = (refl, record { queue = refl; valid = v; size = refl })
take_samples-Leaves r true wanted v = elim (Bool-cases (length r.ring == 0)) [
  | inl e ↦
      let nothing : r.filled ≡ 0 = ground (arith, e, v.filled) in
      let none_taken : min wanted r.filled ≡ 0 = omega (arith, nothing) in
      let all : contents r ≡ [] =
        ap (λ n. reads r.ring n r.read_at) nothing ∙ (unfold reads in refl) in
      let x = ap (λ c. take_loop r.ring c r.read_at) none_taken ∙ (unfold take_loop in refl) in
      (
        ap (λ y. y.0) x ∙ sym (ap (take wanted) all ∙ take-nil wanted),
        record {
          queue =
              ap (λ y. reads r.ring (r.filled - min wanted r.filled) y.1) x
              ∙ ap (λ n. reads r.ring n r.read_at)
                  (let same : r.filled - min wanted r.filled ≡ 0 = omega (arith, nothing) in same)
              ∙ (unfold reads in sym (ap (drop wanted) all ∙ drop-nil wanted));
          valid = record {
            filled = omega (arith, v.filled);
            read_at = λ k. absurd (ground (arith, e, k));
          };
          size = refl;
        },
      )
  | inr e ↦
      let x = take_loop-contents r wanted v (ground arith) in
      (
        ap (λ y. y.0) x,
        record {
          queue =
              ap (λ y. reads r.ring (r.filled - min wanted r.filled) y.1) x
              ∙ drop_once-contents r wanted;
          valid = record {
            filled = omega (arith, v.filled);
            read_at = λ k.
                subst (λ a. a < length r.ring) (ap (λ y. y.1) (sym x))
                  (mod-lt (r.read_at + min wanted r.filled) {m = length r.ring} k);
          };
          size = refl;
        },
      )
]

if-append :
    (b : Bool) (xs ys pcm : List ℕ)
    → (if b then xs else ys) ++ pcm ≡ (if b then xs ++ pcm else ys ++ pcm)
if-append true xs ys pcm = refl
if-append false xs ys pcm = refl

-- Put keeps the queue as `queue_put` says.
pub put_samples-Leaves :
    (r : PcmRing) (pcm : List ℕ)
    → IsValid r
    → Leaves r (queue_put (length r.ring) (contents r) pcm) (put_samples r pcm)
unfolding put_samples queue_put
put_samples-Leaves r pcm v =
    elim (Bool-cases (length r.ring == 0 || ltb (length r.ring) (length pcm))) [
      | inl e ↦ rw e (record { queue = refl; valid = v; size = refl })
      | inr e ↦
          let (x, room, same) = drop_loop-Leaves r (length pcm) v (ground (arith, e)) in
          let r' = drop_loop r.filled r (length pcm) in
          let n : length r'.ring ≡ length r.ring = ap length same in
          let size = length-write_loop r'.ring ((r'.read_at + r'.filled) % length r'.ring) pcm in
          let full = ltb (length r.ring - r.filled) (length pcm) in
          rw e (record {
            queue =
                put-contents r'.ring r'.read_at r'.filled pcm (omega (arith, room, n))
                ∙ ap (λ xs. xs ++ pcm) x.queue
                ∙ if-append full (drop (length pcm) (contents r)) (contents r) pcm
                ∙ ap
                    (λ k.
                      if ltb (length r.ring - k) (length pcm)
                      then drop (length pcm) (contents r) ++ pcm
                      else contents r ++ pcm)
                    (sym (length-reads r.ring r.filled r.read_at));
            valid = record {
              filled = omega (arith, room, n, size);
              read_at = λ k.
                  subst (λ m. r'.read_at < m) (sym size) (x.valid.read_at (omega (arith, k, size)));
            };
            size = size ∙ n;
          })
    ]
