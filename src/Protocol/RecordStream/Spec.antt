-- ===== src/Protocol/RecordStream/Spec.antt =====
-- What a sequence of bytes means, with no regard to how it arrives: the records that it holds
-- whole, and what is left behind them, `none` if that is malformed.
use deskhub.Base.{
  ℕ, zero, suc, ◌+◌, ◌-◌, ◌≤◌, ◌<◌, ◌≡◌, refl, ap, ◌∙◌, sym, List, [], ◌∷◌, ◌++◌, length, take,
  drop, arith, ◌⊎◌, length-append, length-drop, drop-append, Option, none, some, All, inl, inr,
}
use deskhub.Protocol.Record.{
  RecordView, done, need_more, invalid, read_record, max_record_size, IsMessage, record_of,
  read_record-record_of, length-record_of,
}

abbrev pub Split : Type 0
Split = List (List ℕ) × Option (List ℕ)

abbrev pub prepend : List ℕ → Split → Split
prepend m (ms, r) = (m ∷ ms, r)

unfoldable pub split : ℕ → List ℕ → Split
split zero p = ([], some p)
split (suc fuel) p = elim (read_record p) [
  | done m n ↦ prepend m (split fuel (drop n p))
  | need_more ↦ ([], some p)
  | invalid ↦ ([], none)
]

-- A round takes a byte at least.
unfoldable pub records_in : List ℕ → Split
records_in p = split (suc (length p)) p

-- The bytes `q` arrive behind what was split.
abbrev pub resume : Split → List ℕ → Split
resume (ms, none) q = (ms, none)
resume (ms, some t) q = let (ms', r) = records_in (t ++ q) in (ms ++ ms', r)

take-append_le : (n : ℕ) (p q : List ℕ) → n ≤ length p → take n (p ++ q) ≡ take n p
take-append_le zero p q h = refl
take-append_le (suc n) [] q h = absurd (omega arith)
take-append_le (suc n) (x ∷ p) q h = ap (◌∷◌ x) (take-append_le n p q (omega arith))

drop-append_le : (n : ℕ) (p q : List ℕ) → n ≤ length p → drop n (p ++ q) ≡ drop n p ++ q
drop-append_le zero p q h = refl
drop-append_le (suc n) [] q h = absurd (omega arith)
drop-append_le (suc n) (x ∷ p) q h = drop-append_le n p q (omega arith)

-- A record that is read takes some bytes, and no more than there are.
pub read_record_takes : (p m : List ℕ) (n : ℕ) → read_record p ≡ done m n → (0 < n) × (n ≤ length p)
unfolding read_record
read_record_takes [] m n e = cc
read_record_takes (a ∷ []) m n e = cc
read_record_takes (a ∷ b ∷ rest) m n e = ground arith

-- What is no record yet is short.
pub read_record_short : (p : List ℕ) → read_record p ≡ need_more → length p < 2 + max_record_size
unfolding read_record
read_record_short [] e = omega arith
read_record_short (a ∷ []) e = omega arith
read_record_short (a ∷ b ∷ rest) e = ground arith

-- More bytes change neither a record that is read nor a malformed one.
pub read_record-append_done :
    (p q m : List ℕ) (n : ℕ) → read_record p ≡ done m n → read_record (p ++ q) ≡ done m n
unfolding read_record
read_record-append_done [] q m n e = cc
read_record-append_done (a ∷ []) q m n e = cc
read_record-append_done (a ∷ b ∷ rest) q m n e =
    ground (arith, length-append rest q, take-append_le (n - 2) rest q)

pub read_record-append_invalid :
    (p q : List ℕ) → read_record p ≡ invalid → read_record (p ++ q) ≡ invalid
unfolding read_record
read_record-append_invalid [] q e = cc
read_record-append_invalid (a ∷ []) q e = cc
read_record-append_invalid (a ∷ b ∷ rest) q e = ground arith

pub RecordView-cases :
    (v : RecordView) → ((m : List ℕ) × (n : ℕ) × (v ≡ done m n)) ⊎ (v ≡ need_more) ⊎ (v ≡ invalid)
RecordView-cases (done m n) = inl (m, n, refl)
RecordView-cases need_more = inr (inl refl)
RecordView-cases invalid = inr (inr refl)

-- One round of `split`, by what stands in front.
pub split-done :
    (f : ℕ) (p m : List ℕ) (n : ℕ)
    → read_record p ≡ done m n
    → split (suc f) p ≡ prepend m (split f (drop n p))
unfolding split
split-done f p m n e = rw (e, split)

pub split-need_more :
    (f : ℕ) (p : List ℕ) → read_record p ≡ need_more → split (suc f) p ≡ ([], some p)
unfolding split
split-need_more f p e = rw (e, split)

pub split-invalid : (f : ℕ) (p : List ℕ) → read_record p ≡ invalid → split (suc f) p ≡ ([], none)
unfolding split
split-invalid f p e = rw (e, split)

-- Fuel beyond the length of the bytes does not matter.
pub split_fuel : (f g : ℕ) (p : List ℕ) → length p < f → length p < g → split f p ≡ split g p
split_fuel zero g p h k = elim h [ ]
split_fuel (suc f) zero p h k = elim k [ ]
split_fuel (suc f) (suc g) p h k = elim (RecordView-cases (read_record p)) [
  | inl (m, n, e) ↦
      let (some_byte, fits) = read_record_takes p m n e in
      rw (
        split-done f p m n e,
        split-done g p m n e,
        split_fuel f g (drop n p) (omega (arith, length-drop n p)) (omega (arith, length-drop n p)),
      )
  | inr (inl e) ↦ split-need_more f p e ∙ sym (split-need_more g p e)
  | inr (inr e) ↦ split-invalid f p e ∙ sym (split-invalid g p e)
]

-- Where nothing is split off, more bytes start anew.
whole :
    (g : ℕ) (p q : List ℕ)
    → length p + length q < suc g
    → split (suc g) (p ++ q) ≡ resume ([], some p) q
unfolding records_in
whole g p q k =
    split_fuel (suc g) (suc (length (p ++ q))) (p ++ q) (omega (arith, length-append p q))
      (omega arith)

resume-prepend :
    (m : List ℕ) (s : Split) (q : List ℕ) → resume (prepend m s) q ≡ prepend m (resume s q)
resume-prepend m (ms, none) q = refl
resume-prepend m (ms, some t) q = refl

-- Splitting first what came first makes no difference.
split-append :
    (f g : ℕ) (p q : List ℕ)
    → length p < f
    → length p + length q < g
    → split g (p ++ q) ≡ resume (split f p) q
split-append zero g p q h k = elim h [ ]
split-append (suc f) zero p q h k = elim k [ ]
split-append (suc f) (suc g) p q h k = elim (RecordView-cases (read_record p)) [
  | inl (m, n, e) ↦
      let (some_byte, fits) = read_record_takes p m n e in
      rw
        (
          split-done f p m n e,
          split-done g (p ++ q) m n (read_record-append_done p q m n e),
          drop-append_le n p q fits,
        )
        (ap (prepend m) (
            split-append f g (drop n p) q (omega (arith, length-drop n p))
              (omega (arith, length-drop n p)))
          ∙ sym (resume-prepend m (split f (drop n p)) q))
  | inr (inl e) ↦ rw (split-need_more f p e) (whole g p q k)
  | inr (inr e) ↦
      split-invalid g (p ++ q) (read_record-append_invalid p q e) ∙ rw (split-invalid f p e)
]

pub records_in-append : (p q : List ℕ) → records_in (p ++ q) ≡ resume (records_in p) q
unfolding records_in
records_in-append p q =
    split-append (suc (length p)) (suc (length (p ++ q))) p q (omega arith)
      (omega (arith, length-append p q))

-- What is left is short, and is no record yet.
pub split_rest :
    (f : ℕ) (p t : List ℕ) (ms : List (List ℕ))
    → length p < f
    → split f p ≡ (ms, some t)
    → read_record t ≡ need_more
unfolding split
split_rest zero p t ms h e = elim h [ ]
split_rest (suc f) p t ms h e = elim (RecordView-cases (read_record p)) [
  | inl (m, n, r) ↦
      let (some_byte, fits) = read_record_takes p m n r in
      ground (arith, r, length-drop n p, split_rest f (drop n p) t (split f (drop n p)).0)
  | inr (inl r) ↦ ground (arith, r)
  | inr (inr r) ↦ ground (arith, r)
]

-- The records of messages, one behind the other.
abbrev pub stream_of : List (List ℕ) → List ℕ
stream_of [] = []
stream_of (m ∷ ms) = record_of m ++ stream_of ms

-- The messages are read back from their stream, and nothing is left.
pub records_in-stream_of :
    (ms : List (List ℕ)) → All IsMessage ms → records_in (stream_of ms) ≡ (ms, some [])
unfolding records_in
records_in-stream_of [] v = unfold split read_record in refl
records_in-stream_of (m ∷ ms) v =
    let n = length (record_of m ++ stream_of ms) in
    let front = read_record-record_of m (stream_of ms) v.0 in
    split-done n _ m (2 + length m) front
    ∙ ap (prepend m) (
        ap (split n) (drop-append (record_of m) (stream_of ms) (2 + length m) (length-record_of m))
        ∙ split_fuel n (suc (length (stream_of ms))) (stream_of ms)
            (omega (arith, length-append (record_of m) (stream_of ms), length-record_of m))
            (omega arith)
        ∙ records_in-stream_of ms v.1)
