-- ===== src/Media/PcmRing/Refinement.antt =====
-- Any sequence of calls of the ring, and the same calls of the queue that it stands for.
use deskhub.Base.{
  ℕ, ◌-◌, ◌*◌, ◌≡◌, refl, sym, ap, ◌∙◌, Bool, List, [], ◌∷◌, ◌++◌, arith, length, ltb,
  if◌then◌else◌, take, drop, replicate, length-replicate, Bool-cases, inl, inr,
}
use mathlib.Core.List.{append-nil}
use deskhub.Media.PcmRing.{
  PcmRing, new_ring, open_ring, take_samples, take_or_silence, put_samples, pcm_ring_frames,
}
use deskhub.Media.PcmRing.Places.{reads}
use deskhub.Media.PcmRing.Queue.{
  contents, queue_put, IsValid, Leaves, take_samples-Leaves, put_samples-Leaves,
}

-- A call of the ring: Put, and TakeOrSilence with whether the lock was free.
pub data Call : Type 0 where
  put_call : List ℕ → Call
  take_call : Bool → ℕ → Call

-- What the device gets, call by call, and the state.
unfoldable pub run : PcmRing → List Call → List (List ℕ) × PcmRing
unfolding put_samples take_or_silence
run r [] = ([], r)
run r (put_call pcm ∷ calls) = run (put_samples r pcm) calls
run r (take_call owns_lock wanted ∷ calls) =
    let (out, r') = take_or_silence r owns_lock wanted in
    let (outs, r'') = run r' calls in (out ∷ outs, r'')

-- The oldest samples, and silence where there are not enough.
abbrev pub with_silence : ℕ → List ℕ → List ℕ
with_silence wanted out = out ++ replicate (wanted - length out) 0

-- The same calls of a queue of `room` samples.
unfoldable pub run_queue : ℕ → List ℕ → List Call → List (List ℕ) × List ℕ
unfolding queue_put
run_queue room xs [] = ([], xs)
run_queue room xs (put_call pcm ∷ calls) = run_queue room (queue_put room xs pcm) calls
run_queue room xs (take_call owns_lock wanted ∷ calls) =
    let n = if owns_lock then wanted else 0 in
    let (outs, xs') = run_queue room (drop n xs) calls in
    (with_silence wanted (take n xs) ∷ outs, xs')

-- The counter of the starved calls is no part of the queue.
take_or_silence-Leaves :
    (r : PcmRing) (owns_lock : Bool) (wanted : ℕ)
    → IsValid r
    → let x = take_or_silence r owns_lock wanted in
      let n = if owns_lock then wanted else 0 in
      (x.0 ≡ with_silence wanted (take n (contents r))) × Leaves r (drop n (contents r)) x.1
unfolding take_or_silence
take_or_silence-Leaves r owns_lock wanted v =
    let x = take_samples r owns_lock wanted in
    let (out, y) = take_samples-Leaves r owns_lock wanted v in
    elim (Bool-cases (ltb (length x.0) wanted)) [
      | inl e ↦ rw e (
        ap (with_silence wanted) out,
        record {
          queue = y.queue;
          valid = record { filled = y.valid.filled; read_at = y.valid.read_at };
          size = y.size;
        },
      )
      | inr e ↦
          let enough : 0 ≡ wanted - length x.0 = ground arith in
          rw e (
            sym (append-nil x.0)
                ∙ ap (λ k. x.0 ++ replicate k 0) enough
                ∙ ap (with_silence wanted) out,
            y,
          )
    ]

run-run_queue :
    (calls : List Call) (r : PcmRing)
    → IsValid r
    → let x = run r calls in
      let y = run_queue (length r.ring) (contents r) calls in (x.0 ≡ y.0) × (contents x.1 ≡ y.1)
unfolding run run_queue
run-run_queue [] r v = (refl, refl)
run-run_queue (put_call pcm ∷ calls) r v =
    let x = put_samples-Leaves r pcm v in
    let later = run-run_queue calls (put_samples r pcm) x.valid in
    let same =
      ap (λ room. run_queue room (contents (put_samples r pcm)) calls) x.size
      ∙ ap (λ xs. run_queue (length r.ring) xs calls) x.queue in
    (later.0 ∙ ap (λ y. y.0) same, later.1 ∙ ap (λ y. y.1) same)
run-run_queue (take_call owns_lock wanted ∷ calls) r v =
    let (out, x) = take_or_silence-Leaves r owns_lock wanted v in
    let r' = (take_or_silence r owns_lock wanted).1 in
    let later = run-run_queue calls r' x.valid in
    let n = if owns_lock then wanted else 0 in
    let same =
      ap (λ room. run_queue room (contents r') calls) x.size
      ∙ ap (λ xs. run_queue (length r.ring) xs calls) x.queue in
    (
      ap (λ o. o ∷ (run r' calls).0) out
          ∙ ap (◌∷◌ (with_silence wanted (take n (contents r)))) (later.0 ∙ ap (λ y. y.0) same),
      later.1 ∙ ap (λ y. y.1) same,
    )

-- Whatever is put and taken in whatever order after the ring was opened for a format of `samples`
-- samples a frame, the device gets exactly what a queue of eight frames would give it: the oldest
-- samples that wait, in order, and silence where there are not enough or the lock is not free; a
-- Put that finds no room drops the oldest samples, as many as it brings, and one that is larger
-- than the ring is refused.
pub open_ring-run :
    (samples : ℕ) (calls : List Call)
    → (run (open_ring new_ring samples) calls).0
      ≡ (run_queue (pcm_ring_frames * samples) [] calls).0
unfolding open_ring run_queue reads
open_ring-run samples calls =
    let r = open_ring new_ring samples in
    let size : length r.ring ≡ pcm_ring_frames * samples =
      length-replicate (pcm_ring_frames * samples) 0 in
    let v : IsValid r = record { filled = omega arith; read_at = λ h. h } in
    (run-run_queue calls r v).0 ∙ ap (λ room. (run_queue room [] calls).0) size
