-- ===== src/Media/PcmRing.antt =====
-- core/include/deskhub/media/PcmRing.h: samples that wait for the sound device, in a ring.
pub mod Places
pub mod Queue
pub mod Refinement
use deskhub.Base.{
  ℕ, zero, suc, ◌+◌, ◌-◌, ◌*◌, ◌/◌, ◌%◌, Bool, true, false, not, ◌||◌, List, [], ◌∷◌, ◌++◌, length,
  ltb, ◌==◌, if◌then◌else◌, min, get_or, set, replicate,
}
use deskhub.Base.Words.{add64}

abbrev pub pcm_ring_frames : ℕ
pcm_ring_frames = 8

-- The samples are the bit patterns of `int16_t`.
pub record PcmRing : Type 0 where
  pub ring : List ℕ
  pub samples_per_frame : ℕ
  pub read_at : ℕ
  pub filled : ℕ
  pub dropped : ℕ
  pub starved : ℕ

abbrev pub new_ring : PcmRing
new_ring = record {
  ring = [];
  samples_per_frame = 0;
  read_at = 0;
  filled = 0;
  dropped = 0;
  starved = 0;
}

-- `samples` is what the format says of a frame, `interleavedSamples()`.
unfoldable pub open_ring : PcmRing → ℕ → PcmRing
open_ring r samples = record r {
  samples_per_frame = samples;
  ring = replicate (pcm_ring_frames * samples) 0;
  read_at = 0;
  filled = 0;
}

-- The samples of so many rounds, and the place after them. The ring is not empty where there is a
-- round.
unfoldable pub take_loop : List ℕ → (rounds read_at : ℕ) → List ℕ × ℕ
take_loop ring zero read_at = ([], read_at)
take_loop ring (suc rounds) read_at =
    let (out, at) = take_loop ring rounds ((read_at + 1) % length ring) in
    (get_or ring read_at 0 ∷ out, at)

-- The samples that are taken; their number is the answer. `owns_lock` is whether the lock was free.
unfoldable pub take_samples : PcmRing → Bool → ℕ → List ℕ × PcmRing
unfolding take_loop
take_samples r owns_lock wanted =
    let count = min wanted r.filled in
    let (out, at) = take_loop r.ring count r.read_at in
    if not owns_lock then ([], r) else (out, record r { read_at = at; filled = r.filled - count })

-- What the device gets, as many samples as it wanted, and the state.
unfoldable pub take_or_silence : PcmRing → Bool → ℕ → List ℕ × PcmRing
unfolding take_samples
take_or_silence r owns_lock wanted =
    let (out, r') = take_samples r owns_lock wanted in
    if ltb (length out) wanted
    then (out ++ replicate (wanted - length out) 0, record r' { starved = add64 r'.starved 1 })
    else (out, r')

-- The loop that makes room for `size` samples. A round drops a sample at least, so as many rounds
-- as there are samples are enough.
unfoldable pub drop_loop : ℕ → PcmRing → ℕ → PcmRing
drop_loop zero r size = r
drop_loop (suc fuel) r size =
    let drop = min size r.filled in
    let rest =
      drop_loop fuel
        (record r {
          read_at = (r.read_at + drop) % length r.ring;
          filled = r.filled - drop;
          dropped = add64 r.dropped 1;
        })
        size in
    if ltb (length r.ring - r.filled) size then rest else r

unfoldable pub write_loop : List ℕ → ℕ → List ℕ → List ℕ
write_loop ring write_at [] = ring
write_loop ring write_at (s ∷ pcm) =
    write_loop (set ring write_at s) ((write_at + 1) % length ring) pcm

unfoldable pub put_samples : PcmRing → List ℕ → PcmRing
unfolding drop_loop write_loop
put_samples r pcm =
    let r' = drop_loop r.filled r (length pcm) in
    if length r.ring == 0 || ltb (length r.ring) (length pcm) then r else record r' {
      ring = write_loop r'.ring ((r'.read_at + r'.filled) % length r'.ring) pcm;
      filled = r'.filled + length pcm;
    }

unfoldable pub frames_queued : PcmRing → ℕ
frames_queued r = if r.samples_per_frame == 0 then 0 else r.filled / r.samples_per_frame
