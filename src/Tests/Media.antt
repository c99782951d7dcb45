-- ===== src/Tests/Media.antt =====
-- The sound ring at a concrete input.
use deskhub.Base.{◌*◌, ◌≡◌, true, false, List, [], ◌∷◌}
use deskhub.Media.PcmRing.{new_ring, open_ring, pcm_ring_frames}
use deskhub.Media.PcmRing.Refinement.{Call, put_call, take_call, run, run_queue, open_ring-run}

-- Nine samples come into a ring of eight, and the lock is held once.
abbrev ring_calls : List Call
ring_calls =
    put_call (1 ∷ 2 ∷ 3 ∷ 4 ∷ 5 ∷ [])
    ∷ put_call (6 ∷ 7 ∷ 8 ∷ 9 ∷ [])
    ∷ take_call false 2
    ∷ take_call true 7
    ∷ []

open_ring-run_example :
    (run (open_ring new_ring 1) ring_calls).0 ≡ (run_queue (pcm_ring_frames * 1) [] ring_calls).0
open_ring-run_example = open_ring-run 1 ring_calls
