-- ===== src/Transport/Packetizer/Chunks.antt =====
-- The chunks that a frame is cut into.
use deskhub.Base.{
  ℕ, zero, suc, ◌+◌, ◌*◌, ◌≤◌, ◌<◌, ◌≡◌, refl, sym, ap, ◌∙◌, List, [], ◌∷◌, ◌++◌, arith, length,
  drop, All, length-take, length-drop, take-append-drop, drop-drop, drop_of_le,
}
use deskhub.Protocol.Wire.Media.{max_video_payload}
use deskhub.Transport.Reassembler.Recovery.{piece}
use deskhub.Transport.Reassembler.Delivery.{joined_pieces}
use deskhub.Transport.Reassembler.Integrity.{PieceFits}
use deskhub.Transport.Packetizer.{chunk, packet_count}

-- The chunks of the packets from `i` on, `n` of them.
unfoldable pub chunks_from : List ℕ → (n i : ℕ) → List (List ℕ)
chunks_from nal zero i = []
chunks_from nal (suc n) i = chunk nal i ∷ chunks_from nal n (suc i)

abbrev pub chunks : List ℕ → List (List ℕ)
chunks nal = chunks_from nal (packet_count nal) 0

pub length-chunks_from : (nal : List ℕ) (n i : ℕ) → length (chunks_from nal n i) ≡ n
unfolding chunks_from
length-chunks_from nal zero i = refl
length-chunks_from nal (suc n) i = ap suc (length-chunks_from nal n (suc i))

piece-chunks_from :
    (nal : List ℕ) (n i k : ℕ) → k < n → piece (chunks_from nal n i) k ≡ chunk nal (i + k)
unfolding chunks_from
piece-chunks_from nal zero i k h = elim h [ ]
piece-chunks_from nal (suc n) i zero h = ap (chunk nal) (omega arith)
piece-chunks_from nal (suc n) i (suc k) h =
    piece-chunks_from nal n (suc i) k (omega (arith, h)) ∙ ap (chunk nal) (omega arith)

-- The piece of a packet is its chunk.
pub piece-chunks :
    (nal : List ℕ) (i : ℕ) → i < packet_count nal → piece (chunks nal) i ≡ chunk nal i
piece-chunks nal i h = piece-chunks_from nal (packet_count nal) 0 i h ∙ ap (chunk nal) (omega arith)

-- The chunks from `i` on are the rest of the frame.
joined-chunks_from :
    (nal : List ℕ) (n i : ℕ)
    → length nal ≤ (i + n) * max_video_payload
    → joined_pieces (chunks_from nal n i) ≡ drop (i * max_video_payload) nal
unfolding chunks_from joined_pieces
joined-chunks_from nal zero i h = sym (drop_of_le (i * max_video_payload) nal (omega (arith, h)))
joined-chunks_from nal (suc n) i h =
    let next : drop (suc i * max_video_payload) nal
        ≡ drop max_video_payload (drop (i * max_video_payload) nal) =
      sym (
        drop-drop max_video_payload (i * max_video_payload) nal
        ∙ ap (λ k. drop k nal) (omega arith)) in
    ap (λ x. chunk nal i ++ x) (joined-chunks_from nal n (suc i) (omega (arith, h)) ∙ next)
    ∙ take-append-drop max_video_payload (drop (i * max_video_payload) nal)

-- The chunks put together are the frame.
pub joined-chunks : (nal : List ℕ) → joined_pieces (chunks nal) ≡ nal
joined-chunks nal = joined-chunks_from nal (packet_count nal) 0 (omega arith)

length-chunk : (nal : List ℕ) (i : ℕ) → i < packet_count nal → PieceFits (chunk nal i)
length-chunk nal i h =
    let rest = drop (i * max_video_payload) nal in
    let size = length-take max_video_payload rest in
    let left = length-drop (i * max_video_payload) nal in
    (omega (arith, h, size, left), omega (arith, size))

chunks_from-All :
    (nal : List ℕ) (n i : ℕ) → i + n ≤ packet_count nal → All PieceFits (chunks_from nal n i)
unfolding chunks_from
chunks_from-All nal zero i h = tt
chunks_from-All nal (suc n) i h =
    (length-chunk nal i (omega (arith, h)), chunks_from-All nal n (suc i) (omega (arith, h)))

-- No chunk is empty, and each fits into a packet.
pub chunks-All : (nal : List ℕ) → All PieceFits (chunks nal)
chunks-All nal = chunks_from-All nal (packet_count nal) 0 (omega arith)
