-- ===== src/Transport/Packetizer/Sending.antt =====
-- What `SendFrame` gives to `send`.
use deskhub.Base.{
  ℕ, zero, suc, ◌+◌, ◌^◌, ◌≤◌, ◌<◌, ◌≡◌, refl, sym, ap, ◌∙◌, Bool, true, false, ◌||◌, List, [], ◌∷◌,
  ◌++◌, arith, length, ◌==◌, ltb, if◌then◌else◌, replicate, length-replicate, some,
}
use mathlib.Core.List.{append-nil}
use deskhub.Base.Result.{ok}
use deskhub.Protocol.Wire.Media.{max_fec_groups, num_groups}
use deskhub.Transport.Reassembler.Recovery.{piece, group_indices}
use deskhub.Transport.Reassembler.Parity.{group_parity}
use deskhub.Transport.Packetizer.{
  Packetizer, Outgoing, outgoing, packet_count, fec_on, zero_row, video_datagram, fec_datagram,
  add_parity, video_loop, fec_loop, finish_frame, send_frame,
}
use deskhub.Transport.Packetizer.Chunks.{chunks, piece-chunks}
use deskhub.Transport.Packetizer.Rows.{
  add_rows, length-add_rows, piece-add_rows, residues-group_indices,
}
use deskhub.Transport.Packetizer.Datagrams.{
  group_row, CarriesVideo, CarriesFec, Numbered, OutgoingFits, video_datagram-CarriesVideo,
  fec_datagram-CarriesFec,
}

video_loop-step :
    (o : Outgoing) (fec : Bool) (n i : ℕ) (rows : List (List ℕ)) (d : List ℕ)
    → video_datagram o i ≡ ok d
    → let r = video_loop o fec n (suc i) (add_parity o fec i rows) in
      video_loop o fec (suc n) i rows ≡ (r.0, d ∷ r.1)
unfolding video_loop
video_loop-step o fec n i rows d e = rw (e, video_loop)

fec_loop-step :
    (o : Outgoing) (g : ℕ) (row : List ℕ) (rows : List (List ℕ)) (d : List ℕ)
    → fec_datagram o g row ≡ ok d
    → let r = fec_loop o (suc g) rows in fec_loop o g (row ∷ rows) ≡ (r.0, d ∷ r.1)
unfolding fec_loop
fec_loop-step o g row rows d e = rw (e, fec_loop)

abbrev rows_after : Outgoing → Bool → (n i : ℕ) → List (List ℕ) → List (List ℕ)
rows_after o fec n i rows = if fec then add_rows o n i rows else rows

rows_after-step :
    (o : Outgoing) (fec : Bool) (n i : ℕ) (rows : List (List ℕ))
    → rows_after o fec n (suc i) (add_parity o fec i rows) ≡ rows_after o fec (suc n) i rows
unfolding add_parity
rows_after-step o true n i rows = unfold add_rows in refl
rows_after-step o false n i rows = refl

-- Every packet is built, and all are given to `send` in order.
video_loop-Numbered :
    (o : Outgoing) (fec : Bool) (n i : ℕ) (rows : List (List ℕ))
    → OutgoingFits o
    → i + n ≤ o.count
    → (ds : List (List ℕ)) × (video_loop o fec n i rows ≡ (some (rows_after o fec n i rows), ds))
      × (length ds ≡ n)
      × Numbered (CarriesVideo o) i ds
video_loop-Numbered o true zero i rows f h =
    ([], unfold video_loop in unfold add_rows in refl, refl, tt)
video_loop-Numbered o false zero i rows f h = ([], unfold video_loop in refl, refl, tt)
video_loop-Numbered o fec (suc n) i rows f h =
    let (d, built, carries) = video_datagram-CarriesVideo o i f (omega (arith, h)) in
    let (ds, e, l, more) =
      video_loop-Numbered o fec n (suc i) (add_parity o fec i rows) f (omega (arith, h)) in
    (
      d ∷ ds,
      video_loop-step o fec n i rows d built
          ∙ ap (λ r. (r.0, d ∷ r.1)) e
          ∙ ap (λ r. (some r, d ∷ ds)) (rows_after-step o fec n i rows),
      ap suc l,
      (carries, more),
    )

-- Every parity is built, and all are given to `send` in order.
fec_loop-Numbered :
    (o : Outgoing) (g : ℕ) (rows : List (List ℕ))
    → OutgoingFits o
    → g + length rows ≤ num_groups o.count
    → num_groups o.count ≤ max_fec_groups
    → ((k : ℕ) → k < length rows → piece rows k ≡ group_row o (g + k))
    → (ds : List (List ℕ)) × (fec_loop o g rows ≡ (true, ds))
      × (length ds ≡ length rows)
      × Numbered (CarriesFec o) g ds
fec_loop-Numbered o g [] f h few same = ([], unfold fec_loop in refl, refl, tt)
fec_loop-Numbered o g (row ∷ rows) f h few same =
    let here : g + 0 ≡ g = omega arith in
    let row_same : row ≡ group_row o g = same 0 (omega arith) ∙ ap (group_row o) here in
    let (d, built, carries) = fec_datagram-CarriesFec o g f (omega (arith, h)) few in
    let (ds, e, l, more) = fec_loop-Numbered o (suc g) rows f (omega (arith, h)) few (λ k low.
      let next : g + suc k ≡ suc g + k = omega arith in
      same (suc k) (omega (arith, low)) ∙ ap (group_row o) next) in
    (
      d ∷ ds,
      fec_loop-step o g row rows d (ap (fec_datagram o g) row_same ∙ built)
          ∙ ap (λ r. (r.0, d ∷ r.1)) e,
      ap suc l,
      (carries, more),
    )

piece-replicate_lt : (n i : ℕ) (row : List ℕ) → i < n → piece (replicate n row) i ≡ row
piece-replicate_lt zero i row h = elim h [ ]
piece-replicate_lt (suc n) zero row h = refl
piece-replicate_lt (suc n) (suc i) row h = piece-replicate_lt n i row (omega (arith, h))

-- After all packets each row is the parity of its group.
piece-rows :
    (o : Outgoing) (g : ℕ)
    → OutgoingFits o
    → g < num_groups o.count
    → piece (add_rows o o.count 0 (replicate (num_groups o.count) zero_row)) g ≡ group_row o g
piece-rows o g f h =
    piece-add_rows o (chunks o.nal) (λ j low. piece-chunks o.nal j (omega (arith, low, f.count)))
      o.count 0 (replicate (num_groups o.count) zero_row) g
      (length-replicate (num_groups o.count) zero_row) h (omega arith)
    ∙ ap (λ is. group_parity (chunks o.nal) is (piece (replicate (num_groups o.count) zero_row) g))
        (residues-group_indices o.count g h)
    ∙ ap (group_parity (chunks o.nal) (group_indices o.count g))
        (piece-replicate_lt (num_groups o.count) g zero_row h)

-- What is given to `send`: the packets, then the parities where they are on, and the answer is the
-- number of the packets.
pub record Sends (o : Outgoing) (fec : Bool) (r : ℕ × List (List ℕ)) : Type 0 where
  pub answer : r.0 ≡ o.count
  pub packets : List (List ℕ)
  pub parities : List (List ℕ)
  pub all : r.1 ≡ packets ++ parities
  pub every_packet : length packets ≡ o.count
  pub every_parity : length parities ≡ (if fec then num_groups o.count else 0)
  pub packets_carry : Numbered (CarriesVideo o) 0 packets
  pub parities_carry : Numbered (CarriesFec o) 0 parities

loops-Sends :
    (o : Outgoing) (fec : Bool)
    → OutgoingFits o
    → (fec ≡ true → num_groups o.count ≤ max_fec_groups)
    → Sends o fec (
        finish_frame o fec (
          video_loop o fec o.count 0 (if fec then replicate (num_groups o.count) zero_row else [])))
loops-Sends o true f few =
    let start = replicate (num_groups o.count) zero_row in
    let (ds, e, l, carry) = video_loop-Numbered o true o.count 0 start f (omega arith) in
    let rows = add_rows o o.count 0 start in
    let size : length rows ≡ num_groups o.count =
      length-add_rows o o.count 0 start ∙ length-replicate (num_groups o.count) zero_row in
    let (more, e', l', carry') =
      fec_loop-Numbered o 0 rows f (omega (arith, size)) (few refl) (λ k low.
        let same : 0 + k ≡ k = omega arith in
        piece-rows o k f (omega (arith, low, size)) ∙ ap (group_row o) (sym same)) in
    let result : finish_frame o true (video_loop o true o.count 0 start) ≡ (o.count, ds ++ more) =
      ap (finish_frame o true) e
      ∙ (unfold finish_frame in ap (λ r. (if r.0 then o.count else 0, ds ++ r.1)) e') in
    record {
      answer = ap (λ r. r.0) result;
      packets = ds;
      parities = more;
      all = ap (λ r. r.1) result;
      every_packet = l;
      every_parity = l' ∙ size;
      packets_carry = carry;
      parities_carry = carry';
    }
loops-Sends o false f few =
    let (ds, e, l, carry) = video_loop-Numbered o false o.count 0 [] f (omega arith) in
    let result : finish_frame o false (video_loop o false o.count 0 []) ≡ (o.count, ds) =
      ap (finish_frame o false) e ∙ (unfold finish_frame in refl) in
    record {
      answer = ap (λ r. r.0) result;
      packets = ds;
      parities = [];
      all = ap (λ r. r.1) result ∙ sym (append-nil ds);
      every_packet = l;
      every_parity = refl;
      packets_carry = carry;
      parities_carry = tt;
    }

-- A frame that is not empty and has 65535 packets at most, of a session, a number and a time that
-- fit their types, is sent whole: the answer is the number of its packets, and `send` gets, each in
-- a datagram of 1200 bytes at most, first every packet in order with its chunk of the frame, the
-- last one marked as the end, and then, if parities are on and there are 256 groups at most, every
-- group's parity in order, of exactly the packets that the Reassembler counts to the group.
pub send_frame-Sends :
    (p : Packetizer) (nal : List ℕ) (frame_id timestamp_us : ℕ) (idr : Bool)
    → 0 < length nal
    → packet_count nal ≤ 65535
    → p.session_id < 2 ^ 32
    → frame_id < 2 ^ 32
    → timestamp_us < 2 ^ 64
    → Sends
        (outgoing p nal frame_id timestamp_us idr)
        (fec_on p nal)
        (send_frame p nal frame_id timestamp_us idr)
unfolding send_frame
send_frame-Sends p nal frame_id timestamp_us idr some_bytes few sid id_fits time_fits =
    let o = outgoing p nal frame_id timestamp_us idr in
    let goes : (length nal == 0 || ltb 65535 (packet_count nal)) ≡ false =
      ground (arith, some_bytes, few) in
    rw goes (
      loops-Sends o (fec_on p nal)
        (record {
          session_id = sid;
          frame_id = id_fits;
          timestamp_us = time_fits;
          count = refl;
          low_count = few;
        })
        (λ e. ground (arith, e)))
