-- ===== src/Transport/Link.antt =====
-- The Packetizer of one end and the Reassembler of the other: what is lost, repeated or late on the
-- way changes no byte of a frame that is handed out.
use deskhub.Base.{
  ℕ, zero, suc, ◌+◌, ◌^◌, ◌≤◌, ◌<◌, ◌≡◌, ◌≢◌, refl, sym, ap, ◌∙◌, subst, Bool, true, ◌||◌, List, [],
  ◌∷◌, ◌++◌, arith, length, ◌==◌, ltb, All, get_elem?, Bool-cases, ◌⊎◌, inl, inr, some,
}
use deskhub.Base.Result.{Answer, ok}
use deskhub.Protocol.MsgType
use deskhub.Protocol.Wire.{CommonHeader, parse_common_header, payload_of}
use deskhub.Protocol.Wire.Media.{
  VideoPacketView, FecPacketView, parse_video_packet, parse_fec_packet,
}
use deskhub.Transport.Reassembler.State.{Frame, new_reassembler}
use deskhub.Transport.Reassembler.Delivery.{joined_pieces}
use deskhub.Transport.Reassembler.Integrity.{no_parity}
use deskhub.Transport.Reassembler.Run.{
  Call, push_call, push_fec_call, pop_call, nack_call, fps_call, rtt_call, loss_call, gap_call,
  CallFits, run,
}
use deskhub.Transport.Reassembler.Restore.{VideoSent, FecSent, CallSent, run-restored}
use deskhub.Transport.Packetizer.{Packetizer, Outgoing, outgoing, packet_count, send_frame}
use deskhub.Transport.Packetizer.Chunks.{
  chunks, length-chunks_from, piece-chunks, joined-chunks, chunks-All,
}
use deskhub.Transport.Packetizer.Datagrams.{
  CarriesVideo, CarriesFec, Numbered, video_view, fec_view,
}
use deskhub.Transport.Packetizer.Sending.{send_frame-Sends}

-- What was sent: the settings, and each frame under its number.
pub record Stream : Type 0 where
  pub packetizer : Packetizer
  pub nals : ℕ → List ℕ
  pub times : ℕ → ℕ
  pub idrs : ℕ → Bool
  pub session_id : packetizer.session_id < 2 ^ 32
  pub times_fit : (id : ℕ) → times id < 2 ^ 64

-- The datagrams of the frame `id`.
abbrev pub sent_datagrams : Stream → ℕ → List (List ℕ)
sent_datagrams x id = (send_frame x.packetizer (x.nals id) id (x.times id) (x.idrs id)).1

-- The packet is read from a datagram of some frame.
pub record ReadFrom {A : Type 0} (x : Stream) (type : ℕ) (parse : CommonHeader → List ℕ → Answer A)
    (m : A) : Type 0 where
  pub id : ℕ
  pub id_fits : id < 2 ^ 32
  pub place : ℕ
  pub d : List ℕ
  pub found : get_elem? (sent_datagrams x id) place ≡ some d
  pub header : CommonHeader
  pub header_read : parse_common_header d ≡ ok header
  pub header_type : header.type ≡ type
  pub message_read : parse header (payload_of d) ≡ ok m

-- What is pushed was read from a datagram that was sent; any of them may come, in any order, any
-- number of times.
abbrev pub CallRead : Stream → Call → Type 0
CallRead x (push_call pkt now_us) = ReadFrom x MsgType.video_packet parse_video_packet pkt
CallRead x (push_fec_call pkt now_us) = ReadFrom x MsgType.fec_packet parse_fec_packet pkt
CallRead x (pop_call now_us) = Unit
CallRead x (nack_call now_us rtt_us room) = Unit
CallRead x (fps_call fps) = Unit
CallRead x (rtt_call rtt_us) = Unit
CallRead x loss_call = Unit
CallRead x gap_call = Unit

-- A datagram in the one list or in the other, and its number.
Numbered-append :
    (P Q : ℕ → List ℕ → Type 0) (i k g : ℕ) (xs ys : List (List ℕ)) (d : List ℕ)
    → Numbered P i xs
    → Numbered Q g ys
    → get_elem? (xs ++ ys) k ≡ some d
    → ((n : ℕ) × (n < i + length xs) × P n d) ⊎ ((n : ℕ) × (n < g + length ys) × Q n d)
Numbered-append P Q i k g [] [] d hp hq e = absurd (cc)
Numbered-append P Q i zero g [] (b ∷ ys) d hp hq e = inr (g, omega arith, subst (Q g) (cc) hq.0)
Numbered-append P Q i (suc k) g [] (b ∷ ys) d hp hq e =
    elim (Numbered-append P Q i k (suc g) [] ys d tt hq.1 e) [
      | inl (n, h, p) ↦ inl (n, h, p)
      | inr (n, h, q) ↦ inr (n, omega (arith, h), q)
    ]
Numbered-append P Q i zero g (a ∷ xs) ys d hp hq e = inl (i, omega arith, subst (P i) (cc) hp.0)
Numbered-append P Q i (suc k) g (a ∷ xs) ys d hp hq e =
    elim (Numbered-append P Q (suc i) k g xs ys d hp.1 hq e) [
      | inl (n, h, p) ↦ inl (n, omega (arith, h), p)
      | inr (n, h, q) ↦ inr (n, h, q)
    ]

get_elem?-nil : (k : ℕ) (d : List ℕ) → get_elem? [] k ≢ some d
get_elem?-nil k d e = cc

abbrev frame_sent : Stream → ℕ → Outgoing
frame_sent x id = outgoing x.packetizer (x.nals id) id (x.times id) (x.idrs id)

-- Whether a frame is refused; then no datagram of it was sent.
abbrev refused : List ℕ → Bool
refused nal = length nal == 0 || ltb 65535 (packet_count nal)

send_frame_refused : (x : Stream) (id : ℕ) → refused (x.nals id) ≡ true → sent_datagrams x id ≡ []
unfolding send_frame
send_frame_refused x id e = rw (e, sent_datagrams) refl

-- A datagram that was sent carries a packet or a parity.
sent_datagrams-carry :
    (x : Stream) (id k : ℕ) (d : List ℕ)
    → id < 2 ^ 32
    → get_elem? (sent_datagrams x id) k ≡ some d
    → let o = frame_sent x id in
      (o.count < 2 ^ 16)
      × (((i : ℕ) × (i < o.count) × CarriesVideo o i d) ⊎ ((g : ℕ) × CarriesFec o g d))
sent_datagrams-carry x id k d fits e = elim (Bool-cases (refused (x.nals id))) [
  | inl r ↦ absurd (
      let gone = ap (λ ds. get_elem? ds k) (send_frame_refused x id r) in
      get_elem?-nil k d (sym gone ∙ e))
  | inr r ↦
      let o = frame_sent x id in
      let few : o.count ≤ 65535 = ground (arith, r) in
      let s =
        send_frame-Sends x.packetizer (x.nals id) id (x.times id) (x.idrs id) (ground (arith, r))
          few x.session_id fits (x.times_fit id) in
      (
        omega (arith, few),
        elim (Numbered-append (CarriesVideo o) (CarriesFec o) 0 k 0 s.packets s.parities d
            s.packets_carry s.parities_carry (ap (λ ds. get_elem? ds k) (sym s.all) ∙ e)) [
              | inl (i, h, c) ↦ inl (i, omega (arith, h, s.every_packet), c)
              | inr (g, h, c) ↦ inr (g, c)
            ],
      )
]

ok-injective : {A : Type 0} (a b : A) (x : Answer A) → x ≡ ok a → x ≡ ok b → a ≡ b
ok-injective a b x e e' = cc

-- A packet that is read from a datagram is one that was sent.
ReadFrom-VideoSent :
    (x : Stream) (pkt : VideoPacketView)
    → ReadFrom x MsgType.video_packet parse_video_packet pkt
    → (pkt.hdr.pkt_count < 2 ^ 16) × VideoSent (chunks (x.nals pkt.hdr.frame_id)) pkt
ReadFrom-VideoSent x pkt r =
    let o = frame_sent x r.id in
    let (few, c) = sent_datagrams-carry x r.id r.place r.d r.id_fits r.found in
    elim c [
      | inl (i, h, c) ↦
          let same_header = ok-injective _ _ (parse_common_header r.d) r.header_read c.header in
          let same : video_view o i ≡ pkt =
            ok-injective _ _ (parse_video_packet r.header (payload_of r.d))
              (ap (λ h. parse_video_packet h (payload_of r.d)) same_header ∙ c.message)
              r.message_read in
          subst
            (λ pkt. (pkt.hdr.pkt_count < 2 ^ 16) × VideoSent (chunks (x.nals pkt.hdr.frame_id)) pkt)
            same
            (
              few,
              record {
                pkt_count = sym (length-chunks_from (x.nals r.id) (packet_count (x.nals r.id)) 0);
                payload = sym (piece-chunks (x.nals r.id) i h);
              },
            )
      | inr (g, c) ↦
          let same_header = ok-injective _ _ (parse_common_header r.d) r.header_read c.header in
          absurd (omega (arith, ap (λ h. h.type) same_header, r.header_type))
    ]

ReadFrom-FecSent :
    (x : Stream) (pkt : FecPacketView)
    → ReadFrom x MsgType.fec_packet parse_fec_packet pkt
    → (pkt.hdr.pkt_count < 2 ^ 16) × FecSent (chunks (x.nals pkt.hdr.frame_id)) pkt
unfolding no_parity
ReadFrom-FecSent x pkt r =
    let o = frame_sent x r.id in
    let (few, c) = sent_datagrams-carry x r.id r.place r.d r.id_fits r.found in
    elim c [
      | inl (i, h, c) ↦
          let same_header = ok-injective _ _ (parse_common_header r.d) r.header_read c.header in
          absurd (omega (arith, ap (λ h. h.type) same_header, r.header_type))
      | inr (g, c) ↦
          let same_header = ok-injective _ _ (parse_common_header r.d) r.header_read c.header in
          let same : fec_view o g ≡ pkt =
            ok-injective _ _ (parse_fec_packet r.header (payload_of r.d))
              (ap (λ h. parse_fec_packet h (payload_of r.d)) same_header ∙ c.message)
              r.message_read in
          let size : length (chunks (x.nals r.id)) ≡ o.count =
            length-chunks_from (x.nals r.id) (packet_count (x.nals r.id)) 0 in
          subst
            (λ pkt. (pkt.hdr.pkt_count < 2 ^ 16) × FecSent (chunks (x.nals pkt.hdr.frame_id)) pkt)
            same (few, record { pkt_count = sym size; parity = rw size refl })
    ]

-- What is read is what was sent, call by call.
CallRead-CallSent :
    (x : Stream) (call : Call)
    → CallRead x call
    → CallFits call × CallSent (λ id. chunks (x.nals id)) call
CallRead-CallSent x (push_call pkt now_us) r = ReadFrom-VideoSent x pkt r
CallRead-CallSent x (push_fec_call pkt now_us) r = ReadFrom-FecSent x pkt r
CallRead-CallSent x (pop_call now_us) r = (tt, tt)
CallRead-CallSent x (nack_call now_us rtt_us room) r = (tt, tt)
CallRead-CallSent x (fps_call fps) r = (tt, tt)
CallRead-CallSent x (rtt_call rtt_us) r = (tt, tt)
CallRead-CallSent x loss_call r = (tt, tt)
CallRead-CallSent x gap_call r = (tt, tt)

calls-sent :
    (x : Stream) (calls : List Call)
    → All (CallRead x) calls
    → All CallFits calls × All (CallSent (λ id. chunks (x.nals id))) calls
calls-sent x [] r = (tt, tt)
calls-sent x (call ∷ calls) r =
    let (fits, sent) = CallRead-CallSent x call r.0 in
    let (all_fit, all_sent) = calls-sent x calls r.1 in ((fits, all_fit), (sent, all_sent))

frames-joined :
    (x : Stream) (frames : List Frame)
    → All (λ frame. frame.nal ≡ joined_pieces (chunks (x.nals frame.frame_id))) frames
    → All (λ frame. frame.nal ≡ x.nals frame.frame_id) frames
frames-joined x [] h = tt
frames-joined x (frame ∷ frames) h =
    (h.0 ∙ joined-chunks (x.nals frame.frame_id), frames-joined x frames h.1)

-- Let frames be sent by one Packetizer with a 32-bit session, each under a 32-bit number with a
-- 64-bit time, and let a new Reassembler get packets read from the datagrams that were sent, in
-- whatever order, any of them lost or repeated, between calls of its other operations. Then each
-- frame that it hands out has exactly the bytes that were sent under its number, also where packets
-- of it were lost and made again from the parities.
pub stream-restored :
    (x : Stream) (frame_interval_us : ℕ) (calls : List Call)
    → All (CallRead x) calls
    → All
        (λ frame. frame.nal ≡ x.nals frame.frame_id)
        (run (new_reassembler frame_interval_us) calls).0
stream-restored x frame_interval_us calls r =
    let (fits, sent) = calls-sent x calls r in
    frames-joined x (run (new_reassembler frame_interval_us) calls).0 (
      run-restored (λ id. chunks (x.nals id)) frame_interval_us calls (λ id. chunks-All (x.nals id))
        fits sent)
