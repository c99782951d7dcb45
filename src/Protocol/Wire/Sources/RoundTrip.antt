-- ===== src/Protocol/Wire/Sources/RoundTrip.antt =====
-- A viewer reads from a SourceList what the host wrote: the screens, the host's name and what it
-- offers.
use deskhub.Base.{
  ℕ, ◌+◌, ◌≤◌, ◌<◌, ◌≡◌, ◌≢◌, refl, sym, ap, subst, ◌∙◌, false, not, ◌&&◌, ◌||◌, ◌⊎◌, List, [], ◌∷◌,
  ◌++◌, map, arith, length, leb, ltb, ◌==◌, All, All-take, take, drop, length-take, length-append,
  take_of_le, drop-append, drop-drop, Bool-cases, inl, inr,
}
use deskhub.Base.Result.{ok, byte_at, bytes_at, bytes_at_of_le}
use deskhub.Protocol.MsgType
use deskhub.Protocol.Wire.{CommonHeader, control_chan, datagram}
use deskhub.Protocol.Wire.Header.{Delivers, deliver, header_of}
use deskhub.Protocol.Wire.Names.{sent_len, is_printable, utf8_trunc_len-le, length-sent_name}
use deskhub.Protocol.Wire.Names.Cutting.{IsByte, CutsAt, utf8_trunc_len-CutsAt}
use deskhub.Protocol.Wire.Sources.{
  SourceInfo, HostCaps, host_cap_flags, host_caps_of_flags, sent_source_len, put_sources,
  source_list_payload, build_source_list, parse_source_list, blank_controls, read_host_name,
  parse_source_list_host_name, max_sources,
}
use deskhub.Protocol.Wire.Sources.Laws.{host_caps_of_flags-host_cap_flags}
use deskhub.Protocol.Wire.Sources.Reading.{
  byte_at-skip, SourceFits, sent_source, read_sources-put_sources, skip_sources-put_sources,
  put_sources-split, end_of,
}

-- A screen as the viewer has it: the same but for its name, which is cut.
pub record Received (s r : SourceInfo) : Type 0 where
  pub source_id : r.source_id ≡ s.source_id
  pub width : r.width ≡ s.width
  pub height : r.height ≡ s.height
  pub cut : ℕ
  pub cuts : CutsAt 64 s.name cut
  pub name : r.name ≡ take cut s.name

abbrev pub AllReceived : List SourceInfo → List SourceInfo → Type 0
AllReceived [] [] = Unit
AllReceived (s ∷ ss) (r ∷ rs) = Received s r × AllReceived ss rs
AllReceived [] (r ∷ rs) = ⊥
AllReceived (s ∷ ss) [] = ⊥

-- A text with blanks for the bytes that cannot be shown.
pub data Blanked : List ℕ → List ℕ → Type 0 where
  end : Blanked [] []
  keep : {c : ℕ} {s out : List ℕ} → 0x20 ≤ c → c ≢ 0x7F → Blanked s out → Blanked (c ∷ s) (c ∷ out)
  blank :
      {c : ℕ} {s out : List ℕ}
      → (c < 0x20) ⊎ (c ≡ 0x7F)
      → Blanked s out
      → Blanked (c ∷ s) (0x20 ∷ out)

blank_controls-Blanked : (s : List ℕ) → Blanked s (blank_controls s)
unfolding blank_controls is_printable
blank_controls-Blanked [] = end
blank_controls-Blanked (c ∷ s) = elim (Bool-cases (leb 0x20 c && not (c == 0x7F))) [
  | inl e ↦ rw e (keep (ground (arith, e)) (λ h. ground (arith, e, h)) (blank_controls-Blanked s))
  | inr e ↦ rw e (blank (ground (arith, e)) (blank_controls-Blanked s))
]

AllReceived-sent :
    (ss : List SourceInfo) → All (λ s. All IsByte s.name) ss → AllReceived ss (map sent_source ss)
AllReceived-sent [] h = tt
AllReceived-sent (s ∷ ss) h = (
  record {
    source_id = refl;
    width = refl;
    height = refl;
    cut = sent_source_len s.name;
    cuts = utf8_trunc_len-CutsAt s.name 64 h.0;
    name = refl;
  },
  AllReceived-sent ss h.1,
)

-- The list has the first eight of the screens, behind their number.
payload-take :
    (sources : List SourceInfo) (host_name : List ℕ)
    → let shown = take 8 sources in
      source_list_payload sources host_name
      ≡ length shown ∷ put_sources shown (sent_len host_name ∷ take (sent_len host_name) host_name)
unfolding source_list_payload
payload-take sources host_name = elim (Bool-cases (ltb (length sources) max_sources)) [
  | inl e ↦
      let few : length sources ≤ 8 = ground (arith, e) in
      rw (e, take_of_le 8 sources few, take_of_le (length sources) sources (omega arith)) refl
  | inr e ↦
      let size : length (take 8 sources) ≡ 8 = ground (arith, e, length-take 8 sources) in
      rw (e, size) refl
]

module _ (sources : List SourceInfo) (host_name : List ℕ) where
  parse_source_list-payload :
      (room : ℕ)
      → All SourceFits sources
      → 8 ≤ room
      → parse_source_list (source_list_payload sources host_name) room
        ≡ ok (map sent_source (take 8 sources))
  unfolding parse_source_list
  parse_source_list-payload room f h =
      let shown = take 8 sources in
      let few : ltb room (length shown) ≡ false = ground (arith, h, length-take 8 sources) in
      rw (payload-take sources host_name, few)
        (read_sources-put_sources (length shown ∷ []) _ shown (All-take SourceFits 8 sources f))

  read_host_name-sent :
      (q : List ℕ)
      → read_host_name (q ++ (sent_len host_name ∷ take (sent_len host_name) host_name)) (length q)
        ≡ ok (blank_controls (take (sent_len host_name) host_name))
  unfolding read_host_name
  read_host_name-sent q =
      let n = sent_len host_name in
      let name = take n host_name in
      let size = length-append q (n ∷ name) in
      let sent = length-sent_name host_name in
      let at_zero : length q ≡ length q + 0 = omega arith in
      let there : leb (length (q ++ (n ∷ name))) (length q) ≡ false = ground (arith, size) in
      let name_len : byte_at (q ++ (n ∷ name)) (length q) ≡ ok n =
        ap (byte_at (q ++ (n ∷ name))) at_zero
        ∙ byte_at-skip q (n ∷ name) 0
        ∙ (unfold byte_at in refl) in
      let whole : (ltb 64 n || ltb (length (q ++ (n ∷ name))) (length q + 1 + n)) ≡ false =
        ground (arith, size, sent, utf8_trunc_len-le host_name 64) in
      let past : drop (length q + 1) (q ++ (n ∷ name)) ≡ name =
        sym (drop-drop 1 (length q) (q ++ (n ∷ name)))
        ∙ ap (drop 1) (drop-append q (n ∷ name) (length q) refl) in
      let bytes : bytes_at (q ++ (n ∷ name)) (length q + 1) n ≡ ok name =
        bytes_at_of_le (q ++ (n ∷ name)) (length q + 1) n (omega (arith, size, sent))
        ∙ ap ok (ap (take n) past ∙ take_of_le n name (omega (arith, sent))) in
      rw (there, name_len, whole, bytes) refl

  parse_source_list_host_name-payload :
      parse_source_list_host_name (source_list_payload sources host_name)
      ≡ ok (blank_controls (take (sent_len host_name) host_name))
  unfolding parse_source_list_host_name
  parse_source_list_host_name-payload =
      let shown = take 8 sources in
      let rest = sent_len host_name ∷ take (sent_len host_name) host_name in
      let (q, same, size) = put_sources-split shown (length shown ∷ []) rest in
      rw (payload-take sources host_name, skip_sources-put_sources (length shown ∷ []) rest shown)
        (subst
          (λ p.
            read_host_name p (end_of 1 shown)
            ≡ ok (blank_controls (take (sent_len host_name) host_name)))
          (sym same)
          (subst
            (λ k.
              read_host_name (q ++ rest) k
              ≡ ok (blank_controls (take (sent_len host_name) host_name)))
            size (read_host_name-sent q)))

-- The number of bytes of the list, with the header.
abbrev pub source_list_size : List SourceInfo → List ℕ → ℕ
source_list_size sources host_name = 8 + length (source_list_payload sources host_name)

-- A SourceList of screens whose sizes fit their types, with names of bytes and a buffer that has
-- room for it, is delivered. A viewer with room for eight screens has the first eight, each with
-- its name cut to at most 64 bytes, all of it where it is short enough and else as much as fits and
-- does not part a character; it has the host's name, cut alike, with blanks for what cannot be
-- shown; and it reads from the flags of the header what the host offers.
pub parse_source_list-build_source_list :
    (out_size room : ℕ) (sources : List SourceInfo) (caps : HostCaps) (host_name : List ℕ)
    → All SourceFits sources
    → All (λ s. All IsByte s.name) sources
    → All IsByte host_name
    → 8 ≤ room
    → source_list_size sources host_name ≤ out_size
    → let built = build_source_list out_size sources caps host_name in
      (h : CommonHeader) × (screens : List SourceInfo) × (n : ℕ) × (name : List ℕ) × (h.type
        ≡ MsgType.source_list)
      × (host_caps_of_flags h.flags ≡ caps)
      × AllReceived (take 8 sources) screens
      × CutsAt 64 host_name n
      × Blanked (take n host_name) name
      × Delivers built h
          (source_list_size sources host_name)
          (λ p. parse_source_list p room)
          screens
      × Delivers built h (source_list_size sources host_name) parse_source_list_host_name name
unfolding build_source_list
parse_source_list-build_source_list out_size room sources caps host_name f bytes name_bytes h
      space =
    let payload = source_list_payload sources host_name in
    let built = build_source_list out_size sources caps host_name in
    let flags = host_cap_flags caps in
    let built_ok : built ≡ ok (datagram MsgType.source_list flags control_chan 0 payload) =
      ground (arith, space) in
    (
      header_of MsgType.source_list flags control_chan 0,
      map sent_source (take 8 sources),
      sent_len host_name,
      blank_controls (take (sent_len host_name) host_name),
      refl,
      host_caps_of_flags-host_cap_flags caps,
      AllReceived-sent (take 8 sources) (All-take (λ s. All IsByte s.name) 8 sources bytes),
      utf8_trunc_len-CutsAt host_name 64 name_bytes,
      blank_controls-Blanked (take (sent_len host_name) host_name),
      deliver built MsgType.source_list flags control_chan 0 _ payload _ _ (omega arith) built_ok
          refl (parse_source_list-payload sources host_name room f h),
      deliver built MsgType.source_list flags control_chan 0 _ payload _ _ (omega arith) built_ok
          refl (parse_source_list_host_name-payload sources host_name),
    )
