-- ===== src/Protocol/Wire/Sources/Reading.antt =====
-- The reads of the list of shared screens, behind the bytes that were read before.
use mathlib.Core.List.{append_assoc}
use deskhub.Base.{
  ℕ, suc, ◌+◌, ◌^◌, ◌<◌, ◌≡◌, refl, sym, ap, subst, ◌∙◌, true, false, List, [], ◌∷◌, ◌++◌, map,
  arith, length, leb, ltb, All, take, drop, length-append, length-take, take-append, drop-append,
  drop-drop,
}
use deskhub.Base.Result.{ok, byte_at, bytes_at}
use deskhub.Protocol.ByteOrder.{put_u16, get_u16}
use deskhub.Protocol.ByteOrder.Laws.{u16_of-bytes}
use deskhub.Protocol.Wire.Names.{utf8_trunc_len-le}
use deskhub.Protocol.Wire.Sources.{
  SourceInfo, sent_source_len, put_sources, read_source, read_sources, skip_sources,
  max_source_name_bytes,
}

-- The sizes of a screen fit their C++ types.
pub record SourceFits (s : SourceInfo) : Type 0 where
  pub width : s.width < 2 ^ 16
  pub height : s.height < 2 ^ 16

-- A read behind a prefix.
pub byte_at-skip : (pre p : List ℕ) (k : ℕ) → byte_at (pre ++ p) (length pre + k) ≡ byte_at p k
unfolding byte_at
byte_at-skip [] p k = let same : 0 + k ≡ k = omega arith in ap (byte_at p) same
byte_at-skip (b ∷ pre) p k =
    let same : suc (length pre) + k ≡ suc (length pre + k) = omega arith in
    ap (byte_at (b ∷ (pre ++ p))) same ∙ byte_at-skip pre p k

get_u16-skip : (pre p : List ℕ) (k : ℕ) → get_u16 (pre ++ p) (length pre + k) ≡ get_u16 p k
unfolding get_u16
get_u16-skip pre p k =
    let next : length pre + k + 1 ≡ length pre + (k + 1) = omega arith in
    rw (next, byte_at-skip pre p k, byte_at-skip pre p (k + 1)) refl

abbrev sent_name : SourceInfo → List ℕ
sent_name s = take (sent_source_len s.name) s.name

length-sent_name : (s : SourceInfo) → length (sent_name s) ≡ sent_source_len s.name
length-sent_name s = omega (
  arith,
  length-take (sent_source_len s.name) s.name,
  utf8_trunc_len-le s.name max_source_name_bytes,
)

-- What is read of a screen.
abbrev pub sent_source : SourceInfo → SourceInfo
sent_source s = record s { name = take (sent_source_len s.name) s.name }

-- The bytes of one screen.
unfoldable pub entry : SourceInfo → List ℕ
unfolding put_u16
entry s = s.source_id ∷ put_u16 s.width (put_u16 s.height (sent_source_len s.name ∷ sent_name s))

put_sources-cons :
    (s : SourceInfo) (ss : List SourceInfo) (rest : List ℕ)
    → put_sources (s ∷ ss) rest ≡ entry s ++ put_sources ss rest
unfolding put_sources entry put_u16
put_sources-cons s ss rest = refl

length-entry : (s : SourceInfo) → length (entry s) ≡ 6 + sent_source_len s.name
unfolding entry put_u16
length-entry s = omega (arith, length-sent_name s)

module _ (pre : List ℕ) (s : SourceInfo) (rest : List ℕ) where
  bytes_at-name :
      bytes_at (pre ++ (entry s ++ rest)) (length pre + 6) (sent_source_len s.name)
      ≡ ok (sent_name s)
  unfolding bytes_at
  bytes_at-name =
      let n = sent_source_len s.name in
      let fits : leb (length pre + 6 + n) (length (pre ++ (entry s ++ rest))) ≡ true = ground (
        arith,
        length-append pre (entry s ++ rest),
        length-append (entry s) rest,
        length-entry s,
      ) in
      let tail : drop 6 (entry s ++ rest) ≡ sent_name s ++ rest = unfold entry put_u16 in refl in
      let past : drop (length pre + 6) (pre ++ (entry s ++ rest)) ≡ sent_name s ++ rest =
        sym (drop-drop 6 (length pre) (pre ++ (entry s ++ rest)))
        ∙ ap (drop 6) (drop-append pre (entry s ++ rest) (length pre) refl)
        ∙ tail in
      rw (fits, past) (ap ok (take-append (sent_name s) rest n (length-sent_name s)))

  -- What the loops look at before they read a screen.
  ahead :
      (ltb (length (pre ++ (entry s ++ rest))) (length pre + 6) ≡ false)
      × (byte_at (pre ++ (entry s ++ rest)) (length pre + 5) ≡ ok (sent_source_len s.name))
  ahead = (
    ground
        (arith, length-append pre (entry s ++ rest), length-append (entry s) rest, length-entry s),
    byte_at-skip pre (entry s ++ rest) 5 ∙ (unfold entry put_u16 byte_at in refl),
  )

  read_source-entry :
      SourceFits s
      → read_source (pre ++ (entry s ++ rest)) (length pre)
        ≡ ok (sent_source s, length pre + 6 + sent_source_len s.name)
  unfolding read_source
  read_source-entry f =
      let p = pre ++ (entry s ++ rest) in
      let L = length pre in
      let n = sent_source_len s.name in
      let (whole, name_len) = ahead in
      let enough : ltb (length p) (L + 6 + n) ≡ false = ground (
        arith,
        length-append pre (entry s ++ rest),
        length-append (entry s) rest,
        length-entry s,
      ) in
      let at_zero : L ≡ L + 0 = omega arith in
      let id : byte_at p L ≡ ok s.source_id =
        ap (byte_at p) at_zero
        ∙ byte_at-skip pre (entry s ++ rest) 0
        ∙ (unfold entry put_u16 byte_at in refl) in
      let width : get_u16 p (L + 1) ≡ ok s.width =
        get_u16-skip pre (entry s ++ rest) 1
        ∙ (unfold entry put_u16 byte_at get_u16 in ground (arith, u16_of-bytes s.width, f.width)) in
      let height : get_u16 p (L + 3) ≡ ok s.height =
        get_u16-skip pre (entry s ++ rest) 3
        ∙ (unfold entry put_u16 byte_at get_u16 in
            ground (arith, u16_of-bytes s.height, f.height)) in
      rw (whole, name_len, enough, id, width, height, bytes_at-name) refl

module _ (pre : List ℕ) (s : SourceInfo) (ss : List SourceInfo) (rest : List ℕ) where
  -- The screens behind the first one.
  behind : pre ++ put_sources (s ∷ ss) rest ≡ (pre ++ entry s) ++ put_sources ss rest
  behind =
      ap (λ q. pre ++ q) (put_sources-cons s ss rest)
      ∙ sym (append_assoc pre (entry s) (put_sources ss rest))

  offset : length (pre ++ entry s) ≡ length pre + 6 + sent_source_len s.name
  offset = omega (arith, length-append pre (entry s), length-entry s)

-- The loop reads the screens that were written.
pub read_sources-put_sources :
    (pre rest : List ℕ) (ss : List SourceInfo)
    → All SourceFits ss
    → read_sources (pre ++ put_sources ss rest) (length ss) (length pre) ≡ ok (map sent_source ss)
unfolding read_sources
read_sources-put_sources pre rest [] f = refl
read_sources-put_sources pre rest (s ∷ ss) f =
    let first = read_source-entry pre s (put_sources ss rest) f.0 in
    let later : read_sources (pre ++ (entry s ++ put_sources ss rest)) (length ss)
          (length pre + 6 + sent_source_len s.name)
        ≡ ok (map sent_source ss) =
      subst
        (λ p.
          read_sources p (length ss) (length pre + 6 + sent_source_len s.name)
          ≡ ok (map sent_source ss))
        (append_assoc pre (entry s) (put_sources ss rest))
        (subst
          (λ n.
            read_sources ((pre ++ entry s) ++ put_sources ss rest) (length ss) n
            ≡ ok (map sent_source ss))
          (offset pre s ss rest) (read_sources-put_sources (pre ++ entry s) rest ss f.1)) in
    let whole : read_sources (pre ++ (entry s ++ put_sources ss rest)) (suc (length ss))
          (length pre)
        ≡ ok (map sent_source (s ∷ ss)) =
      rw (read_sources, first, later) refl in
    subst
      (λ q. read_sources (pre ++ q) (suc (length ss)) (length pre) ≡ ok (map sent_source (s ∷ ss)))
      (sym (put_sources-cons s ss rest)) whole

-- The offset behind the screens.
unfoldable pub end_of : ℕ → List SourceInfo → ℕ
end_of off [] = off
end_of off (s ∷ ss) = end_of (off + 6 + sent_source_len s.name) ss

pub skip_sources-put_sources :
    (pre rest : List ℕ) (ss : List SourceInfo)
    → skip_sources (pre ++ put_sources ss rest) (length ss) (length pre)
      ≡ ok (end_of (length pre) ss)
unfolding skip_sources end_of
skip_sources-put_sources pre rest [] = refl
skip_sources-put_sources pre rest (s ∷ ss) =
    let (whole, name_len) = ahead pre s (put_sources ss rest) in
    let n = sent_source_len s.name in
    let next : length pre + 6 + n ≡ length pre + (6 + n) = omega arith in
    let later : skip_sources (pre ++ (entry s ++ put_sources ss rest)) (length ss)
          (length pre + (6 + n))
        ≡ ok (end_of (length pre + 6 + n) ss) =
      subst
        (λ k.
          skip_sources (pre ++ (entry s ++ put_sources ss rest)) (length ss) k
          ≡ ok (end_of (length pre + 6 + n) ss))
        next
        (subst
          (λ p.
            skip_sources p (length ss) (length pre + 6 + n) ≡ ok (end_of (length pre + 6 + n) ss))
          (append_assoc pre (entry s) (put_sources ss rest))
          (subst
            (λ k.
              skip_sources ((pre ++ entry s) ++ put_sources ss rest) (length ss) k
              ≡ ok (end_of k ss))
            (offset pre s ss rest) (skip_sources-put_sources (pre ++ entry s) rest ss))) in
    let all : skip_sources (pre ++ (entry s ++ put_sources ss rest)) (suc (length ss)) (length pre)
        ≡ ok (end_of (length pre) (s ∷ ss)) =
      rw (skip_sources, whole, name_len, later) refl in
    subst
      (λ q.
        skip_sources (pre ++ q) (suc (length ss)) (length pre) ≡ ok (end_of (length pre) (s ∷ ss)))
      (sym (put_sources-cons s ss rest)) all

-- The bytes up to there, and the ones behind.
pub put_sources-split :
    (ss : List SourceInfo) (pre rest : List ℕ)
    → (q : List ℕ) × (pre ++ put_sources ss rest ≡ q ++ rest) × (length q ≡ end_of (length pre) ss)
unfolding end_of
put_sources-split [] pre rest = (pre, (unfold put_sources in refl), refl)
put_sources-split (s ∷ ss) pre rest =
    let (q, same, size) = put_sources-split ss (pre ++ entry s) rest in
    (q, behind pre s ss rest ∙ same, size ∙ ap (λ n. end_of n ss) (offset pre s ss rest))
