-- ===== src/Protocol/Wire/Names.antt =====
-- Names and texts on the wire.
pub mod Cutting
use deskhub.Base.{ℕ, zero, suc, ◌+◌, ◌≤◌, ◌≡◌, refl, List, [], ◌∷◌, ◌++◌, arith, length, leb, ◌==◌}
use deskhub.Base.{
  if◌then◌else◌, Bool, not, ◌&&◌, bit_and, get_or, ltb, Bool-cases, take, length-take,
  length-append, ap, inl, inr,
}
use mathlib.Core.List.{append-nil}
use deskhub.Base.Result.{Answer, ok, byte_at, byte_at_of_lt, ◌>>=◌}

-- The loop of `Utf8TruncLen`: steps back while `s[n]` continues a character.
unfoldable pub back_up : List ℕ → ℕ → ℕ
back_up s zero = 0
back_up s (suc n) = if bit_and (get_or s (suc n) 0) 0xC0 == 0x80 then back_up s n else suc n

unfoldable pub utf8_trunc_len : List ℕ → ℕ → ℕ
unfolding back_up
utf8_trunc_len s limit = if leb (length s) limit then length s else back_up s limit

-- `c >= 0x20 && c != 0x7F`
unfoldable pub is_printable : ℕ → Bool
is_printable c = leb 0x20 c && not (c == 0x7F)

-- The loop that appends the printable ones of the `n` bytes from `p + i` on.
unfoldable pub read_printable : List ℕ → ℕ → ℕ → Answer (List ℕ)
unfolding byte_at is_printable
read_printable p i zero = ok []
read_printable p i (suc n) = do
  c ← byte_at p i
  rest ← read_printable p (suc i) n
  ok (if is_printable c then c ∷ rest else rest)

abbrev pub max_client_name_bytes : ℕ
max_client_name_bytes = 64

-- The client name of a Hello or a TermOpen, `len` bytes long, behind `fixed` bytes. A name that is
-- too long or cut off is left empty, and the message is taken all the same.
unfoldable pub read_client_name : List ℕ → ℕ → ℕ → Answer (List ℕ)
unfolding read_printable
read_client_name p fixed len =
    let name_len = if ltb max_client_name_bytes len then 0 else len in
    if ltb (length p) (fixed + name_len) then ok [] else read_printable p fixed name_len

abbrev pub sent_len : List ℕ → ℕ
sent_len name = utf8_trunc_len name max_client_name_bytes

-- What the loop keeps.
unfoldable pub printables : List ℕ → List ℕ
unfolding is_printable
printables [] = []
printables (c ∷ s) = if is_printable c then c ∷ printables s else printables s

pub read_printable_of_le :
    (p : List ℕ) (i n : ℕ) → i + n ≤ length p → (s : List ℕ) × (read_printable p i n ≡ ok s)
unfolding read_printable
read_printable_of_le p i zero h = ([], refl)
read_printable_of_le p i (suc n) h =
    let (c, ec) = byte_at_of_lt p i (omega arith) in
    let (s, es) = read_printable_of_le p (suc i) n (omega arith) in
    (if is_printable c then c ∷ s else s, rw (ec, es))

read_printable-cons :
    (x : ℕ) (p : List ℕ) (i n : ℕ) → read_printable (x ∷ p) (suc i) n ≡ read_printable p i n
unfolding read_printable
read_printable-cons x p i zero = refl
read_printable-cons x p i (suc n) = rw (read_printable-cons x p (suc i) n)

-- Past a prefix of `k` bytes the loop reads the rest.
pub read_printable-skip :
    (pre p : List ℕ) (k n : ℕ)
    → length pre ≡ k
    → read_printable (pre ++ p) k n ≡ read_printable p 0 n
read_printable-skip [] p zero n e = refl
read_printable-skip [] p (suc k) n e = absurd (omega arith)
read_printable-skip (x ∷ pre) p zero n e = absurd (omega arith)
read_printable-skip (x ∷ pre) p (suc k) n e =
    rw (read_printable-cons x (pre ++ p) k n) (read_printable-skip pre p k n (omega arith))

-- A name that is followed by other bytes is read as its printable bytes.
pub read_printable-append :
    (s rest : List ℕ) (n : ℕ) → length s ≡ n → read_printable (s ++ rest) 0 n ≡ ok (printables s)
unfolding read_printable printables
read_printable-append [] rest zero e = refl
read_printable-append [] rest (suc n) e = absurd (omega arith)
read_printable-append (c ∷ s) rest zero e = absurd (omega arith)
read_printable-append (c ∷ s) rest (suc n) e =
    rw (read_printable-cons c (s ++ rest) 0 n, read_printable-append s rest n (omega arith))

back_up-le : (s : List ℕ) (n : ℕ) → back_up s n ≤ n
unfolding back_up
back_up-le s zero = omega arith
back_up-le s (suc n) = ground (arith, back_up-le s n)

pub utf8_trunc_len-le :
    (s : List ℕ) (limit : ℕ)
    → (utf8_trunc_len s limit ≤ limit) × (utf8_trunc_len s limit ≤ length s)
unfolding utf8_trunc_len
utf8_trunc_len-le s limit = ground (arith, back_up-le s limit)

pub read_client_name_total :
    (p : List ℕ) (fixed len : ℕ) → (s : List ℕ) × (read_client_name p fixed len ≡ ok s)
unfolding read_client_name
read_client_name_total p fixed len =
    let n = if ltb max_client_name_bytes len then 0 else len in
    elim (Bool-cases (ltb (length p) (fixed + n))) [
      | inl cut ↦ ([], rw cut)
      | inr whole ↦ let (s, e) = read_printable_of_le p fixed n (ground arith) in (s, rw whole e)
    ]

pub length-sent_name : (name : List ℕ) → length (take (sent_len name) name) ≡ sent_len name
length-sent_name name =
    omega (arith, length-take (sent_len name) name, utf8_trunc_len-le name max_client_name_bytes)

-- A name is read back from behind the fixed bytes.
pub read_client_name-sent :
    (pre name : List ℕ) (k : ℕ)
    → length pre ≡ k
    → read_client_name (pre ++ take (sent_len name) name) k (sent_len name)
      ≡ ok (printables (take (sent_len name) name))
unfolding read_client_name
read_client_name-sent pre name k e = ground (
  arith,
  utf8_trunc_len-le name max_client_name_bytes,
  length-sent_name name,
  length-append pre (take (sent_len name) name),
  read_printable-skip pre (take (sent_len name) name) k (sent_len name),
  ap (λ p. read_printable p 0 (sent_len name)) (append-nil (take (sent_len name) name)),
  read_printable-append (take (sent_len name) name) [] (sent_len name),
)
