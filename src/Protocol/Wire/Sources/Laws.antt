-- ===== src/Protocol/Wire/Sources/Laws.antt =====
-- The flags of what a host offers are read back, and no read of the list leaves its payload.
use deskhub.Base.{
  ℕ, zero, suc, ◌+◌, ◌≢◌, ◌≡◌, Bool, true, false, List, [], ◌∷◌, arith, length, ltb, leb,
  if◌then◌else◌, Bool-cases, inl, inr, refl, ◌⊎◌,
}
use deskhub.Base.Result.{Answer, ok, reject, fault, byte_at_of_lt, bytes_at_of_le}
use deskhub.Protocol.ByteOrder.Laws.{get_u16_of_le}
use deskhub.Protocol.Wire.Sources.{
  HostCaps, host_cap_flags, host_caps_of_flags, read_source, read_sources, parse_source_list,
  skip_sources, read_host_name, parse_source_list_host_name,
}

-- The four bits of a host's capabilities are told apart.
caps_of-flags :
    (i t a f : Bool)
    → let caps : HostCaps = record { accepts_input = i; terminal = t; audio = a; files = f } in
      host_caps_of_flags (host_cap_flags caps) ≡ caps
unfolding host_caps_of_flags host_cap_flags
caps_of-flags true true true true = refl
caps_of-flags true true true false = refl
caps_of-flags true true false true = refl
caps_of-flags true true false false = refl
caps_of-flags true false true true = refl
caps_of-flags true false true false = refl
caps_of-flags true false false true = refl
caps_of-flags true false false false = refl
caps_of-flags false true true true = refl
caps_of-flags false true true false = refl
caps_of-flags false true false true = refl
caps_of-flags false true false false = refl
caps_of-flags false false true true = refl
caps_of-flags false false true false = refl
caps_of-flags false false false true = refl
caps_of-flags false false false false = refl

-- The flags give back what they were made of.
pub host_caps_of_flags-host_cap_flags :
    (caps : HostCaps) → host_caps_of_flags (host_cap_flags caps) ≡ caps
host_caps_of_flags-host_cap_flags caps =
    caps_of-flags caps.accepts_input caps.terminal caps.audio caps.files

read_source-ne-fault : (p : List ℕ) (off : ℕ) → read_source p off ≢ fault
unfolding read_source
read_source-ne-fault p off = elim (Bool-cases (ltb (length p) (off + 6))) [
  | inl cut ↦ rw cut (λ e. cc)
  | inr whole ↦
      let (n, en) = byte_at_of_lt p (off + 5) (ground arith) in
      ground (
        arith,
        en,
        byte_at_of_lt p off,
        get_u16_of_le p (off + 1),
        get_u16_of_le p (off + 3),
        bytes_at_of_le p (off + 6) n,
      )
]

Answer-cases {ℓ} : {A : Type ℓ} (x : Answer A) → ((a : A) × (x ≡ ok a)) ⊎ (x ≡ reject) ⊎ (x ≡ fault)
Answer-cases (ok a) = inl (a, refl)
Answer-cases reject = inr (inl refl)
Answer-cases fault = inr (inr refl)

read_sources-ne-fault : (p : List ℕ) (n off : ℕ) → read_sources p n off ≢ fault
unfolding read_sources
read_sources-ne-fault p zero off = λ e. cc
read_sources-ne-fault p (suc n) off = elim (Answer-cases (read_source p off)) [
  | inl ((s, off'), e) ↦ ground (arith, e, read_sources-ne-fault p n off')
  | inr (inl e) ↦ ground (arith, e)
  | inr (inr e) ↦ absurd (read_source-ne-fault p off e)
]

pub parse_source_list-ne-fault : (p : List ℕ) (room : ℕ) → parse_source_list p room ≢ fault
unfolding parse_source_list
parse_source_list-ne-fault [] room = λ e. cc
parse_source_list-ne-fault (count ∷ p) room =
    read_sources-ne-fault (count ∷ p) (if ltb room count then room else count) 1

skip_sources-ne-fault : (p : List ℕ) (n off : ℕ) → skip_sources p n off ≢ fault
unfolding skip_sources
skip_sources-ne-fault p zero off = λ e. cc
skip_sources-ne-fault p (suc n) off = elim (Bool-cases (ltb (length p) (off + 6))) [
  | inl cut ↦ rw cut (λ e. cc)
  | inr whole ↦
      let (k, ek) = byte_at_of_lt p (off + 5) (ground arith) in
      ground (arith, ek, skip_sources-ne-fault p n (off + (6 + k)))
]

read_host_name-ne-fault : (p : List ℕ) (off : ℕ) → read_host_name p off ≢ fault
unfolding read_host_name
read_host_name-ne-fault p off = elim (Bool-cases (leb (length p) off)) [
  | inl out ↦ rw out (λ e. cc)
  | inr inside ↦
      let (n, en) = byte_at_of_lt p off (ground arith) in
      ground (arith, en, bytes_at_of_le p (off + 1) n)
]

pub parse_source_list_host_name-ne-fault : (p : List ℕ) → parse_source_list_host_name p ≢ fault
unfolding parse_source_list_host_name
parse_source_list_host_name-ne-fault [] = λ e. cc
parse_source_list_host_name-ne-fault (count ∷ p) =
    elim (Answer-cases (skip_sources (count ∷ p) count 1)) [
      | inl (off, e) ↦ rw e (read_host_name-ne-fault (count ∷ p) off)
      | inr (inl e) ↦ rw e (λ e. cc)
      | inr (inr e) ↦ absurd (skip_sources-ne-fault (count ∷ p) count 1 e)
    ]
