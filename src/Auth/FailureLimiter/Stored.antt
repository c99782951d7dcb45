-- ===== src/Auth/FailureLimiter/Stored.antt =====
-- The entry that the limiter has of a viewer, and what a failure does to it.
use deskhub.Base.{
  ℕ, suc, ◌+◌, ◌<◌, ◌≡◌, refl, sym, ap, subst, ◌∙◌, true, false, List, [], ◌∷◌, Option, none, some,
  set, length, arith, leb, if◌then◌else◌, Bool-cases, ◌⊎◌, inl, inr,
}
use deskhub.Auth.PairingTokens.{same_token}
use deskhub.Auth.FailureLimiter.{
  Entry, empty_entry, is_entry_of, allow, is_better, select_loop, note_failure, record_failure,
}

-- The first entry of a viewer, or an empty one.
unfoldable pub stored : (key : List ℕ) (ip : ℕ) → List Entry → Entry
unfolding is_entry_of
stored key ip [] = empty_entry
stored key ip (entry ∷ entries) =
    let rest = stored key ip entries in if is_entry_of key ip entry then entry else rest

pub allow-stored :
    (key : List ℕ) (ip now_us : ℕ) (entries : List Entry)
    → allow key ip now_us entries ≡ leb (stored key ip entries).blocked_until_us now_us
unfolding allow stored
allow-stored key ip now_us [] = grind arith
allow-stored key ip now_us (entry ∷ entries) = elim (Bool-cases (is_entry_of key ip entry)) [
  | inl e ↦ rw e refl
  | inr e ↦ rw e (allow-stored key ip now_us entries)
]

-- The entry is the viewer's own where there is one, else one of another viewer.
abbrev Stands : (key : List ℕ) (ip : ℕ) → List Entry → Entry → Type 0
Stands key ip entries selected =
    (is_entry_of key ip selected ≡ true) × (stored key ip entries ≡ selected)
    ⊎ (is_entry_of key ip selected ≡ false) × (is_entry_of key ip (stored key ip entries) ≡ false)

-- Where an entry of the viewer is written at `place`, it is the one stored then.
abbrev Takes : (key : List ℕ) (ip place : ℕ) → List Entry → Type 0
Takes key ip place entries =
    (entry : Entry)
    → is_entry_of key ip entry ≡ true
    → stored key ip (set entries place entry) ≡ entry

-- The loop ends with a place of these entries.
abbrev Selects : (key : List ℕ) (ip i : ℕ) → List Entry → Option (ℕ × Entry) → Type 0
Selects key ip i entries found =
    (place : ℕ) × (selected : Entry) × (found ≡ some (place + i, selected))
    × Stands key ip entries selected
    × Takes key ip place entries

-- It may keep the one before them where none of them is the viewer's.
abbrev Ends :
    (key : List ℕ) (ip i : ℕ) → Option (ℕ × Entry) → List Entry → Option (ℕ × Entry) → Type 0
Ends key ip i before entries found =
    Selects key ip i entries found
    ⊎ (found ≡ before) × (is_entry_of key ip (stored key ip entries) ≡ false)

at_suc :
    (place i : ℕ) (entry : Entry)
    → ◌≡◌ {A = Option (ℕ × Entry)} (some (place + suc i, entry)) (some (suc place + i, entry))
at_suc place i entry = ap (λ n. some (n, entry)) (omega arith)

at_zero :
    (i : ℕ) (entry : Entry) → ◌≡◌ {A = Option (ℕ × Entry)} (some (i, entry)) (some (0 + i, entry))
at_zero i entry = ap (λ n. some (n, entry)) (omega arith)

later-Ends :
    (key : List ℕ) (ip i : ℕ) (before : Option (ℕ × Entry)) (entry : Entry) (entries : List Entry)
    (found : Option (ℕ × Entry))
    → is_entry_of key ip entry ≡ false
    → Ends key ip (suc i) before entries found
    → Ends key ip i before (entry ∷ entries) found
unfolding stored
later-Ends key ip i before entry entries found other (inl (place, selected, at, stands, takes)) =
    inl (
      suc place,
      selected,
      at ∙ at_suc place i selected,
      rw other stands,
      λ written own. rw other (takes written own),
    )
later-Ends key ip i before entry entries found other (inr (same, none_stored)) =
    inr (same, rw other none_stored)

better-Selects :
    (key : List ℕ) (ip i : ℕ) (entry : Entry) (entries : List Entry) (found : Option (ℕ × Entry))
    → is_entry_of key ip entry ≡ false
    → Ends key ip (suc i) (some (i, entry)) entries found
    → Selects key ip i (entry ∷ entries) found
unfolding stored
better-Selects key ip i entry entries found other (inl (place, selected, at, stands, takes)) = (
  suc place,
  selected,
  at ∙ at_suc place i selected,
  rw other stands,
  λ written own. rw other (takes written own),
)
better-Selects key ip i entry entries found other (inr (same, none_stored)) = (
  0,
  entry,
  same ∙ at_zero i entry,
  inr (other, rw other none_stored),
  λ written own. rw own refl,
)

own-Selects :
    (key : List ℕ) (ip i : ℕ) (entry : Entry) (entries : List Entry)
    → is_entry_of key ip entry ≡ true
    → Selects key ip i (entry ∷ entries) (some (i, entry))
unfolding stored
own-Selects key ip i entry entries own =
    (0, entry, at_zero i entry, inl (own, rw own refl), λ written is_own. rw is_own refl)

select_loop-Ends :
    (key : List ℕ) (ip i : ℕ) (before : Option (ℕ × Entry)) (entries : List Entry)
    → Ends key ip i before entries (select_loop key ip i before entries)
unfolding select_loop stored
select_loop-Ends key ip i before [] = inr (refl, refl)
select_loop-Ends key ip i before (entry ∷ entries) =
    let better = select_loop key ip (suc i) (some (i, entry)) entries in
    let same = select_loop key ip (suc i) before entries in
    elim (Bool-cases (is_entry_of key ip entry)) [
      | inl e ↦
          subst (Ends key ip i before (entry ∷ entries)) (rw e refl)
            (inl (own-Selects key ip i entry entries e))
      | inr e ↦ elim (Bool-cases (is_better entry before)) [
        | inl f ↦ subst (Ends key ip i before (entry ∷ entries)) (rw (e, f) refl) (
            inl (
              better-Selects key ip i entry entries better e
                (select_loop-Ends key ip (suc i) (some (i, entry)) entries)))
        | inr f ↦ subst (Ends key ip i before (entry ∷ entries)) (rw (e, f) refl) (
            later-Ends key ip i before entry entries same e
              (select_loop-Ends key ip (suc i) before entries))
      ]
    ]

-- With nothing selected before, the first entry is taken at least.
select_loop-Selects :
    (key : List ℕ) (ip : ℕ) (entries : List Entry)
    → 0 < length entries
    → Selects key ip 0 entries (select_loop key ip 0 none entries)
unfolding select_loop
select_loop-Selects key ip [] h = absurd (omega (arith, h))
select_loop-Selects key ip (entry ∷ entries) h = elim (Bool-cases (is_entry_of key ip entry)) [
  | inl e ↦
      subst (Selects key ip 0 (entry ∷ entries)) (rw e refl) (own-Selects key ip 0 entry entries e)
  | inr e ↦ subst (Selects key ip 0 (entry ∷ entries)) (rw e refl) (
      better-Selects key ip 0 entry entries _ e
        (select_loop-Ends key ip 1 (some (0, entry)) entries))
]

same_token_refl : (key : List ℕ) → same_token key key ≡ true
unfolding same_token
same_token_refl [] = refl
same_token_refl (b ∷ key) = ground (arith, same_token_refl key)

pub note_failure-own :
    (key : List ℕ) (ip now_us : ℕ) (selected : Entry)
    → is_entry_of key ip (note_failure key ip now_us selected) ≡ true
unfolding note_failure is_entry_of
note_failure-own key ip now_us selected = grind (arith, same_token_refl key)

-- A failure is counted alike for any entry of another viewer.
note_failure-other :
    (key : List ℕ) (ip now_us : ℕ) (a b : Entry)
    → is_entry_of key ip a ≡ false
    → is_entry_of key ip b ≡ false
    → note_failure key ip now_us a ≡ note_failure key ip now_us b
unfolding note_failure
note_failure-other key ip now_us a b h k = rw (h, k) refl

noted :
    (key : List ℕ) (ip now_us : ℕ) (entries : List Entry) (selected : Entry)
    → Stands key ip entries selected
    → note_failure key ip now_us selected ≡ note_failure key ip now_us (stored key ip entries)
noted key ip now_us entries selected (inl (own, same)) = ap (note_failure key ip now_us) (sym same)
noted key ip now_us entries selected (inr (other, none_stored)) =
    note_failure-other key ip now_us selected (stored key ip entries) other none_stored

-- In a table with any slots, a failure is noted in the viewer's own entry, or in one that starts
-- anew where it has none: after it the entry that is found of the viewer is what the failure makes
-- of the one found before.
pub record_failure-stored :
    (key : List ℕ) (ip now_us : ℕ) (entries : List Entry)
    → 0 < length entries
    → stored key ip (record_failure key ip now_us entries)
      ≡ note_failure key ip now_us (stored key ip entries)
unfolding record_failure
record_failure-stored key ip now_us entries h =
    let (place, selected, at, stands, takes) = select_loop-Selects key ip entries h in
    let after = note_failure key ip now_us selected in
    let at' = at ∙ ap (λ n. some (n, selected)) (omega arith) in
    rw (at', record_failure)
      (takes after (note_failure-own key ip now_us selected)
        ∙ noted key ip now_us entries selected stands)
