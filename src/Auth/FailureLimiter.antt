-- ===== src/Auth/FailureLimiter.antt =====
-- core/src/auth/FailureLimiter.cpp: how often a viewer may fail to sign in.
pub mod Stored
pub mod Blocking
use deskhub.Base.{
  ℕ, zero, suc, ◌+◌, ◌-◌, Bool, true, false, not, ◌&&◌, ◌||◌, List, [], ◌∷◌, Option, none, some,
  set, replicate, ltb, leb, ◌==◌, if◌then◌else◌,
}
use deskhub.Base.Words.{add64}
use deskhub.Auth.PairingTokens.{same_token}

abbrev pub failure_limit : ℕ
failure_limit = 3

abbrev pub failure_window_us : ℕ
failure_window_us = 60000000

abbrev pub failure_cooldown_us : ℕ
failure_cooldown_us = 10000000

abbrev pub failure_slots : ℕ
failure_slots = 64

pub record Entry : Type 0 where
  pub key : List ℕ
  pub ip : ℕ
  pub failures : ℕ
  pub last_failure_us : ℕ
  pub blocked_until_us : ℕ
  pub occupied : Bool

-- `Entry{}`; a key has 32 bytes, and the one of an empty entry is never looked at.
abbrev pub empty_entry : Entry
empty_entry = record {
  key = [];
  ip = 0;
  failures = 0;
  last_failure_us = 0;
  blocked_until_us = 0;
  occupied = false;
}

-- `entries_` of a new limiter, and what `Clear` leaves.
abbrev pub no_entries : List Entry
no_entries = replicate failure_slots empty_entry

unfoldable pub is_entry_of : (key : List ℕ) (ip : ℕ) → Entry → Bool
is_entry_of key ip entry = entry.occupied && (entry.ip == ip) && same_token entry.key key

unfoldable pub allow : (key : List ℕ) (ip now_us : ℕ) → List Entry → Bool
unfolding is_entry_of
allow key ip now_us [] = true
allow key ip now_us (entry ∷ entries) =
    let rest = allow key ip now_us entries in
    if is_entry_of key ip entry then leb entry.blocked_until_us now_us else rest

-- Whether an entry is taken in place of the one selected so far: an empty one in place of one in
-- use, else the one that failed longer ago.
abbrev pub is_better : Entry → Option (ℕ × Entry) → Bool
is_better entry none = true
is_better entry (some (place, selected)) =
    if entry.occupied
    then selected.occupied && ltb entry.last_failure_us selected.last_failure_us
    else selected.occupied

-- The place and the value of the entry selected; `i` is the place of the next one.
unfoldable pub select_loop :
    (key : List ℕ) (ip i : ℕ) → Option (ℕ × Entry) → List Entry → Option (ℕ × Entry)
unfolding is_entry_of
select_loop key ip i selected [] = selected
select_loop key ip i selected (entry ∷ entries) =
    let better = select_loop key ip (suc i) (some (i, entry)) entries in
    let same = select_loop key ip (suc i) selected entries in
    if is_entry_of key ip entry
    then some (i, entry)
    else if is_better entry selected
    then better
    else same

-- What a failure makes of the entry selected.
unfoldable pub note_failure : (key : List ℕ) (ip now_us : ℕ) → Entry → Entry
unfolding is_entry_of
note_failure key ip now_us selected =
    let is_stale =
      not (is_entry_of key ip selected)
      || ltb now_us selected.last_failure_us
      || ltb failure_window_us (now_us - selected.last_failure_us) in
    let entry : Entry =
      if is_stale then record empty_entry { key = key; ip = ip; occupied = true } else selected in
    if leb failure_limit (entry.failures + 1)
    then record entry {
      last_failure_us = now_us;
      failures = 0;
      blocked_until_us = add64 now_us failure_cooldown_us;
    }
    else record entry { last_failure_us = now_us; failures = entry.failures + 1 }

unfoldable pub record_failure : (key : List ℕ) (ip now_us : ℕ) → List Entry → List Entry
unfolding select_loop note_failure
record_failure key ip now_us entries = elim (select_loop key ip 0 none entries) [
  | none ↦ entries
  | some (place, selected) ↦ set entries place (note_failure key ip now_us selected)
]

unfoldable pub record_success : (key : List ℕ) (ip : ℕ) → List Entry → List Entry
unfolding is_entry_of
record_success key ip [] = []
record_success key ip (entry ∷ entries) =
    let rest = record_success key ip entries in
    if is_entry_of key ip entry then empty_entry ∷ entries else entry ∷ rest
