-- ===== src/Auth/FailureLimiter/Blocking.antt =====
-- The third failure of a viewer in a row.
use deskhub.Base.{
  ℕ, ◌+◌, ◌-◌, ◌^◌, ◌<◌, ◌≤◌, ◌≡◌, refl, ap, ◌∙◌, subst, sym, true, false, List, none, some, set,
  length, length-set, arith, leb,
}
use deskhub.Base.Words.{add64}
use deskhub.Auth.FailureLimiter.{
  Entry, is_entry_of, allow, select_loop, note_failure, record_failure, failure_window_us,
  failure_cooldown_us,
}
use deskhub.Auth.FailureLimiter.Stored.{
  stored, allow-stored, note_failure-own, record_failure-stored,
}

length-record_failure :
    (key : List ℕ) (ip now_us : ℕ) (entries : List Entry)
    → length (record_failure key ip now_us entries) ≡ length entries
unfolding record_failure
length-record_failure key ip now_us entries =
    elim (select_loop key ip 0 none entries)
      as (λ found.
        length (elim found [
          | none ↦ entries
          | some (place, selected) ↦ set entries place (note_failure key ip now_us selected)
        ])
        ≡ length entries) [
          | none ↦ refl
          | some (place, selected) ↦ length-set entries place (note_failure key ip now_us selected)
        ]

-- The viewer has failed `count` times in a row, the last time at `last_us`.
record Failed (key : List ℕ) (ip count last_us : ℕ) (entry : Entry) : Type 0 where
  own : is_entry_of key ip entry ≡ true
  failures : entry.failures ≡ count
  last : entry.last_failure_us ≡ last_us

first-Failed :
    (key : List ℕ) (ip now_us : ℕ) (entry : Entry)
    → is_entry_of key ip entry ≡ false
    → Failed key ip 1 now_us (note_failure key ip now_us entry)
unfolding note_failure
first-Failed key ip now_us entry other = record {
  own = note_failure-own key ip now_us entry;
  failures = ground (arith, other);
  last = ground (arith, other);
}

second-Failed :
    (key : List ℕ) (ip last_us now_us : ℕ) (entry : Entry)
    → Failed key ip 1 last_us entry
    → last_us ≤ now_us
    → now_us - last_us ≤ failure_window_us
    → Failed key ip 2 now_us (note_failure key ip now_us entry)
unfolding note_failure
second-Failed key ip last_us now_us entry f low near = record {
  own = note_failure-own key ip now_us entry;
  failures = ground (arith, f.own, f.failures, f.last, low, near);
  last = ground (arith, f.own, f.failures, f.last, low, near);
}

third-blocked :
    (key : List ℕ) (ip last_us now_us : ℕ) (entry : Entry)
    → Failed key ip 2 last_us entry
    → last_us ≤ now_us
    → now_us - last_us ≤ failure_window_us
    → (note_failure key ip now_us entry).blocked_until_us ≡ add64 now_us failure_cooldown_us
unfolding note_failure
third-blocked key ip last_us now_us entry f low near =
    ground (arith, f.own, f.failures, f.last, low, near)

-- A viewer without an entry that fails three times, each time at most a minute after the last, is
-- then refused until ten seconds after the third failure and not longer, in a table with any slots
-- and any entries of others. The clock does not run backwards between the failures and is not
-- within ten seconds of the end of its 64 bits.
pub allow-third_failure :
    (key : List ℕ) (ip first_us second_us third_us now_us : ℕ) (entries : List Entry)
    → 0 < length entries
    → is_entry_of key ip (stored key ip entries) ≡ false
    → first_us ≤ second_us
    → second_us - first_us ≤ failure_window_us
    → second_us ≤ third_us
    → third_us - second_us ≤ failure_window_us
    → third_us + failure_cooldown_us < 2 ^ 64
    → allow key ip now_us (
        record_failure key ip third_us
          (record_failure key ip second_us (record_failure key ip first_us entries)))
      ≡ leb (third_us + failure_cooldown_us) now_us
unfolding add64
allow-third_failure key ip first_us second_us third_us now_us entries h other low1 near1 low2 near2
      fits =
    let e1 = record_failure key ip first_us entries in
    let e2 = record_failure key ip second_us e1 in
    let len1 = length-record_failure key ip first_us entries in
    let len2 = length-record_failure key ip second_us e1 in
    let s1 = record_failure-stored key ip first_us entries h in
    let s2 = record_failure-stored key ip second_us e1 (omega (arith, h, len1)) in
    let s3 = record_failure-stored key ip third_us e2 (omega (arith, h, len1, len2)) in
    let f1 : Failed key ip 1 first_us (stored key ip e1) =
      subst (Failed key ip 1 first_us) (sym s1)
        (first-Failed key ip first_us (stored key ip entries) other) in
    let f2 : Failed key ip 2 second_us (stored key ip e2) =
      subst (Failed key ip 2 second_us) (sym s2)
        (second-Failed key ip first_us second_us (stored key ip e1) f1 low1 near1) in
    let blocked = third-blocked key ip second_us third_us (stored key ip e2) f2 low2 near2 in
    let until : add64 third_us failure_cooldown_us ≡ third_us + failure_cooldown_us =
      omega (arith, fits) in
    allow-stored key ip now_us (record_failure key ip third_us e2)
    ∙ ap (λ (e : Entry). leb e.blocked_until_us now_us) s3
    ∙ ap (λ n. leb n now_us) (blocked ∙ until)
