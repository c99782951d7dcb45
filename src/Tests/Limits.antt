-- ===== src/Tests/Limits.antt =====
-- The limit on failures at concrete inputs.
use deskhub.Base.{ℕ, ◌+◌, ◌≡◌, refl, true, false, List, arith, leb, replicate}
use deskhub.Auth.FailureLimiter.{
  no_entries, is_entry_of, allow, note_failure, record_failure, record_success, failure_cooldown_us,
}
use deskhub.Auth.FailureLimiter.Stored.{stored, record_failure-stored}
use deskhub.Auth.FailureLimiter.Blocking.{allow-third_failure}

abbrev viewer : List ℕ
viewer = replicate 32 5

no_entry : is_entry_of viewer 9 (stored viewer 9 no_entries) ≡ false
unfolding is_entry_of stored
no_entry = refl

success_test :
    allow viewer 9 2 (record_success viewer 9 (record_failure viewer 9 1 no_entries)) ≡ true
unfolding allow record_success record_failure
success_test = grind arith

record_failure-stored_example :
    stored viewer 9 (record_failure viewer 9 1000 no_entries)
    ≡ note_failure viewer 9 1000 (stored viewer 9 no_entries)
record_failure-stored_example = record_failure-stored viewer 9 1000 no_entries (omega arith)

allow-third_failure_example :
    allow viewer 9 5000000 (
      record_failure viewer 9 3000
        (record_failure viewer 9 2000 (record_failure viewer 9 1000 no_entries)))
    ≡ leb (3000 + failure_cooldown_us) 5000000
allow-third_failure_example =
    allow-third_failure viewer 9 1000 2000 3000 5000000 no_entries (omega arith) no_entry
      (omega arith) (omega arith) (omega arith) (omega arith) (omega arith)
