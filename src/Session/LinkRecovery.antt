-- ===== src/Session/LinkRecovery.antt =====
-- core/src/session/LinkRecovery.cpp: how often a link is kept alive, and when it is tried again.
pub mod Delays
use deskhub.Base.{
  ℕ, zero, suc, ◌+◌, ◌-◌, ◌*◌, ◌/◌, ◌%◌, ◌^◌, Bool, true, false, not, ◌&&◌, ltb, leb, ◌==◌,
  if◌then◌else◌,
}

abbrev pub keepalives_per_idle_timeout : ℕ
keepalives_per_idle_timeout = 3

abbrev pub min_keepalive_interval_us : ℕ
min_keepalive_interval_us = 1000000

abbrev pub reconnect_first_delay_us : ℕ
reconnect_first_delay_us = 500000

abbrev pub reconnect_max_delay_us : ℕ
reconnect_max_delay_us = 5000000

unfoldable pub keepalive_interval_us : ℕ → ℕ
keepalive_interval_us idle_timeout_ms =
    let idle_us = idle_timeout_ms * 1000 % 2 ^ 64 in
    let third = idle_us / keepalives_per_idle_timeout in
    let interval =
      if ltb third min_keepalive_interval_us then min_keepalive_interval_us else third in
    let half = idle_us / 2 in
    let bounded = if not (half == 0) && ltb half interval then half else interval in
    if idle_us == 0 then min_keepalive_interval_us else if bounded == 0 then 1 else bounded

unfoldable pub keepalive_due : (now_us last_sent_us interval_us : ℕ) → Bool
keepalive_due now_us last_sent_us interval_us =
    if leb now_us last_sent_us then false else leb interval_us (now_us - last_sent_us)

-- The loop that doubles: `attempts` rounds are left.
unfoldable pub double_delay : (attempts delay : ℕ) → ℕ
double_delay zero delay = delay
double_delay (suc attempts) delay =
    let rest = double_delay attempts (delay * 2 % 2 ^ 64) in
    if ltb delay reconnect_max_delay_us then rest else delay

unfoldable pub reconnect_delay_us : ℕ → ℕ
unfolding double_delay
reconnect_delay_us attempt =
    let delay = double_delay attempt reconnect_first_delay_us in
    if ltb reconnect_max_delay_us delay then reconnect_max_delay_us else delay

unfoldable pub reconnect_still_worth_trying : (since_loss_us grace_us : ℕ) → Bool
reconnect_still_worth_trying since_loss_us grace_us = ltb since_loss_us grace_us
