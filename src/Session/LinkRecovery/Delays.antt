-- ===== src/Session/LinkRecovery/Delays.antt =====
-- The delays before a link is tried again, and the keepalives within the idle time.
use deskhub.Base.{
  ℕ, zero, suc, ◌*◌, ◌%◌, ◌^◌, ◌≤◌, ◌<◌, ◌≡◌, refl, ap, ◌∙◌, arith, min, ltb, Bool-cases, inl, inr,
}
use deskhub.Session.LinkRecovery.{
  keepalive_interval_us, double_delay, reconnect_delay_us, reconnect_first_delay_us,
  reconnect_max_delay_us,
}

-- The doubling without a bound.
unfoldable pub doubled : (attempts delay : ℕ) → ℕ
doubled zero delay = delay
doubled (suc attempts) delay = doubled attempts (2 * delay)

doubled-above : (attempts delay : ℕ) → delay ≤ doubled attempts delay
unfolding doubled
doubled-above zero delay = omega arith
doubled-above (suc attempts) delay = omega (arith, doubled-above attempts (2 * delay))

-- The bounded loop is the doubling, as far as the bound.
double_delay-doubled :
    (attempts delay : ℕ)
    → delay ≤ 2 * reconnect_max_delay_us
    → min reconnect_max_delay_us (double_delay attempts delay)
      ≡ min reconnect_max_delay_us (doubled attempts delay)
unfolding double_delay doubled
double_delay-doubled zero delay h = refl
double_delay-doubled (suc attempts) delay h = elim (Bool-cases (ltb delay reconnect_max_delay_us)) [
  | inl e ↦
      let low : delay < reconnect_max_delay_us = ground (arith, e) in
      let same : delay * 2 % 2 ^ 64 ≡ 2 * delay = omega (arith, low) in
      rw e (
        ap (λ d. min reconnect_max_delay_us (double_delay attempts d)) same
        ∙ double_delay-doubled attempts (2 * delay) (omega (arith, low)))
  | inr e ↦
      let high : reconnect_max_delay_us ≤ delay = ground (arith, e) in
      rw e (omega (arith, high, doubled-above attempts (2 * delay)))
]

-- Before the attempt `n` the delay is 0.5 s doubled `n` times, five seconds at most.
pub reconnect_delay_us-doubled :
    (attempt : ℕ)
    → reconnect_delay_us attempt
      ≡ min reconnect_max_delay_us (doubled attempt reconnect_first_delay_us)
unfolding reconnect_delay_us
reconnect_delay_us-doubled attempt =
    let d = double_delay-doubled attempt reconnect_first_delay_us (omega arith) in ground (arith, d)

-- For an idle timeout of 1 ms or more, whose microseconds fit 64 bits, keepalives go out at least
-- twice before it ends, and not in a closed loop: the interval is between 1 us and half the
-- timeout.
pub keepalive_interval_us-within :
    (idle_timeout_ms : ℕ)
    → 0 < idle_timeout_ms
    → idle_timeout_ms * 1000 < 2 ^ 64
    → (0 < keepalive_interval_us idle_timeout_ms)
      × (2 * keepalive_interval_us idle_timeout_ms ≤ idle_timeout_ms * 1000)
unfolding keepalive_interval_us
keepalive_interval_us-within idle_timeout_ms h fits =
    (ground (arith, h, fits), ground (arith, h, fits))
