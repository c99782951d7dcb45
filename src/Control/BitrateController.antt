-- ===== src/Control/BitrateController.antt =====
-- core/src/control/BitrateController.cpp: the rate follows the loss and the age of the frames.
pub mod Bounds
use deskhub.Base.{
  ℕ, zero, suc, ◌+◌, ◌-◌, ◌/◌, ◌%◌, ◌^◌, Bool, true, false, not, ◌&&◌, ◌||◌, List, [], ◌∷◌, ltb,
  leb, ◌==◌, if◌then◌else◌,
}
use deskhub.Base.Words.{sub64, to_u32}
use deskhub.Protocol.Wire.Control.{Feedback}

abbrev pub clean_seconds_before_dropping_fec : ℕ
clean_seconds_before_dropping_fec = 10

abbrev pub backlog_ms : ℕ
backlog_ms = 150

abbrev pub severe_backlog_ms : ℕ
severe_backlog_ms = 400

pub record BitrateDecision : Type 0 where
  pub bitrate_bps : ℕ
  pub change_bitrate : Bool
  pub fec_enabled : Bool
  pub fec_toggled : Bool

-- `clean_seconds` counts up by one a call, and is taken not to reach 2 ^ 31.
pub record BitrateController : Type 0 where
  pub cur : ℕ
  pub max : ℕ
  pub min : ℕ
  pub last_decrease_us : ℕ
  pub clean_seconds : ℕ
  pub fec : Bool

unfoldable pub new_controller : (start_bps min_bps : ℕ) → BitrateController
new_controller start_bps min_bps = record {
  cur = start_bps;
  max = start_bps;
  min = min_bps;
  last_decrease_us = 0;
  clean_seconds = 0;
  fec = true;
}

-- Parity goes on with a lost percent, and off after ten reports without one.
unfoldable pub update_fec : BitrateController → Feedback → BitrateController
update_fec b fb =
    if leb 1 fb.loss_pct
    then record b { clean_seconds = 0; fec = true }
    else if leb clean_seconds_before_dropping_fec (b.clean_seconds + 1)
    then record b { clean_seconds = b.clean_seconds + 1; fec = false }
    else record b { clean_seconds = b.clean_seconds + 1 }

-- The rate before it is bounded, and the time of the last decrease.
unfoldable pub wanted_rate : BitrateController → Feedback → (frame_age_ms now_us : ℕ) → ℕ × ℕ
wanted_rate b fb frame_age_ms now_us =
    if leb 5 fb.loss_pct || leb severe_backlog_ms frame_age_ms
    then (b.cur - b.cur / 4, now_us)
    else if leb 2 fb.loss_pct || leb backlog_ms frame_age_ms
    then (b.cur - b.cur / 10, now_us)
    else if leb fb.loss_pct 1 && ltb 2000000 (sub64 now_us b.last_decrease_us)
    then (to_u32 (b.cur + b.max / 20), b.last_decrease_us)
    else (b.cur, b.last_decrease_us)

-- `if (next > max_) next = max_; if (next < min_) next = min_;`
unfoldable pub bounded_rate : BitrateController → ℕ → ℕ
bounded_rate b next =
    let low = if ltb b.max next then b.max else next in if ltb low b.min then b.min else low

unfoldable pub update :
    BitrateController → Feedback → (frame_age_ms now_us : ℕ) → BitrateDecision × BitrateController
unfolding update_fec wanted_rate bounded_rate
update b fb frame_age_ms now_us =
    let b' = update_fec b fb in
    let (wanted, decrease_us) = wanted_rate b' fb frame_age_ms now_us in
    let next = bounded_rate b' wanted in
    let delta = if ltb b.cur next then next - b.cur else b.cur - next in
    let change = not (next == b.cur) && leb (b.cur / 50) delta in
    (
      record {
        bitrate_bps = if change then next else b.cur;
        change_bitrate = change;
        fec_enabled = b'.fec;
        fec_toggled = if b'.fec then not b.fec else b.fec;
      },
      record b' { last_decrease_us = decrease_us },
    )

unfoldable pub commit_bitrate : BitrateController → ℕ → BitrateController
commit_bitrate b bps = record b { cur = bps }
