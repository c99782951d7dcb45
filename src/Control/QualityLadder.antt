-- ===== src/Control/QualityLadder.antt =====
-- core/src/control/QualityLadder.cpp: the size and the frame rate that a bitrate allows, in steps.
pub mod Steps
pub mod Branches
pub mod Climbing
use deskhub.Base.{
  ℕ, zero, suc, ◌+◌, ◌-◌, ◌*◌, ◌/◌, ◌%◌, ◌^◌, Bool, true, false, not, ◌&&◌, ◌||◌, List, [], ◌∷◌,
  ltb, leb, ◌==◌, if◌then◌else◌,
}
use deskhub.Base.Words.{sub64, to_u16, to_u32}

abbrev pub rung_total : ℕ
rung_total = 6

abbrev pub min_w : ℕ
min_w = 160

abbrev pub min_h : ℕ
min_h = 64

abbrev pub bpp_num : ℕ
bpp_num = 8

abbrev pub bpp_den : ℕ
bpp_den = 100

abbrev pub up_headroom_pct : ℕ
up_headroom_pct = 120

abbrev pub up_dwell_us : ℕ
up_dwell_us = 5000000

abbrev pub up_dwell_resize_us : ℕ
up_dwell_resize_us = 15000000

pub record Rung : Type 0 where
  pub scale_pct : ℕ
  pub fps : ℕ

-- `kRungs[rung]`; the last rung stands for all numbers past the end, as `StepAt` takes them.
abbrev pub rung_at : ℕ → Rung
rung_at zero = record { scale_pct = 100; fps = 60 }
rung_at (suc zero) = record { scale_pct = 100; fps = 30 }
rung_at (suc (suc zero)) = record { scale_pct = 100; fps = 20 }
rung_at (suc (suc (suc zero))) = record { scale_pct = 75; fps = 20 }
rung_at (suc (suc (suc (suc zero)))) = record { scale_pct = 50; fps = 20 }
rung_at (suc (suc (suc (suc (suc rung))))) = record { scale_pct = 50; fps = 12 }

pub record QualityStep : Type 0 where
  pub width : ℕ
  pub height : ℕ
  pub fps : ℕ
  pub scale_pct : ℕ

abbrev pub same_step : QualityStep → QualityStep → Bool
same_step a b =
    (a.width == b.width)
    && (a.height == b.height)
    && (a.fps == b.fps)
    && (a.scale_pct == b.scale_pct)

-- `s & ~1u` is the even number below.
unfoldable pub scale_even : (v pct : ℕ) → ℕ
scale_even v pct = to_u16 (v * pct / 100 / 2 * 2)

-- What the constructor is given and keeps.
pub record Limits : Type 0 where
  pub max_w : ℕ
  pub max_h : ℕ
  pub max_fps : ℕ

unfoldable pub step_at : Limits → ℕ → QualityStep
unfolding scale_even
step_at l rung =
    let r = rung_at rung in
    record {
      width = scale_even l.max_w r.scale_pct;
      height = scale_even l.max_h r.scale_pct;
      fps = if ltb r.fps l.max_fps then r.fps else l.max_fps;
      scale_pct = r.scale_pct;
    }

-- The rounds of the constructor from the rung `i` on, `rounds` of them, with the last step counted.
unfoldable pub count_loop : Limits → (rounds i : ℕ) → QualityStep → (count : ℕ) → ℕ
unfolding step_at
count_loop l zero i prev count = count
count_loop l (suc rounds) i prev count =
    let s = step_at l i in
    let skipped = count_loop l rounds (suc i) prev count in
    let counted = count_loop l rounds (suc i) s (count + 1) in
    if ltb 0 i && same_step s prev
    then skipped
    else if ltb 0 i && (ltb s.width min_w || ltb s.height min_h)
    then count
    else counted

pub record QualityLadder : Type 0 where
  pub limits : Limits
  pub count : ℕ
  pub rung : ℕ
  pub step : QualityStep
  pub last_change_us : ℕ
  pub up_since_us : ℕ

abbrev pub no_step : QualityStep
no_step = record { width = 0; height = 0; fps = 0; scale_pct = 100 }

unfoldable pub new_ladder : (max_w max_h max_fps : ℕ) → QualityLadder
unfolding count_loop
new_ladder max_w max_h max_fps =
    let l : Limits = record {
      max_w = max_w;
      max_h = max_h;
      max_fps = if max_fps == 0 then 60 else max_fps;
    } in
    record {
      limits = l;
      count = count_loop l rung_total 0 no_step 0;
      rung = 0;
      step = step_at l 0;
      last_change_us = 0;
      up_since_us = 0;
    }

unfoldable pub required_bps : Limits → ℕ → ℕ
unfolding step_at
required_bps l rung =
    let s = step_at l rung in to_u32 (s.width * s.height * s.fps * bpp_num / bpp_den)

-- The rounds from the rung `i` on, `rounds` of them, of the `count` rungs.
unfoldable pub best_rung_loop : Limits → (rounds i bitrate_bps count : ℕ) → ℕ
unfolding required_bps
best_rung_loop l zero i bitrate_bps count = count - 1
best_rung_loop l (suc rounds) i bitrate_bps count =
    let rest = best_rung_loop l rounds (suc i) bitrate_bps count in
    if leb (required_bps l i) bitrate_bps then i else rest

abbrev pub best_rung_for : QualityLadder → ℕ → ℕ
best_rung_for q bitrate_bps = best_rung_loop q.limits q.count 0 bitrate_bps q.count

abbrev pub take_rung : QualityLadder → (rung now_us : ℕ) → QualityLadder
take_rung q rung now_us = record q {
  rung = rung;
  step = step_at q.limits rung;
  last_change_us = now_us;
  up_since_us = 0;
}

-- One rung up, where the bitrate has been enough for it for long.
unfoldable pub try_up : QualityLadder → (bitrate_bps now_us : ℕ) → Bool × QualityLadder
unfolding required_bps step_at
try_up q bitrate_bps now_us =
    let next = q.rung - 1 in
    let need = required_bps q.limits next * up_headroom_pct / 100 in
    let cand = step_at q.limits next in
    let resize = not (cand.width == q.step.width) || not (cand.height == q.step.height) in
    let dwell = if resize then up_dwell_resize_us else up_dwell_us in
    if ltb bitrate_bps need
    then (false, record q { up_since_us = 0 })
    else if q.up_since_us == 0
    then (false, record q { up_since_us = now_us })
    else if ltb (sub64 now_us q.up_since_us) dwell || ltb (sub64 now_us q.last_change_us) dwell
    then (false, q)
    else (true, take_rung q next now_us)

unfoldable pub update : QualityLadder → (bitrate_bps now_us : ℕ) → Bool × QualityLadder
unfolding best_rung_loop try_up
update q bitrate_bps now_us =
    let want = best_rung_for q bitrate_bps in
    if ltb q.rung want
    then (true, take_rung q want now_us)
    else if q.rung == 0
    then (false, record q { up_since_us = 0 })
    else try_up q bitrate_bps now_us
