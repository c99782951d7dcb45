-- ===== src/Control/QualityLadder/Branches.antt =====
-- What one update of the ladder does.
use deskhub.Base.{
  ℕ, ◌-◌, ◌*◌, ◌/◌, ◌≤◌, ◌<◌, ◌≡◌, refl, Bool, true, false, not, ◌||◌, arith, ltb, ◌==◌,
  if◌then◌else◌, Bool-cases, ◌⊎◌, inl, inr,
}
use deskhub.Base.Words.{sub64}
use deskhub.Control.QualityLadder.{
  QualityLadder, QualityStep, Limits, step_at, required_bps, best_rung_for, take_rung, try_up,
  update, up_headroom_pct, up_dwell_us, up_dwell_resize_us,
}

-- The bitrate is a fifth above what the rung needs.
abbrev pub Suffices : Limits → (rung bitrate_bps : ℕ) → Type 0
Suffices l rung bitrate_bps = required_bps l rung * 120 / 100 ≤ bitrate_bps

-- So long a time is fifteen seconds where the size changes, else five.
abbrev pub IsLong : (of to : QualityStep) → (time_us : ℕ) → Type 0
IsLong of to time_us =
    (15000000 ≤ time_us) ⊎ (of.width ≡ to.width) × (of.height ≡ to.height) × (5000000 ≤ time_us)

-- What one update does, told apart by the branch it takes.
pub data Updated (q : QualityLadder) (bitrate_bps now_us : ℕ) (q' : QualityLadder) : Type 0 where
  falls :
      (rung : ℕ) → q.rung < rung → q' ≡ take_rung q rung now_us → Updated q bitrate_bps now_us q'
  rests : q' ≡ record q { up_since_us = 0 } → Updated q bitrate_bps now_us q'
  starts :
      0 < q.rung
      → Suffices q.limits (q.rung - 1) bitrate_bps
      → q' ≡ record q { up_since_us = now_us }
      → Updated q bitrate_bps now_us q'
  waits :
      0 < q.rung
      → Suffices q.limits (q.rung - 1) bitrate_bps
      → 0 < q.up_since_us
      → q' ≡ q
      → Updated q bitrate_bps now_us q'
  climbs :
      0 < q.rung
      → Suffices q.limits (q.rung - 1) bitrate_bps
      → 0 < q.up_since_us
      → IsLong q.step (step_at q.limits (q.rung - 1)) (sub64 now_us q.up_since_us)
      → IsLong q.step (step_at q.limits (q.rung - 1)) (sub64 now_us q.last_change_us)
      → q' ≡ take_rung q (q.rung - 1) now_us
      → Updated q bitrate_bps now_us q'

dwell-IsLong :
    (of to : QualityStep) (time_us : ℕ)
    → ltb time_us (
        if not (to.width == of.width) || not (to.height == of.height)
        then up_dwell_resize_us
        else up_dwell_us)
      ≡ false
    → IsLong of to time_us
dwell-IsLong of to time_us h =
    elim (Bool-cases (not (to.width == of.width) || not (to.height == of.height))) [
      | inl e ↦ inl (ground (arith, e, h))
      | inr e ↦ inr (ground (arith, e), ground (arith, e), ground (arith, e, h))
    ]

or-false : (a b : Bool) → (a || b) ≡ false → (a ≡ false) × (b ≡ false)
or-false true b h = absurd (cc)
or-false false b h = (refl, h)

try_up-Updated :
    (q : QualityLadder) (bitrate_bps now_us : ℕ)
    → 0 < q.rung
    → Updated q bitrate_bps now_us (try_up q bitrate_bps now_us).1
unfolding try_up
try_up-Updated q bitrate_bps now_us low =
    let next = q.rung - 1 in
    let cand = step_at q.limits next in
    let dwell : ℕ =
      if not (cand.width == q.step.width) || not (cand.height == q.step.height)
      then up_dwell_resize_us
      else up_dwell_us in
    elim (Bool-cases (ltb bitrate_bps (required_bps q.limits next * up_headroom_pct / 100))) [
      | inl e ↦ rw e (rests refl)
      | inr e ↦ elim (Bool-cases (q.up_since_us == 0)) [
        | inl f ↦ rw (e, f) (starts low (ground (arith, e)) refl)
        | inr f ↦
            elim (Bool-cases (
              ltb (sub64 now_us q.up_since_us) dwell
              || ltb (sub64 now_us q.last_change_us) dwell)) [
                | inl g ↦ rw (e, f, g) (waits low (ground (arith, e)) (ground (arith, f)) refl)
                | inr g ↦
                    let enough : Suffices q.limits next bitrate_bps = ground (arith, e) in
                    let seen : 0 < q.up_since_us = ground (arith, f) in
                    let (steady, rested) = or-false _ _ g in
                    rw (e, f, g)
                      (climbs low enough seen (dwell-IsLong q.step cand _ steady)
                        (dwell-IsLong q.step cand _ rested) refl)
              ]
      ]
    ]

pub update-Updated :
    (q : QualityLadder) (bitrate_bps now_us : ℕ)
    → Updated q bitrate_bps now_us (update q bitrate_bps now_us).1
unfolding update
update-Updated q bitrate_bps now_us =
    let want = best_rung_for q bitrate_bps in
    elim (Bool-cases (ltb q.rung want)) [
      | inl e ↦ rw e (falls want (ground (arith, e)) refl)
      | inr e ↦ elim (Bool-cases (q.rung == 0)) [
        | inl f ↦ rw (e, f) (rests refl)
        | inr f ↦ rw (e, f) (try_up-Updated q bitrate_bps now_us (ground (arith, f)))
      ]
    ]
