-- ===== src/Control/QualityLadder/Steps.antt =====
-- The rung stays on the ladder, and the step is the one of the rung.
use deskhub.Base.{
  ℕ, zero, suc, ◌+◌, ◌-◌, ◌*◌, ◌/◌, ◌≤◌, ◌<◌, ◌≡◌, refl, ap, subst, true, not, ◌&&◌, ◌||◌, List, [],
  ◌∷◌, arith, ltb, ◌==◌, if◌then◌else◌, Bool-cases, inl, inr,
}
use deskhub.Base.Words.{sub64}
use deskhub.Control.QualityLadder.{
  QualityLadder, QualityStep, Limits, rung_total, min_w, min_h, rung_at, same_step, no_step,
  step_at, count_loop, new_ladder, required_bps, best_rung_loop, best_rung_for, take_rung, try_up,
  update, up_headroom_pct,
}

-- The rung is one of those counted, and the step is its step.
pub record IsValid (l : Limits) (count : ℕ) (q : QualityLadder) : Type 0 where
  pub limits : q.limits ≡ l
  pub counted : q.count ≡ count
  pub rung : q.rung < count
  pub step : q.step ≡ step_at l q.rung

best_rung_loop-lt :
    (l : Limits) (rounds i bitrate_bps count : ℕ)
    → i + rounds ≤ count
    → 0 < count
    → best_rung_loop l rounds i bitrate_bps count < count
unfolding best_rung_loop
best_rung_loop-lt l zero i bitrate_bps count h k = omega (arith, k)
best_rung_loop-lt l (suc rounds) i bitrate_bps count h k =
    ground (arith, h, best_rung_loop-lt l rounds (suc i) bitrate_bps count (omega (arith, h)) k)

take_rung-IsValid :
    (l : Limits) (count : ℕ) (q : QualityLadder) (rung now_us : ℕ)
    → IsValid l count q
    → rung < count
    → IsValid l count (take_rung q rung now_us)
take_rung-IsValid l count q rung now_us v h = record {
  limits = v.limits;
  counted = v.counted;
  rung = h;
  step = ap (λ x. step_at x rung) v.limits;
}

wait-IsValid :
    (l : Limits) (count : ℕ) (q : QualityLadder) (up_since_us : ℕ)
    → IsValid l count q
    → IsValid l count (record q { up_since_us = up_since_us })
wait-IsValid l count q up_since_us v = record {
  limits = v.limits;
  counted = v.counted;
  rung = v.rung;
  step = v.step;
}

try_up-IsValid :
    (l : Limits) (count : ℕ) (q : QualityLadder) (bitrate_bps now_us : ℕ)
    → IsValid l count q
    → IsValid l count (try_up q bitrate_bps now_us).1
unfolding try_up
try_up-IsValid l count q bitrate_bps now_us v =
    let next = q.rung - 1 in
    let cand = step_at q.limits next in
    let dwell : ℕ =
      if not (cand.width == q.step.width) || not (cand.height == q.step.height)
      then 15000000
      else 5000000 in
    elim (Bool-cases (ltb bitrate_bps (required_bps q.limits next * up_headroom_pct / 100))) [
      | inl e ↦ rw e (wait-IsValid l count q 0 v)
      | inr e ↦ elim (Bool-cases (q.up_since_us == 0)) [
        | inl f ↦ rw (e, f) (wait-IsValid l count q now_us v)
        | inr f ↦
            elim (Bool-cases (
              ltb (sub64 now_us q.up_since_us) dwell
              || ltb (sub64 now_us q.last_change_us) dwell)) [
                | inl g ↦ rw (e, f, g) v
                | inr g ↦
                    rw (e, f, g) (take_rung-IsValid l count q next now_us v (omega (arith, v.rung)))
              ]
      ]
    ]

update-IsValid :
    (l : Limits) (count : ℕ) (q : QualityLadder) (bitrate_bps now_us : ℕ)
    → IsValid l count q
    → IsValid l count (update q bitrate_bps now_us).1
unfolding update
update-IsValid l count q bitrate_bps now_us v =
    let want = best_rung_for q bitrate_bps in
    let low : want < count =
      subst (λ n. want < n) v.counted
        (best_rung_loop-lt q.limits q.count 0 bitrate_bps q.count (omega arith)
          (omega (arith, v.rung, v.counted))) in
    elim (Bool-cases (ltb q.rung want)) [
      | inl e ↦ rw e (take_rung-IsValid l count q want now_us v low)
      | inr e ↦ elim (Bool-cases (q.rung == 0)) [
        | inl f ↦ rw (e, f) (wait-IsValid l count q 0 v)
        | inr f ↦ rw (e, f) (try_up-IsValid l count q bitrate_bps now_us v)
      ]
    ]

-- The bitrates at the times of the updates.
unfoldable pub run : QualityLadder → List (ℕ × ℕ) → QualityLadder
unfolding update
run q [] = q
run q ((bitrate_bps, now_us) ∷ updates) = run (update q bitrate_bps now_us).1 updates

run-IsValid :
    (l : Limits) (count : ℕ) (updates : List (ℕ × ℕ)) (q : QualityLadder)
    → IsValid l count q
    → IsValid l count (run q updates)
unfolding run
run-IsValid l count [] q v = v
run-IsValid l count ((bitrate_bps, now_us) ∷ updates) q v =
    run-IsValid l count updates (update q bitrate_bps now_us).1
      (update-IsValid l count q bitrate_bps now_us v)

-- A round counts a rung at most.
count_loop-le :
    (l : Limits) (rounds i : ℕ) (prev : QualityStep) (count : ℕ)
    → (count ≤ count_loop l rounds i prev count)
      × (count_loop l rounds i prev count ≤ count + rounds)
unfolding count_loop
count_loop-le l zero i prev count = (omega arith, omega arith)
count_loop-le l (suc rounds) i prev count =
    let skipped = count_loop-le l rounds (suc i) prev count in
    let counted = count_loop-le l rounds (suc i) (step_at l i) (count + 1) in
    elim (Bool-cases (ltb 0 i && same_step (step_at l i) prev)) [
      | inl e ↦ rw e (omega (arith, skipped.0), omega (arith, skipped.1))
      | inr e ↦
          elim (Bool-cases
            (ltb 0 i && (ltb (step_at l i).width min_w || ltb (step_at l i).height min_h))) [
              | inl f ↦ rw (e, f) (omega arith, omega arith)
              | inr f ↦ rw (e, f) (omega (arith, counted.0), omega (arith, counted.1))
            ]
    ]

-- The first rung is always counted.
count_loop-lt :
    (l : Limits) (rounds : ℕ) (prev : QualityStep) → 0 < count_loop l (suc rounds) 0 prev 0
unfolding count_loop
count_loop-lt l rounds prev = omega (arith, (count_loop-le l rounds 1 (step_at l 0) 1).0)

new_ladder-IsValid :
    (max_w max_h max_fps : ℕ)
    → let q = new_ladder max_w max_h max_fps in (q.count ≤ rung_total) × IsValid q.limits q.count q
unfolding new_ladder
new_ladder-IsValid max_w max_h max_fps =
    let q = new_ladder max_w max_h max_fps in
    (
      (count_loop-le q.limits rung_total 0 no_step 0).1,
      record {
        limits = refl;
        counted = refl;
        rung = count_loop-lt q.limits 5 no_step;
        step = refl;
      },
    )

-- Whatever the bitrates and the times of the updates, the ladder has six rungs at most, stands on
-- one of them, and offers the step of that rung for the limits it was built with.
pub run-new_ladder :
    (max_w max_h max_fps : ℕ) (updates : List (ℕ × ℕ))
    → let q = new_ladder max_w max_h max_fps in
      (q.count ≤ rung_total) × IsValid q.limits q.count (run q updates)
run-new_ladder max_w max_h max_fps updates =
    let q = new_ladder max_w max_h max_fps in
    let start = new_ladder-IsValid max_w max_h max_fps in
    (start.0, run-IsValid q.limits q.count updates q start.1)

-- Under a limit of at most twenty frames in a second the first three rungs are one step.
low_fps-same :
    (l : Limits)
    → l.max_fps ≤ 20
    → (same_step (step_at l 1) (step_at l 0) ≡ true)
      × (same_step (step_at l 2) (step_at l 0) ≡ true)
unfolding step_at
low_fps-same l h = (ground (arith, h), ground (arith, h))

low_fps-count :
    (l : Limits) (prev : QualityStep) → l.max_fps ≤ 20 → count_loop l rung_total 0 prev 0 ≤ 4
unfolding count_loop
low_fps-count l prev h =
    let same = low_fps-same l h in rw (same.0, same.1) (count_loop-le l 3 3 (step_at l 0) 1).1

new_ladder-count :
    (max_w max_h max_fps : ℕ)
    → max_fps ≤ 20
    → 0 < max_fps
    → (new_ladder max_w max_h max_fps).count ≤ 4
unfolding new_ladder
new_ladder-count max_w max_h max_fps high low =
    let limited : (if max_fps == 0 then 60 else max_fps) ≤ 20 = ground (arith, high, low) in
    low_fps-count (new_ladder max_w max_h max_fps).limits no_step limited

rung_at-large : (rung : ℕ) → rung < 4 → 75 ≤ (rung_at rung).scale_pct
rung_at-large zero h = omega arith
rung_at-large (suc zero) h = omega arith
rung_at-large (suc (suc zero)) h = omega arith
rung_at-large (suc (suc (suc zero))) h = omega arith
rung_at-large (suc (suc (suc (suc rung)))) h = absurd (omega (arith, h))

IsValid-large :
    (l : Limits) (count : ℕ) (q : QualityLadder)
    → IsValid l count q
    → count ≤ 4
    → 75 ≤ q.step.scale_pct
unfolding step_at
IsValid-large l count q v h = rw v.step (rung_at-large q.rung (omega (arith, h, v.rung)))

-- For a limit of one to twenty frames in a second the picture is never offered under 75 percent of
-- its size, whatever the bitrates and the times of the updates, although the list has rungs of 50
-- percent.
pub run-low_fps :
    (max_w max_h max_fps : ℕ) (updates : List (ℕ × ℕ))
    → 0 < max_fps
    → max_fps ≤ 20
    → 75 ≤ (run (new_ladder max_w max_h max_fps) updates).step.scale_pct
run-low_fps max_w max_h max_fps updates low high =
    let q = new_ladder max_w max_h max_fps in
    let valid = run-new_ladder max_w max_h max_fps updates in
    IsValid-large q.limits q.count (run q updates) valid.1
      (new_ladder-count max_w max_h max_fps high low)
