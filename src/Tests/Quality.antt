-- ===== src/Tests/Quality.antt =====
-- The quality of the picture at concrete inputs.
use deskhub.Base.{ℕ, ◌≤◌, ◌<◌, ◌≡◌, refl, List, [], ◌∷◌, arith}
use deskhub.Base.Words.{sub64}
use deskhub.Control.QualityLadder.{rung_total, new_ladder, update}
use deskhub.Control.QualityLadder.Steps.{IsValid, run, run-new_ladder, run-low_fps}
use deskhub.Control.QualityLadder.Climbing.{after, Climbs, update-Climbs}

abbrev updates : List (ℕ × ℕ)
updates = (2000000, 1000000) ∷ (100000, 2000000) ∷ (9000000, 3000000) ∷ (9000000, 20000000) ∷ []

count_test : (new_ladder 1920 1080 60).count ≡ 6
unfolding new_ladder
count_test = refl

low_count_test : (new_ladder 1920 1080 15).count ≡ 4
unfolding new_ladder
low_count_test = refl

falling_test : (run (new_ladder 1920 1080 60) updates).rung ≡ 4
unfolding run new_ladder sub64
falling_test = refl

run-new_ladder_example :
    let q = new_ladder 1920 1080 60 in
    (q.count ≤ rung_total) × IsValid q.limits q.count (run q updates)
run-new_ladder_example = run-new_ladder 1920 1080 60 updates

run-low_fps_example : 75 ≤ (run (new_ladder 1920 1080 15) updates).step.scale_pct
run-low_fps_example = run-low_fps 1920 1080 15 updates (omega arith) (omega arith)

-- The ladder falls to the second rung at second 1, and has enough for the first one at second 2;
-- the last update comes first.
abbrev past : List (ℕ × ℕ)
past = (20000000, 2000000) ∷ (5000000, 1000000) ∷ []

update-lt :
    (update (after (new_ladder 1920 1080 60) past) 20000000 8000000).1.rung
    < (after (new_ladder 1920 1080 60) past).rung
unfolding after new_ladder update sub64
update-lt = omega arith

update-Climbs_example :
    Climbs
      (new_ladder 1920 1080 60)
      past
      20000000
      8000000
      (update (after (new_ladder 1920 1080 60) past) 20000000 8000000).1.rung
update-Climbs_example = update-Climbs 1920 1080 60 past 20000000 8000000 update-lt
