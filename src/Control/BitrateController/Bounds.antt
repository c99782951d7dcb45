-- ===== src/Control/BitrateController/Bounds.antt =====
-- The rate stays within its bounds and moves the right way.
use deskhub.Base.{
  ℕ, ◌+◌, ◌-◌, ◌/◌, ◌^◌, ◌≤◌, ◌<◌, ◌≡◌, ◌≢◌, refl, ◌∙◌, Bool, true, false, not, ◌&&◌, ◌||◌, List,
  [], ◌∷◌, arith, ltb, leb, ◌==◌, if◌then◌else◌, Bool-cases, ◌⊎◌, inl, inr,
}
use deskhub.Base.Words.{sub64}
use deskhub.Protocol.Wire.Control.{Feedback}
use deskhub.Control.BitrateController.{
  BitrateController, BitrateDecision, backlog_ms, new_controller, update_fec, wanted_rate,
  bounded_rate, update, commit_bitrate,
}

-- The rate is within its bounds, and one step up fits 32 bits.
pub record IsValid (b : BitrateController) : Type 0 where
  pub low : b.min ≤ b.cur
  pub high : b.cur ≤ b.max
  pub fits : b.max + b.max / 20 < 2 ^ 32

-- What a decision is: within the bounds, not above the rate where packets are lost or frames are
-- late, not below it elsewhere; it says whether it changes the rate; parity is on where the report
-- has a lost percent, and else it is as before or the clean reports that the controller counts are
-- ten with this one.
pub record Decides (b : BitrateController) (fb : Feedback) (frame_age_ms : ℕ) (d : BitrateDecision)
    : Type 0 where
  pub low : b.min ≤ d.bitrate_bps
  pub high : d.bitrate_bps ≤ b.max
  pub side :
      (((leb 2 fb.loss_pct || leb backlog_ms frame_age_ms) ≡ true) × (d.bitrate_bps ≤ b.cur))
      ⊎ (((leb 2 fb.loss_pct || leb backlog_ms frame_age_ms) ≡ false) × (b.cur ≤ d.bitrate_bps))
  pub change :
      ((d.change_bitrate ≡ false) × (d.bitrate_bps ≡ b.cur))
      ⊎ ((d.change_bitrate ≡ true) × (d.bitrate_bps ≢ b.cur))
  pub parity :
      ((1 ≤ fb.loss_pct) × (d.fec_enabled ≡ true))
      ⊎ ((fb.loss_pct ≡ 0) × ((d.fec_enabled ≡ b.fec) ⊎ (10 ≤ b.clean_seconds + 1)))

update_fec-same :
    (b : BitrateController) (fb : Feedback)
    → let b' = update_fec b fb in (b'.cur ≡ b.cur) × (b'.max ≡ b.max) × (b'.min ≡ b.min)
unfolding update_fec
update_fec-same b fb = elim (Bool-cases (leb 1 fb.loss_pct)) [
  | inl e ↦ rw e (refl, refl, refl)
  | inr e ↦ elim (Bool-cases (leb 10 (b.clean_seconds + 1))) [
    | inl f ↦ rw (e, f) (refl, refl, refl)
    | inr f ↦ rw (e, f) (refl, refl, refl)
  ]
]

update_fec-lossy :
    (b : BitrateController) (fb : Feedback) → 1 ≤ fb.loss_pct → (update_fec b fb).fec ≡ true
unfolding update_fec
update_fec-lossy b fb h = let e : leb 1 fb.loss_pct ≡ true = ground (arith, h) in rw e refl

update_fec-clean :
    (b : BitrateController) (fb : Feedback)
    → fb.loss_pct ≡ 0
    → ((update_fec b fb).fec ≡ b.fec) ⊎ (10 ≤ b.clean_seconds + 1)
unfolding update_fec
update_fec-clean b fb h =
    let e : leb 1 fb.loss_pct ≡ false = ground (arith, h) in
    elim (Bool-cases (leb 10 (b.clean_seconds + 1))) [
      | inl f ↦ inr (ground (arith, f))
      | inr f ↦ inl (rw (e, f) refl)
    ]

wanted_rate-down :
    (b : BitrateController) (fb : Feedback) (frame_age_ms now_us : ℕ)
    → (leb 2 fb.loss_pct || leb backlog_ms frame_age_ms) ≡ true
    → (wanted_rate b fb frame_age_ms now_us).0 ≤ b.cur
unfolding wanted_rate
wanted_rate-down b fb frame_age_ms now_us e =
    elim (Bool-cases (leb 5 fb.loss_pct || leb 400 frame_age_ms)) [
      | inl f ↦ rw f (omega arith)
      | inr f ↦ rw (f, e) (omega arith)
    ]

wanted_rate-up :
    (b : BitrateController) (fb : Feedback) (frame_age_ms now_us : ℕ)
    → b.cur + b.max / 20 < 2 ^ 32
    → (leb 2 fb.loss_pct || leb backlog_ms frame_age_ms) ≡ false
    → b.cur ≤ (wanted_rate b fb frame_age_ms now_us).0
unfolding wanted_rate
wanted_rate-up b fb frame_age_ms now_us fits e =
    let mild : (leb 5 fb.loss_pct || leb 400 frame_age_ms) ≡ false = ground (arith, e) in
    elim (Bool-cases (leb fb.loss_pct 1 && ltb 2000000 (sub64 now_us b.last_decrease_us))) [
      | inl f ↦ rw (mild, e, f) (omega (arith, fits))
      | inr f ↦ rw (mild, e, f) (omega arith)
    ]

-- What the bounds do to a rate.
bounded_rate-between :
    (b : BitrateController) (next : ℕ)
    → b.min ≤ b.max
    → (b.min ≤ bounded_rate b next) × (bounded_rate b next ≤ b.max)
unfolding bounded_rate
bounded_rate-between b next h = (ground (arith, h), ground (arith, h))

bounded_rate-le :
    (b : BitrateController) (next cur : ℕ) → b.min ≤ cur → next ≤ cur → bounded_rate b next ≤ cur
unfolding bounded_rate
bounded_rate-le b next cur h k = ground (arith, h, k)

bounded_rate-ge :
    (b : BitrateController) (next cur : ℕ) → cur ≤ b.max → cur ≤ next → cur ≤ bounded_rate b next
unfolding bounded_rate
bounded_rate-ge b next cur h k = ground (arith, h, k)

-- The rate that is decided: the bounded one, or the old one where the step is small.
decided :
    (cur next : ℕ)
    → let delta = if ltb cur next then next - cur else cur - next in
      let change = not (next == cur) && leb (cur / 50) delta in
      let rate = if change then next else cur in
      ((rate ≡ next) ⊎ (rate ≡ cur))
      × (((change ≡ false) × (rate ≡ cur)) ⊎ ((change ≡ true) × (rate ≢ cur)))
decided cur next =
    let delta = if ltb cur next then next - cur else cur - next in
    elim (Bool-cases (not (next == cur) && leb (cur / 50) delta)) [
      | inl e ↦ rw e (inl refl, inr (refl, λ same. ground (arith, e, same)))
      | inr e ↦ rw e (inr refl, inl (refl, refl))
    ]

-- In a controller whose rate is within its bounds, each decision is within them too. It is not
-- above the rate where the report has two lost percent or more or the frames are 150 ms late or
-- more, and not below it elsewhere, and it changes the rate where it says so. Parity is on where
-- the report has one lost percent or more; where it has 0, parity is as before, or the clean
-- reports that the controller counts are ten with this one.
pub update-Decides :
    (b : BitrateController) (fb : Feedback) (frame_age_ms now_us : ℕ)
    → IsValid b
    → Decides b fb frame_age_ms (update b fb frame_age_ms now_us).0
unfolding update
update-Decides b fb frame_age_ms now_us v =
    let b' = update_fec b fb in
    let (cur, max, min) = update_fec-same b fb in
    let wanted = (wanted_rate b' fb frame_age_ms now_us).0 in
    let next = bounded_rate b' wanted in
    let (low, high) = bounded_rate-between b' wanted (omega (arith, max, min, v.low, v.high)) in
    let (which, change) = decided b.cur next in
    record {
      low = elim which [ inl e ↦ omega (arith, e, low, min) | inr e ↦ omega (arith, e, v.low) ];
      high = elim which [ inl e ↦ omega (arith, e, high, max) | inr e ↦ omega (arith, e, v.high) ];
      side = elim (Bool-cases (leb 2 fb.loss_pct || leb backlog_ms frame_age_ms)) [
        | inl e ↦
            let below : next ≤ b.cur =
              bounded_rate-le b' wanted b.cur (omega (arith, min, v.low))
                (omega (arith, cur, wanted_rate-down b' fb frame_age_ms now_us e)) in
            inl (e, elim which [ inl r ↦ omega (arith, r, below) | inr r ↦ omega (arith, r) ])
        | inr e ↦
            let room : b'.cur + b'.max / 20 < 2 ^ 32 = omega (arith, cur, max, v.high, v.fits) in
            let above : b.cur ≤ next =
              bounded_rate-ge b' wanted b.cur (omega (arith, max, v.high))
                (omega (arith, cur, wanted_rate-up b' fb frame_age_ms now_us room e)) in
            inr (e, elim which [ inl r ↦ omega (arith, r, above) | inr r ↦ omega (arith, r) ])
      ];
      change = change;
      parity = elim (Bool-cases (leb 1 fb.loss_pct)) [
        | inl e ↦ inl (ground (arith, e), update_fec-lossy b fb (ground (arith, e)))
        | inr e ↦ inr (ground (arith, e), update_fec-clean b fb (ground (arith, e)))
      ];
    }

-- A report of the viewer; `taken` is whether the encoder took the rate, which the host then
-- commits.
pub record Report : Type 0 where
  pub feedback : Feedback
  pub frame_age_ms : ℕ
  pub now_us : ℕ
  pub taken : Bool

unfoldable pub report : BitrateController → Report → BitrateController
unfolding update commit_bitrate
report b r =
    let (d, b') = update b r.feedback r.frame_age_ms r.now_us in
    if d.change_bitrate && r.taken then commit_bitrate b' d.bitrate_bps else b'

unfoldable pub run : BitrateController → List Report → BitrateController
unfolding report
run b [] = b
run b (r ∷ rs) = run (report b r) rs

update-state :
    (b : BitrateController) (fb : Feedback) (frame_age_ms now_us : ℕ)
    → let b' = (update b fb frame_age_ms now_us).1 in
      (b'.cur ≡ b.cur) × (b'.max ≡ b.max) × (b'.min ≡ b.min)
unfolding update
update-state b fb frame_age_ms now_us = update_fec-same b fb

report-IsValid :
    (b : BitrateController) (r : Report)
    → IsValid b
    → IsValid (report b r) × ((report b r).max ≡ b.max) × ((report b r).min ≡ b.min)
unfolding report commit_bitrate
report-IsValid b r v =
    let (cur, max, min) = update-state b r.feedback r.frame_age_ms r.now_us in
    let d = update-Decides b r.feedback r.frame_age_ms r.now_us v in
    let x = update b r.feedback r.frame_age_ms r.now_us in
    elim (Bool-cases (x.0.change_bitrate && r.taken)) [
      | inl e ↦ rw e (
        record {
          low = omega (arith, d.low, min);
          high = omega (arith, d.high, max);
          fits = omega (arith, max, v.fits);
        },
        max,
        min,
      )
      | inr e ↦ rw e (
        record {
          low = omega (arith, cur, min, v.low);
          high = omega (arith, cur, max, v.high);
          fits = omega (arith, max, v.fits);
        },
        max,
        min,
      )
    ]

run-IsValid :
    (b : BitrateController) (rs : List Report)
    → IsValid b
    → IsValid (run b rs) × ((run b rs).max ≡ b.max) × ((run b rs).min ≡ b.min)
unfolding run
run-IsValid b [] v = (v, refl, refl)
run-IsValid b (r ∷ rs) v =
    let (w, max, min) = report-IsValid b r v in
    let (u, max', min') = run-IsValid (report b r) rs w in (u, max' ∙ max, min' ∙ min)

-- A controller starts with a rate that is not below its least one and that a step up does not take
-- out of 32 bits. After any reports, whether or not the encoder takes the rates that are decided,
-- the rate is between the least one and the one at the start.
pub run-new_controller :
    (start_bps min_bps : ℕ) (rs : List Report)
    → min_bps ≤ start_bps
    → start_bps + start_bps / 20 < 2 ^ 32
    → let b = run (new_controller start_bps min_bps) rs in (min_bps ≤ b.cur) × (b.cur ≤ start_bps)
unfolding new_controller
run-new_controller start_bps min_bps rs h fits =
    let (v, max, min) =
      run-IsValid (new_controller start_bps min_bps) rs
        (record { low = h; high = omega arith; fits = fits }) in
    (omega (arith, v.low, min), omega (arith, v.high, max))
