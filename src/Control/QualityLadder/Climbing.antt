-- ===== src/Control/QualityLadder/Climbing.antt =====
-- When the quality goes up again: what the updates before have seen.
use deskhub.Base.{
  ℕ, suc, ◌-◌, ◌<◌, ◌≡◌, ◌≢◌, refl, sym, ap, subst, ◌∙◌, List, [], ◌∷◌, arith, ◌⊎◌, inl, inr,
}
use deskhub.Base.Words.{sub64}
use deskhub.Control.QualityLadder.{QualityLadder, Limits, new_ladder, step_at, update}
use deskhub.Control.QualityLadder.Branches.{
  Suffices, IsLong, Updated, falls, rests, starts, waits, climbs, update-Updated,
}

-- The ladder after the updates of `past`, the last one first, each with its bitrate and its time.
unfoldable pub after : QualityLadder → (past : List (ℕ × ℕ)) → QualityLadder
unfolding update
after start [] = start
after start ((bitrate_bps, now_us) ∷ past) = (update (after start past) bitrate_bps now_us).1

-- Back from the last update to one at the time `since_us`, each bitrate was enough for the rung
-- `next`, and the ladder stood on the rung below it all the time.
abbrev pub EnoughSince : QualityLadder → (next since_us : ℕ) → List (ℕ × ℕ) → Type 0
EnoughSince start next since_us [] = ⊥
EnoughSince start next since_us ((bitrate_bps, now_us) ∷ past) =
    Suffices start.limits next bitrate_bps
    × ((after start past).rung ≡ suc next)
    × ((since_us ≡ now_us) ⊎ EnoughSince start next since_us past)

-- The last update that changed the rung was at `changed_us`, or there was none and it is 0.
abbrev pub ChangedAt : QualityLadder → (changed_us : ℕ) → List (ℕ × ℕ) → Type 0
ChangedAt start changed_us [] = changed_us ≡ 0
ChangedAt start changed_us ((bitrate_bps, now_us) ∷ past) =
    (((after start ((bitrate_bps, now_us) ∷ past)).rung ≢ (after start past).rung)
      × (changed_us ≡ now_us))
    ⊎ (((after start ((bitrate_bps, now_us) ∷ past)).rung ≡ (after start past).rung)
        × ChangedAt start changed_us past)

-- What has been where the ladder goes up at `now_us` to the rung `next`.
pub record Climbs (start : QualityLadder) (past : List (ℕ × ℕ)) (bitrate_bps now_us next : ℕ)
    : Type 0 where
  pub one : (after start past).rung ≡ suc next
  pub headroom : Suffices start.limits next bitrate_bps
  pub since_us : ℕ
  pub enough : EnoughSince start next since_us past
  pub steady : IsLong (after start past).step (step_at start.limits next) (sub64 now_us since_us)
  pub changed_us : ℕ
  pub changed : ChangedAt start changed_us past
  pub rested : IsLong (after start past).step (step_at start.limits next) (sub64 now_us changed_us)

-- What the two times of the ladder say of the updates before.
record Recalls (start q : QualityLadder) (past : List (ℕ × ℕ)) : Type 0 where
  limits : q.limits ≡ start.limits
  since : (q.up_since_us ≡ 0) ⊎ EnoughSince start (q.rung - 1) q.up_since_us past
  changed : ChangedAt start q.last_change_us past

recalled :
    (start : QualityLadder) (past : List (ℕ × ℕ))
    → Recalls start (after start past) past
    → 0 < (after start past).up_since_us
    → EnoughSince start ((after start past).rung - 1) (after start past).up_since_us past
recalled start past r seen = elim r.since [ inl e ↦ absurd (omega (arith, e, seen)) | inr x ↦ x ]

module _ (start : QualityLadder) (past : List (ℕ × ℕ)) (bitrate_bps now_us : ℕ) where
  abbrev next_past : List (ℕ × ℕ)
  next_past = (bitrate_bps, now_us) ∷ past

  -- Where the rung stays, so does the time of its last change.
  stays :
      (changed_us : ℕ)
      → (after start next_past).rung ≡ (after start past).rung
      → ChangedAt start changed_us past
      → ChangedAt start changed_us next_past
  stays changed_us same h = inr (same, h)

  here :
      0 < (after start past).rung
      → (after start past).limits ≡ start.limits
      → Suffices (after start past).limits ((after start past).rung - 1) bitrate_bps
      → {since_us : ℕ}
      → (since_us ≡ now_us) ⊎ EnoughSince start ((after start past).rung - 1) since_us past
      → EnoughSince start ((after start past).rung - 1) since_us next_past
  here low same enough since = (
    subst (λ l. Suffices l ((after start past).rung - 1) bitrate_bps) same enough,
    omega (arith, low),
    since,
  )

  Updated-Recalls :
      (q' : QualityLadder)
      → after start next_past ≡ q'
      → Recalls start (after start past) past
      → Updated (after start past) bitrate_bps now_us q'
      → Recalls start q' next_past
  Updated-Recalls q' is r (falls rung lower e) =
      subst (λ x. Recalls start x next_past) (sym e)
        (record {
          limits = r.limits;
          since = inl refl;
          changed = inl (
            (λ same. ground (arith, lower, same, ap (λ (x : QualityLadder). x.rung) (is ∙ e))),
            refl,
          );
        })
  Updated-Recalls q' is r (rests e) =
      subst (λ x. Recalls start x next_past) (sym e)
        (record {
          limits = r.limits;
          since = inl refl;
          changed = stays _ (ap (λ (x : QualityLadder). x.rung) (is ∙ e)) r.changed;
        })
  Updated-Recalls q' is r (starts low enough e) =
      subst (λ x. Recalls start x next_past) (sym e)
        (record {
          limits = r.limits;
          since = inr (here low r.limits enough (inl refl));
          changed = stays _ (ap (λ (x : QualityLadder). x.rung) (is ∙ e)) r.changed;
        })
  Updated-Recalls q' is r (waits low enough seen e) =
      subst (λ x. Recalls start x next_past) (sym e)
        (record {
          limits = r.limits;
          since = inr (here low r.limits enough (inr (recalled start past r seen)));
          changed = stays _ (ap (λ (x : QualityLadder). x.rung) (is ∙ e)) r.changed;
        })
  Updated-Recalls q' is r (climbs low enough seen steady rested e) =
      subst (λ x. Recalls start x next_past) (sym e)
        (record {
          limits = r.limits;
          since = inl refl;
          changed = inl (
            (λ same. ground (arith, low, same, ap (λ (x : QualityLadder). x.rung) (is ∙ e))),
            refl,
          );
        })

Recalls-after :
    (start : QualityLadder) (past : List (ℕ × ℕ))
    → start.up_since_us ≡ 0
    → start.last_change_us ≡ 0
    → Recalls start (after start past) past
unfolding after
Recalls-after start [] h k = record { limits = refl; since = inl h; changed = k }
Recalls-after start ((bitrate_bps, now_us) ∷ past) h k =
    Updated-Recalls start past bitrate_bps now_us _ refl (Recalls-after start past h k)
      (update-Updated (after start past) bitrate_bps now_us)

Updated-Climbs :
    (start : QualityLadder) (past : List (ℕ × ℕ)) (bitrate_bps now_us : ℕ) (q' : QualityLadder)
    → Recalls start (after start past) past
    → q'.rung < (after start past).rung
    → Updated (after start past) bitrate_bps now_us q'
    → Climbs start past bitrate_bps now_us q'.rung
Updated-Climbs start past bitrate_bps now_us q' r h (falls rung lower e) =
    absurd (omega (arith, h, lower, ap (λ (x : QualityLadder). x.rung) e))
Updated-Climbs start past bitrate_bps now_us q' r h (rests e) =
    absurd (omega (arith, h, ap (λ (x : QualityLadder). x.rung) e))
Updated-Climbs start past bitrate_bps now_us q' r h (starts low enough e) =
    absurd (omega (arith, h, ap (λ (x : QualityLadder). x.rung) e))
Updated-Climbs start past bitrate_bps now_us q' r h (waits low enough seen e) =
    absurd (omega (arith, h, ap (λ (x : QualityLadder). x.rung) e))
Updated-Climbs start past bitrate_bps now_us q' r h (climbs low enough seen steady rested e) =
    let q = after start past in
    let long : (l : Limits)
        → q.limits ≡ l
        → (time_us : ℕ) → IsLong q.step (step_at q.limits (q.rung - 1)) time_us
        → IsLong q.step (step_at l (q.rung - 1)) time_us =
      λ l same time_us x. subst (λ l. IsLong q.step (step_at l (q.rung - 1)) time_us) same x in
    subst (Climbs start past bitrate_bps now_us) (sym (ap (λ (x : QualityLadder). x.rung) e))
      (record {
        one = omega (arith, low);
        headroom = subst (λ l. Suffices l (q.rung - 1) bitrate_bps) r.limits enough;
        since_us = q.up_since_us;
        enough = recalled start past r seen;
        steady = long start.limits r.limits _ steady;
        changed_us = q.last_change_us;
        changed = r.changed;
        rested = long start.limits r.limits _ rested;
      })

-- On a new ladder that has seen any updates, an update that goes up goes up by one rung, with a
-- bitrate at least a fifth above what that rung needs. There was an update with such a bitrate so
-- long ago as the rung asks, which is fifteen seconds where the size changes and five where not,
-- and since then each bitrate was such a one and the rung was the same. The last change of the
-- rung, or the time 0 where there was none, is so long ago too. What is long ago is the difference
-- of two times in 64 bits.
pub update-Climbs :
    (max_w max_h max_fps : ℕ) (past : List (ℕ × ℕ)) (bitrate_bps now_us : ℕ)
    → let start = new_ladder max_w max_h max_fps in
      let next = (update (after start past) bitrate_bps now_us).1.rung in
      next < (after start past).rung → Climbs start past bitrate_bps now_us next
unfolding new_ladder
update-Climbs max_w max_h max_fps past bitrate_bps now_us h =
    let start = new_ladder max_w max_h max_fps in
    Updated-Climbs start past bitrate_bps now_us _ (Recalls-after start past refl refl) h
      (update-Updated (after start past) bitrate_bps now_us)
