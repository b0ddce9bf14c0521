-- ===== src/Containment/Graduated/Ladder.antt =====
-- What a drift score does: the tier it selects, and the key that the tier writes.
use acr_framework.Prelude.{
  ℕ, String, ◌+◌, ◌≤◌, ◌<◌, ◌≡◌, refl, ◌↔◌, true, false, Option, some, [], ◌∷◌, ◌++◌, arith,
  if◌then◌else◌, str_refl, ◌⊎◌, inr, inl, ◌≢◌,
}
use acr_framework.Errors.{ok}
use acr_framework.Redis.{Redis, live}
use acr_framework.Containment.Graduated.{
  ContainmentTier, no_tier, throttle, restrict, isolate, kill, tier_for_score, Surroundings,
  ContainmentAction, ContainmentState, action_for, enforce, apply_graduated_response, is_none,
}

-- The bounds that each tier covers, in ten-thousandths, as the thresholds in the code have them.
pub tier_bounds :
    (score : ℕ)
    → ((tier_for_score score ≡ no_tier) ↔ (score < 6000))
      × ((tier_for_score score ≡ throttle) ↔ ((6000 ≤ score) × (score < 7500)))
      × ((tier_for_score score ≡ restrict) ↔ ((7500 ≤ score) × (score < 9000)))
      × ((tier_for_score score ≡ isolate) ↔ ((9000 ≤ score) × (score < 9500)))
      × ((tier_for_score score ≡ kill) ↔ (9500 ≤ score))
unfolding tier_for_score
tier_bounds score = (ground arith, ground arith, ground arith, ground arith, ground arith)

-- What the gateway can read of a tier's key at a time.
abbrev pub Enforced : ContainmentTier → ℕ → String → Redis → Type 0
Enforced throttle t a r = live t (r.throttle a) ≡ some 50
Enforced restrict t a r = live t (r.restrict a) ≡ some []
Enforced isolate t a r = live t (r.isolate a) ≡ some "1"
Enforced _ t a r = Unit

enforce_keeps :
    (env : Surroundings) (tier : ContainmentTier) (action : ContainmentAction)
    (s : ContainmentState) (t : ℕ)
    → env.connected ≡ true
    → env.write_fails ≡ false
    → t < env.now + 3600
    → (tier ≡ kill)
      ⊎ (((enforce env tier action s).0 ≡ ok (some action))
          × Enforced tier t action.agent_id (enforce env tier action s).1.redis)
unfolding enforce
enforce_keeps env no_tier action s t up works soon = inr (refl, tt)
enforce_keeps env throttle action s t up works soon =
    inr (refl, ground (arith, str_refl action.agent_id))
enforce_keeps env restrict action s t up works soon =
    inr (refl, ground (arith, str_refl action.agent_id))
enforce_keeps env isolate action s t up works soon =
    inr (refl, ground (arith, str_refl action.agent_id))
enforce_keeps env kill action s t up works soon = inl refl

middle_tier :
    (score : ℕ)
    → 6000 ≤ score
    → score < 9500
    → (is_none (tier_for_score score) ≡ false) × (tier_for_score score ≢ kill)
unfolding tier_for_score
middle_tier score lo hi = (ground arith, ground arith)

-- With Redis at hand, a score below the kill threshold and at least the lowest one leaves the key of
-- its tier, which the gateway can read for the 3600 seconds that follow.
pub response-Enforced :
    (env : Surroundings) (a : String) (score : ℕ) (cid : Option String) (s : ContainmentState)
    (t : ℕ)
    → env.connected ≡ true
    → env.write_fails ≡ false
    → 6000 ≤ score
    → score < 9500
    → t < env.now + 3600
    → ((apply_graduated_response env a score cid s).0
        ≡ ok (some (action_for env (tier_for_score score) a score cid)))
      × Enforced (tier_for_score score) t a (apply_graduated_response env a score cid s).1.redis
unfolding apply_graduated_response action_for
response-Enforced env a score cid s t up works lo hi soon =
    let (some_tier, not_kill) = middle_tier score lo hi in
    let tier = tier_for_score score in
    let action = action_for env tier a score cid in
    rw (some_tier, if◌then◌else◌)
      (elim (enforce_keeps env tier action (record s { rows = s.rows ++ action ∷ [] }) t up works
        soon) [ inl killed ↦ absurd (not_kill killed) | inr kept ↦ kept ])
