-- ===== src/Containment/Graduated/Rows.antt =====
-- The row that a graduated response adds.
use acr_framework.Prelude.{
  ℕ, String, ◌≤◌, ◌<◌, ◌≡◌, refl, ◌⊎◌, inl, inr, true, false, Bool-cases, List, Option, [], ◌∷◌,
  ◌++◌, arith,
}
use acr_framework.Errors.{Result, ok, err}
use acr_framework.Redis.{Redis}
use acr_framework.Containment.KillSwitch.{KillState}
use acr_framework.Containment.Graduated.{
  ContainmentTier, no_tier, throttle, restrict, isolate, kill, tier_for_score, Surroundings,
  ContainmentAction, ContainmentState, action_for, enforce, apply_graduated_response, is_none,
  after_kill,
}

after_kill_rows :
    (action : ContainmentAction) (rows : List ContainmentAction) (r : Result KillState × Redis)
    → (after_kill action rows r).1.rows ≡ rows
unfolding after_kill
after_kill_rows action rows (ok s, r) = refl
after_kill_rows action rows (err e, r) = refl

enforce_rows :
    (env : Surroundings) (tier : ContainmentTier) (action : ContainmentAction)
    (s : ContainmentState)
    → (enforce env tier action s).1.rows ≡ s.rows
unfolding enforce
enforce_rows env kill action s = after_kill_rows action s.rows _
enforce_rows env no_tier action s = refl
enforce_rows env throttle action s = refl
enforce_rows env restrict action s = refl
enforce_rows env isolate action s = refl

low_none : (score : ℕ) → is_none (tier_for_score score) ≡ true → score < 6000
unfolding tier_for_score
low_none score h = ground arith

high_some : (score : ℕ) → is_none (tier_for_score score) ≡ false → 6000 ≤ score
unfolding tier_for_score
high_some score h = ground arith

-- A score below the first threshold changes nothing, any other adds one row.
pub response_rows :
    (env : Surroundings) (a : String) (score : ℕ) (cid : Option String) (s : ContainmentState)
    → ((score < 6000) × ((apply_graduated_response env a score cid s).1 ≡ s))
      ⊎ ((6000 ≤ score)
          × ((apply_graduated_response env a score cid s).1.rows
              ≡ s.rows ++ action_for env (tier_for_score score) a score cid ∷ []))
unfolding apply_graduated_response
response_rows env a score cid s = elim (Bool-cases (is_none (tier_for_score score))) [
  | inl e ↦ inl (low_none score e, rw (apply_graduated_response, e) refl)
  | inr e ↦ inr (
    high_some score e,
    rw (apply_graduated_response, e) (enforce_rows env (tier_for_score score) _ _),
  )
]
