-- ===== src/Policy/Engine/Verdict.antt =====
-- When the policy engine lets an action through.
use mathlib.Core.Path.{subst}
use acr_framework.Prelude.{
  ◌≡◌, refl, ◌↔◌, ◌⊎◌, inl, inr, true, false, Option, none, some, [], arith, get_or, sym, ℕ,
  is_some, ◌∙◌,
}
use acr_framework.Errors.{Result, ok, err}
use acr_framework.Json.{Fields}
use acr_framework.Policy.Engine.{
  OpaResult, Reply, Breaker, allow, modify, rule, PolicyEvaluationResult, judge, result_of,
  empty_result, call_opa, through_breaker, opa_input, finish, evaluate_policy, coerce_dict,
  modified_payload, circuit_open,
}

-- The rules give no reason to deny, ask for no approval and no modification, and allow.
abbrev pub IsAllowed : OpaResult → Type 0
IsAllowed r =
    (get_or r.deny [] ≡ [])
    × (rule r.escalate ≡ false)
    × (rule r.modify ≡ false)
    × (rule r.allow ≡ true)

-- The rules give no reason to deny, ask for no approval, and ask for a modification with a payload.
abbrev pub IsModified : OpaResult → Type 0
IsModified r =
    (get_or r.deny [] ≡ [])
    × (rule r.escalate ≡ false)
    × (rule r.modify ≡ true)
    × (is_some
          (modified_payload (coerce_dict r.modified_action) (coerce_dict r.modified_parameters))
        ≡ true)

-- Deny by default: the verdict on an answer is `allow` exactly when the rules allow it without a
-- reservation, and `modify` exactly when they ask for a modification and give a payload.
pub judge_permits :
    (r : OpaResult)
    → (((judge r).final ≡ allow) ↔ IsAllowed r) × (((judge r).final ≡ modify) ↔ IsModified r)
unfolding judge
judge_permits r = (ground arith, ground arith)

final-result_of :
    (body : Option OpaResult)
    → (result_of body).final_decision ≡ (judge (get_or body empty_result)).final
unfolding result_of
final-result_of body = refl

abbrev pub Permits : PolicyEvaluationResult → Type 0
Permits v = (v.final_decision ≡ allow) ⊎ (v.final_decision ≡ modify)

ok-eq : {A : Type 0} {a b : A} → ok a ≡ ok b → a ≡ b
ok-eq h = cc

-- What stands behind a permission: the breaker let the call through, the call was answered within
-- its attempts, and the rules of that answer permit the action.
pub record IsBacked (b : Breaker) (post : ℕ → Reply) : Type 0 where
  pub body : Option OpaResult
  pub admitted : b.refuses ≡ false
  pub answered : (call_opa post).0 ≡ ok body
  pub permitted : IsAllowed (get_or body empty_result) ⊎ IsModified (get_or body empty_result)

permits_of :
    (body : Option OpaResult)
    → Permits (result_of body)
    → IsAllowed (get_or body empty_result) ⊎ IsModified (get_or body empty_result)
permits_of body (inl a) =
    inl ((judge_permits (get_or body empty_result)).0.0 (sym (final-result_of body) ∙ a))
permits_of body (inr m) =
    inr ((judge_permits (get_or body empty_result)).1.0 (sym (final-result_of body) ∙ m))

through_breaker-ok :
    (b : Breaker) (post : ℕ → Reply) (body : Option OpaResult)
    → through_breaker b post ≡ some (ok body)
    → (b.refuses ≡ false) × ((call_opa post).0 ≡ ok body)
unfolding through_breaker
through_breaker-ok b post body h = ground arith

not_open : Permits circuit_open → ⊥
unfolding circuit_open
not_open p = ground arith

backed :
    (b : Breaker) (post : ℕ → Reply) (o : Option (Result (Option OpaResult)))
    (v : PolicyEvaluationResult)
    → through_breaker b post ≡ o
    → finish o ≡ ok v
    → Permits v
    → IsBacked b post
unfolding finish
backed b post none v e h p = absurd (not_open (subst Permits (sym (ok-eq h)) p))
backed b post (some (ok body)) v e h p =
    let (admitted, answered) = through_breaker-ok b post body e in
    record {
      body = body;
      admitted = admitted;
      answered = answered;
      permitted = permits_of body (subst Permits (sym (ok-eq h)) p);
    }
backed b post (some (err x)) v e h p = cc

-- The engine fails secure: whenever the result permits the action (allow or modify), OPA itself
-- answered and its rules permit it. An open breaker, a failed call and an empty answer never do.
pub evaluate_policy_secure :
    (b : Breaker) (post : Fields → ℕ → Reply) (agent action context : Fields)
    (v : PolicyEvaluationResult)
    → evaluate_policy b post agent action context ≡ ok v
    → Permits v
    → IsBacked b (post (opa_input agent action context))
unfolding evaluate_policy
evaluate_policy_secure b post agent action context v h p =
    backed b (post (opa_input agent action context))
      (through_breaker b (post (opa_input agent action context))) v refl h p
