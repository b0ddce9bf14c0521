-- ===== src/Gateway/Evaluate/Secure.antt =====
-- What has to hold before an action is let through.
use acr_framework.Prelude.{
  ℕ, String, ◌≡◌, refl, ◌⊎◌, inl, inr, Bool, true, false, arith, ◌∙◌, not, ◌==◌, str_iff, ap,
}
use acr_framework.Prelude.Int.{ℤ}
use acr_framework.Errors.{unexpected, agent_killed, ok}
use acr_framework.Identity.Models.{AgentRecord, AgentManifest}
use acr_framework.Identity.Dump.{dump_manifest}
use acr_framework.Identity.Registry.{get_manifest}
use acr_framework.Identity.Validator.{validate_agent_identity}
use acr_framework.Policy.Engine.{PolicyEvaluationResult, evaluate_policy, opa_input}
use acr_framework.Policy.Engine.Verdict.{Permits, IsBacked, evaluate_policy_secure}
use acr_framework.Containment.KillSwitch.{is_agent_killed}
use acr_framework.Gateway.Outside.{Settings, Outside, kill_read, is_fault}
use acr_framework.Gateway.Models.{EvaluateRequest, World, Services, is_allowed, dump_action}
use acr_framework.Gateway.Spend.{resolve_action_cost_usd, projected_spend}
use acr_framework.Gateway.Gates.{
  Gate, pass, isolated, restricted, broken, containment_gate, get_rate_count, effective_count,
}
use acr_framework.Gateway.Gates.Counter.{get_rate_count-spend}
use acr_framework.Gateway.Evaluate.{
  enriched_context, answer_of, past_gate, at_gate, checked, evaluate, unless_killed,
}
use acr_framework.Gateway.Evaluate.Refusal.{
  RefusedUnless, raised, lift-RefusedUnless, redis-RefusedUnless, if-RefusedUnless,
  after_policy-RefusedUnless,
}

-- All that is known when the policy engine has answered.
pub record IsCleared (c : Settings) (env : Outside) (svc : Services) (req : EvaluateRequest)
    (w : World) : Type 0 where
  pub share : ℕ
  pub gate : containment_gate env req.agent_id req.tool_name w.redis ≡ pass share
  pub row : AgentRecord
  pub validated : validate_agent_identity w.agents req.agent_id ≡ ok row
  pub manifest : AgentManifest
  pub of_agent : get_manifest w.agents req.agent_id ≡ ok manifest
  pub count : ℕ
  pub counted : (get_rate_count c env req.agent_id w.redis).0 ≡ ok count
  pub effective : ℕ
  pub scaled : effective_count share count ≡ ok effective
  pub cost : ℤ
  pub priced : resolve_action_cost_usd c manifest.boundaries req.tool_name ≡ ok cost
  pub projected : ℤ
  pub spent :
      projected_spend c env req.agent_id cost (get_rate_count c env req.agent_id w.redis).1
      ≡ ok projected
  pub verdict : PolicyEvaluationResult
  pub asked :
      evaluate_policy svc.breaker svc.post
        (dump_manifest manifest)
        (dump_action req)
        (enriched_context req.context effective projected)
      ≡ ok verdict
  pub permitted : Permits verdict
  pub backed : IsBacked svc.breaker (
      svc.post (
        opa_input
          (dump_manifest manifest)
          (dump_action req)
          (enriched_context req.context effective projected)))

past_gate-RefusedUnless :
    (c : Settings) (env : Outside) (svc : Services) (req : EvaluateRequest) (share : ℕ) (w : World)
    → containment_gate env req.agent_id req.tool_name w.redis ≡ pass share
    → RefusedUnless (IsCleared c env svc req w) w (past_gate c env svc req share w)
unfolding past_gate
past_gate-RefusedUnless c env svc req share w g =
    lift-RefusedUnless P w (validate_agent_identity w.agents req.agent_id) _ (λ row ha.
      lift-RefusedUnless P w (get_manifest w.agents req.agent_id) _ (λ manifest hm.
        redis-RefusedUnless P w (get_rate_count c env req.agent_id w.redis).0 w'.redis _
          (get_rate_count-spend c env req.agent_id w.redis)
          (λ count hc. lift-RefusedUnless P w' (effective_count share count) _ (λ effective he.
            lift-RefusedUnless P w' (resolve_action_cost_usd c manifest.boundaries req.tool_name) _
              (λ cost hr.
                lift-RefusedUnless P w' (projected_spend c env req.agent_id cost w'.redis) _
                  (λ projected hp.
                    lift-RefusedUnless P w'
                      (evaluate_policy svc.breaker svc.post (dump_manifest manifest)
                        (dump_action req) (enriched_context req.context effective projected))
                      _
                      (λ verdict hv.
                        after_policy-RefusedUnless P c env svc req cost projected verdict w'
                          (λ permitted. record {
                            share = share;
                            gate = g;
                            row = row;
                            validated = ha;
                            manifest = manifest;
                            of_agent = hm;
                            count = count;
                            counted = hc;
                            effective = effective;
                            scaled = he;
                            cost = cost;
                            priced = hr;
                            projected = projected;
                            spent = hp;
                            verdict = verdict;
                            asked = hv;
                            permitted = permitted;
                            backed =
                                evaluate_policy_secure svc.breaker svc.post (dump_manifest manifest)
                                  (dump_action req)
                                  (enriched_context req.context effective projected) verdict hv
                                  permitted;
                          }))))))))
  where
    P : Type 0
    P = IsCleared c env svc req w

    w' : World
    w' = record w { redis = (get_rate_count c env req.agent_id w.redis).1 }

at_gate-RefusedUnless :
    (c : Settings) (env : Outside) (svc : Services) (req : EvaluateRequest) (gate : Gate)
    (w : World)
    → containment_gate env req.agent_id req.tool_name w.redis ≡ gate
    → RefusedUnless (IsCleared c env svc req w) w (at_gate c env svc req gate w)
unfolding at_gate answer_of
at_gate-RefusedUnless c env svc req (pass share) w g =
    past_gate-RefusedUnless c env svc req share w g
at_gate-RefusedUnless c env svc req isolated w g = inl (refl, refl, refl)
at_gate-RefusedUnless c env svc req restricted w g = inl (refl, refl, refl)
at_gate-RefusedUnless c env svc req broken w g = raised (IsCleared c env svc req w) w unexpected

-- The token is the agent's own, the kill switch was read and is off, and all else is cleared.
pub record IsAuthorized (c : Settings) (env : Outside) (svc : Services) (subject : String)
    (req : EvaluateRequest) (w : World) : Type 0 where
  pub own : subject ≡ req.agent_id
  pub alive :
      is_agent_killed env.connected (is_fault (env.fault kill_read)) req.agent_id w.redis ≡ ok false
  pub cleared : IsCleared c env svc req w

unless_killed-RefusedUnless :
    (P : Type 0) (c : Settings) (env : Outside) (svc : Services) (req : EvaluateRequest)
    (killed : Bool) (w : World)
    → (killed ≡ false → IsCleared c env svc req w → P)
    → RefusedUnless P w (
        unless_killed c env svc req killed
          (containment_gate env req.agent_id req.tool_name w.redis)
          w)
unfolding unless_killed
unless_killed-RefusedUnless P c env svc req true w f = raised P w agent_killed
unless_killed-RefusedUnless P c env svc req false w f =
    elim (at_gate-RefusedUnless c env svc req
      (containment_gate env req.agent_id req.tool_name w.redis) w refl) [
        | inl refused ↦ inl refused
        | inr cleared ↦ inr (f refl cleared)
      ]

checked-RefusedUnless :
    (c : Settings) (env : Outside) (svc : Services) (subject : String) (req : EvaluateRequest)
    (w : World)
    → RefusedUnless (IsAuthorized c env svc subject req w) w (checked c env svc subject req w)
unfolding checked answer_of
checked-RefusedUnless c env svc subject req w =
    if-RefusedUnless P w (not (subject == req.agent_id)) _ _ (λ _. inl (refl, refl, refl))
      (λ own.
        lift-RefusedUnless P w
          (is_agent_killed env.connected (is_fault (env.fault kill_read)) req.agent_id w.redis) _
          (λ killed h. unless_killed-RefusedUnless P c env svc req killed w (λ off cleared. record {
            own = ground (arith, str_iff subject req.agent_id);
            alive = h ∙ ap ok off;
            cleared = cleared;
          })))
  where
    P : Type 0
    P = IsAuthorized c env svc subject req w

-- The gateway fails secure. Whatever the request, the faults of Redis and the answers of the policy
-- engine: either the answer permits nothing, the executor was not called and the ledger is as it
-- was; or the token is the agent's own, the kill switch was read and is off, no isolation and no
-- restriction stands against the tool, the agent is registered and active, its action was counted
-- and priced, and the policy engine, asked with the server's figures, permits the action.
pub evaluate_secure :
    (c : Settings) (env : Outside) (svc : Services) (subject : String) (req : EvaluateRequest)
    (w : World)
    → ((is_allowed (evaluate c env svc subject req w).0.decision ≡ false)
        × ((evaluate c env svc subject req w).1.executions ≡ w.executions)
        × ((evaluate c env svc subject req w).1.redis.spend ≡ w.redis.spend))
      ⊎ IsAuthorized c env svc subject req w
unfolding evaluate
evaluate_secure c env svc subject req w = checked-RefusedUnless c env svc subject req w
