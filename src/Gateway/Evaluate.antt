-- ===== src/Gateway/Evaluate.antt =====
-- gateway/router.py: POST /acr/evaluate, from the gates to the response. Latencies, log lines and
-- metrics are left out; the telemetry event is a task with its decision and reason.
pub mod Refusal
pub mod Secure
pub mod Figures
pub mod Called
pub mod Refund
use acr_framework.Prelude.{
  ℕ, String, Bool, true, false, not, ◌||◌, Option, none, some, List, [], ◌∷◌, ◌++◌, ◌==◌,
  if◌then◌else◌, eqb, get_or,
}
use acr_framework.Prelude.Int.{ℤ, pos, ◌-ℤ◌}
use acr_framework.Errors.{
  AcrError, Result, ok, err, agent_killed, unexpected, http, status_code, error_code,
}
use acr_framework.Exec.{Exec, pure, raise, lift, ◌>>=◌, ◌>>◌}
use acr_framework.Json.{str, null, end, field, Json, int, float, obj, Fields, get, set}
use acr_framework.Redis.{Redis, live}
use acr_framework.Identity.Models.{AgentManifest}
use acr_framework.Identity.Dump.{dump_manifest}
use acr_framework.Identity.Registry.{get_manifest}
use acr_framework.Identity.Validator.{validate_agent_identity}
use acr_framework.Policy.Filter.{PiiType, filter_parameters}
use acr_framework.Policy.Engine.{
  Decision, allow, deny, modify, escalate, PolicyDecision, PolicyEvaluationResult, evaluate_policy,
}
use acr_framework.Authority.Approval.{NewApproval, create_approval_request}
use acr_framework.Containment.KillSwitch.{is_agent_killed}
use acr_framework.Gateway.Outside.{
  Settings, Outside, kill_read, spend_charge, spend_refund, drift_read, is_fault,
}
use acr_framework.Gateway.Models.{
  EvaluateRequest, dump_action, Response, Execution, Task, emit_telemetry, record_drift_sample,
  maybe_run_drift_check, persist_policy_decisions, World, Services,
}
use acr_framework.Gateway.Spend.{resolve_action_cost_usd, projected_spend, adjust_spend}
use acr_framework.Gateway.Gates.{
  Gate, pass, isolated, restricted, broken, containment_gate, get_rate_count, effective_count,
}
use acr_framework.Gateway.Effective.{
  effective_action, parameters_of, tool_of, Verdict, response_verdict,
}

-- A response without the parts that only some branches send.
abbrev plain : ℕ → Decision → Option String → Option String → Response
plain status decision code reason = record {
  status = status;
  decision = decision;
  error_code = code;
  reason = reason;
  approval_request_id = none;
  policy_decisions = [];
  drift_score = none;
  estimated_cost_usd = none;
  hourly_spend_usd = none;
  modified_action = none;
  execution_result = none;
}

-- An action on Redis as one on the world.
abbrev on_redis : {A : Type 0} → Exec Redis A → Exec World A
on_redis m w = let (r, redis') = m w.redis in (r, record w { redis = redis' })

-- The tasks of `_queue_background_tasks` and the one that follows each call of it, which has a tool
-- name of its own.
abbrev queue :
    EvaluateRequest
    → String
    → String
    → Bool
    → Decision
    → Option String
    → List PolicyDecision
    → World
    → World
queue req tool logged denied decision reason decisions w = record w {
  tasks =
      w.tasks
      ++ emit_telemetry decision reason
        ∷ record_drift_sample req.agent_id tool denied
        ∷ maybe_run_drift_check req.agent_id
        ∷ persist_policy_decisions req.agent_id logged decisions
        ∷ [];
}

-- `_get_cached_drift_score`: a failure counts as no score.
cached_drift_score : Outside → String → Redis → Option ℤ
cached_drift_score env a r =
    if not env.connected || is_fault (env.fault drift_read)
    then none
    else live (env.clock drift_read) (r.drift_score a)

-- What is known when a decision is carried out.
pub record Prepared : Type 0 where
  pub action : Fields
  pub parameters : Fields
  pub verdict : Verdict
  pub approval_queue : Option String
  pub sla_minutes : Option ℕ
  pub cost : ℤ
  pub projected : ℤ
  pub drift : Option ℤ

abbrev or_default : Option String → String
or_default none = "default"
or_default (some s) = if s == "" then "default" else s

abbrev or_240 : Option ℕ → ℕ
or_240 none = 240
or_240 (some n) = if eqb n 0 then 240 else n

-- Step [6]: the approval request is committed before its identifier is returned.
escalated : Services → EvaluateRequest → Prepared → Exec World Response
escalated svc req p w =
    let n : NewApproval = record {
      correlation_id = svc.correlation_id;
      agent_id = req.agent_id;
      tool_name = tool_of p.action;
      parameters = p.parameters;
      description = get "description" p.action;
      approval_queue = or_default p.approval_queue;
      sla_minutes = or_240 p.sla_minutes;
    } in
    let (row, approvals') = create_approval_request svc.now svc.request_id n w.approvals in
    (
      ok (record (plain 202 escalate none p.verdict.reason) {
        approval_request_id = some row.request_id;
      }),
      queue req req.tool_name (tool_of p.action) false escalate p.verdict.reason p.verdict.decisions
          (record w { approvals = approvals' }),
    )

-- Step [7].
denied : EvaluateRequest → Prepared → Exec World Response
denied req p w = (
  ok (record (plain 403 deny none p.verdict.reason) { policy_decisions = p.verdict.decisions }),
  queue req (tool_of p.action) (tool_of p.action) true deny p.verdict.reason p.verdict.decisions w,
)

-- The call of the executor is logged, whatever comes of it.
call_executor : Services → Execution → Exec World (Result Fields)
call_executor svc e w = (ok (svc.execute e), record w { executions = w.executions ++ e ∷ [] })

-- `except Exception: refund; raise`
unfoldable pub refund_on_error : Settings → Outside → String → ℤ → Result Fields → Exec World Fields
refund_on_error c env a cost (ok result) = pure result
refund_on_error c env a cost (err e) = do
  on_redis (adjust_spend c env spend_refund a (pos 0 -ℤ cost))
  raise e

-- Charge, execute, and refund if the execution fails.
unfoldable pub charge_and_execute :
    Settings → Outside → Services → String → ℤ → Execution → Exec World Fields
unfolding call_executor
charge_and_execute c env svc a cost e = do
  on_redis (adjust_spend c env spend_charge a cost)
  result ← call_executor svc e
  refund_on_error c env a cost result

execution_of : Services → EvaluateRequest → Prepared → Execution
execution_of svc req p = record {
  agent_id = req.agent_id;
  tool_name = tool_of p.action;
  parameters = p.parameters;
  description = get "description" p.action;
  correlation_id = svc.correlation_id;
  approval_request_id = none;
}

-- The first half of step [8]: with execution switched off the action is only charged.
execute_if_enabled :
    Settings → Outside → Services → EvaluateRequest → Prepared → Exec World (Option Fields)
unfolding charge_and_execute execution_of
execute_if_enabled c env svc req p =
    if c.execute_allowed_actions
    then (do
      result ← charge_and_execute c env svc req.agent_id p.cost (execution_of svc req p)
      pure (some result))
    else (do on_redis (adjust_spend c env spend_charge req.agent_id p.cost); pure none)

-- `content["modified_action"]`
abbrev action_sent : Decision → Prepared → Option Fields
action_sent modify p = some (
    field "tool_name" (str (tool_of p.action)) (
      field "parameters" (obj p.parameters)
        (field "description" (get_or (get "description" p.action) null) end)))
action_sent _ p = none

-- Step [8].
permitted : Settings → Outside → Services → EvaluateRequest → Prepared → Exec World Response
unfolding execute_if_enabled
permitted c env svc req p = do
  result ← execute_if_enabled c env svc req p
  λ w. (
    ok (record (plain 200 p.verdict.decision none p.verdict.reason) {
      policy_decisions = p.verdict.decisions;
      drift_score = p.drift;
      estimated_cost_usd = some p.cost;
      hourly_spend_usd = some p.projected;
      modified_action = action_sent p.verdict.decision p;
      execution_result = result;
    }),
    queue req (tool_of p.action) (tool_of p.action) false p.verdict.decision p.verdict.reason
        p.verdict.decisions w,
  )

-- Steps [6] to [8], by the decision of the response.
pub carry_out : Settings → Outside → Services → EvaluateRequest → Prepared → Exec World Response
unfolding escalated denied permitted
carry_out c env svc req p = elim p.verdict.decision [
  | escalate ↦ escalated svc req p
  | deny ↦ denied req p
  | _ ↦ permitted c env svc req p
]

-- The output filter, for the action that remains, and what follows it up to the branches.
pub act_on :
    Settings
    → Outside
    → Services
    → EvaluateRequest
    → ℤ
    → ℤ
    → PolicyEvaluationResult
    → Option Fields
    → Exec World Response
unfolding carry_out cached_drift_score
act_on c env svc req cost projected v none = pure (
    plain 403 deny (some "INVALID_MODIFY_DECISION")
      (some "Runtime policy attempted to modify the action tool_name"))
act_on c env svc req cost projected v (some action) = do
  parameters ← lift (parameters_of action)
  let filtered = filter_parameters svc.patterns parameters
  λ w.
      carry_out c env svc req
        (record {
          action = set "parameters" (obj filtered.0) action;
          parameters = filtered.0;
          verdict = response_verdict v filtered.1;
          approval_queue = v.approval_queue;
          sla_minutes = v.sla_minutes;
          cost = cost;
          projected = projected;
          drift = cached_drift_score env req.agent_id w.redis;
        })
        w

-- Step [5] and all that follows it.
pub after_policy :
    Settings
    → Outside
    → Services
    → EvaluateRequest
    → ℤ
    → ℤ
    → PolicyEvaluationResult
    → Exec World Response
unfolding act_on
after_policy c env svc req cost projected v =
    act_on c env svc req cost projected v (effective_action req v)

-- `{**req.context, "actions_this_minute": ..., "hourly_spend_usd": ...}`
unfoldable pub enriched_context : Fields → ℕ → ℤ → Fields
enriched_context context count projected =
    set "hourly_spend_usd" (float projected) (set "actions_this_minute" (int (pos count)) context)

-- Steps [2] to [4], with the share of the rate limit that the gate left.
pub past_gate : Settings → Outside → Services → EvaluateRequest → ℕ → Exec World Response
unfolding after_policy enriched_context
past_gate c env svc req pct = do
  agent ← (λ w. (validate_agent_identity w.agents req.agent_id, w))
  manifest ← (λ w. (get_manifest w.agents req.agent_id, w))
  count ← on_redis (get_rate_count c env req.agent_id)
  effective ← lift (effective_count pct count)
  cost ← lift (resolve_action_cost_usd c manifest.boundaries req.tool_name)
  projected ← (λ w. (projected_spend c env req.agent_id cost w.redis, w))
  verdict ← lift (
      evaluate_policy svc.breaker svc.post (dump_manifest manifest) (dump_action req)
        (enriched_context req.context effective projected))
  after_policy c env svc req cost projected verdict

-- Step [1b].
pub at_gate : Settings → Outside → Services → EvaluateRequest → Gate → Exec World Response
unfolding past_gate
at_gate c env svc req (pass pct) = past_gate c env svc req pct
at_gate c env svc req isolated =
    pure (plain 202 escalate none (some "agent_isolated_all_actions_require_approval"))
at_gate c env svc req restricted =
    pure (plain 403 deny none (some "agent_restricted_tool_not_allowed"))
at_gate c env svc req broken = raise unexpected

-- Nothing is read after a switch that says killed.
unless_killed : Settings → Outside → Services → EvaluateRequest → Bool → Gate → Exec World Response
unfolding at_gate
unless_killed c env svc req killed gate =
    if killed then raise agent_killed else at_gate c env svc req gate

-- Steps [0] to [1b]; `subject` is the agent that the token was issued to.
pub checked : Settings → Outside → Services → String → EvaluateRequest → Exec World Response
unfolding unless_killed
checked c env svc subject req =
    if not (subject == req.agent_id)
    then pure (
        plain 403 deny (some "AGENT_ID_MISMATCH")
          (some "Token subject does not match request agent_id"))
    else (do
      killed ← (λ w.
          (is_agent_killed env.connected (is_fault (env.fault kill_read)) req.agent_id w.redis, w))
      λ w.
          unless_killed c env svc req killed
            (containment_gate env req.agent_id req.tool_name w.redis) w)

-- The `except` clauses: every error is a denial; its message, which becomes the reason, is left out. An error outside the hierarchy of ACRError, an
-- HTTPException too, is answered with 500.
pub denial_of : AcrError → Response
denial_of (http code) = plain 500 deny (some "INTERNAL_ERROR") none
denial_of e = plain (status_code e) deny (some (error_code e)) none

pub answer_of : Result Response → Response
unfolding denial_of
answer_of (ok r) = r
answer_of (err e) = denial_of e

-- POST /acr/evaluate.
pub evaluate : Settings → Outside → Services → String → EvaluateRequest → World → Response × World
unfolding checked answer_of
evaluate c env svc subject req w =
    let (r, w') = checked c env svc subject req w in (answer_of r, w')
