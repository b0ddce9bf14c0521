-- ===== src/Authority/Endpoint.antt =====
-- pillar6_authority/router.py: the endpoints by which an operator decides, and execute_approval of
-- approval.py. The operator is the outcome of require_operator_roles.
pub mod Inversion
pub mod Executed
use acr_framework.Prelude.{
  ℕ, String, Bool, true, false, Option, none, some, List, [], ◌∷◌, ◌==◌, if◌then◌else◌,
}
use acr_framework.Prelude.Table.{update}
use acr_framework.Errors.{Result, ok, err, http}
use acr_framework.Exec.{Exec, pure, raise, lift, ◌>>=◌, ◌>>◌}
use acr_framework.Json.{Fields}
use acr_framework.Identity.Registry.{get_manifest}
use acr_framework.Authority.Approval.{
  ApprovalRecord, ApprovalTable, request_key, get_approval_request, approve, deny, override,
  record_execution,
}
use acr_framework.Gateway.Outside.{Settings, Outside}
use acr_framework.Gateway.Models.{Execution, World, Services}
use acr_framework.Gateway.Spend.{resolve_action_cost_usd}
use acr_framework.Gateway.Evaluate.{charge_and_execute}

-- The stored action, as the executor is given it.
abbrev pub execution_for : ApprovalRecord → Execution
execution_for r = record {
  agent_id = r.agent_id;
  tool_name = r.tool_name;
  parameters = r.parameters;
  description = r.description;
  correlation_id = r.correlation_id;
  approval_request_id = some r.request_id;
}

pub execute_approval : Settings → Outside → Services → ApprovalRecord → Exec World Fields
execute_approval c env svc r = do
  manifest ← (λ w. (get_manifest w.agents r.agent_id, w))
  cost ← lift (resolve_action_cost_usd c manifest.boundaries r.tool_name)
  result ← charge_and_execute c env svc r.agent_id cost (execution_for r)
  λ w. (ok result, record w { approvals = record_execution w.approvals r.request_id result })

-- A decision on the table of the world.
abbrev pub decided : Result (ApprovalRecord × ApprovalTable) → Exec World ApprovalRecord
decided (ok (r, db)) w = (ok r, record w { approvals = db })
decided (err e) w = (err e, w)

unfoldable pub execute_if_allowed :
    Settings → Outside → Services → ApprovalRecord → Exec World (Unit {0})
unfolding execute_approval
execute_if_allowed c env svc r =
    if c.execute_allowed_actions
    then (do result ← execute_approval c env svc r; pure tt)
    else pure tt

-- The session of a request is rolled back when the handler raises.
abbrev pub with_session : {A : Type 0} → World → Result A × World → Result A × World
with_session before (ok a, w) = (ok a, w)
with_session before (err e, w) =
    (err e, record w { agents = before.agents; approvals = before.approvals })

-- `db.refresh(record)`
abbrev pub refreshed : String → Exec World ApprovalRecord
refreshed id w = (get_approval_request w.approvals id, w)

-- The body of POST /acr/approvals/{request_id}/approve.
unfoldable pub approve_steps :
    Settings
    → Outside
    → Services
    → ℕ
    → Result String
    → String
    → Option String
    → Exec World ApprovalRecord
approve_steps c env svc now operator id reason = do
  by ← lift operator
  r ← (λ w. decided (approve now w.approvals id by reason) w)
  execute_if_allowed c env svc r
  refreshed id

unfoldable pub approve_endpoint :
    Settings
    → Outside
    → Services
    → ℕ
    → Result String
    → String
    → Option String
    → Exec World ApprovalRecord
unfolding approve_steps
approve_endpoint c env svc now operator id reason w =
    with_session w (approve_steps c env svc now operator id reason w)

-- POST /acr/approvals/{request_id}/deny
pub deny_endpoint : ℕ → Result String → String → Option String → Exec World ApprovalRecord
deny_endpoint now operator id reason w = with_session w (
    (do by ← lift operator; r ← (λ v. decided (deny now v.approvals id by reason) v); refreshed id)
      w)

abbrev given : Option String → Result String
given none = err (http 422)
given (some s) = if s == "" then err (http 422) else ok s

-- POST /acr/approvals/{request_id}/override
pub override_endpoint :
    Settings
    → Outside
    → Services
    → ℕ
    → Result String
    → String
    → Option String
    → Exec World ApprovalRecord
unfolding execute_if_allowed
override_endpoint c env svc now operator id reason w = with_session w (
    (do
      by ← lift operator
      text ← lift (given reason)
      r ← (λ v. decided (override now v.approvals id by text) v)
      execute_if_allowed c env svc r
      refreshed id)
      w)
