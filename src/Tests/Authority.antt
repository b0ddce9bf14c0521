-- ===== src/Tests/Authority.antt =====
-- A request that was denied, and calls that come too late.
use acr_framework.Prelude.{ℕ, ◌≡◌, refl, none, some, List, [], ◌∷◌, ap}
use acr_framework.Prelude.Table.{find}
use acr_framework.Prelude.Int.{pos}
use acr_framework.Prelude.Table.{update}
use acr_framework.Errors.{Result, ok}
use acr_framework.Json.{int, end, field, Fields}
use acr_framework.Identity.Registry.{get_manifest}
use acr_framework.Gateway.Models.{World, Services}
use acr_framework.Gateway.Spend.{resolve_action_cost_usd, adjust_spend}
use acr_framework.Gateway.Evaluate.{charge_and_execute, refund_on_error}
use acr_framework.Authority.Approval.{
  pending, approved, is_approved, approve, get_approval_request, record_execution,
}
use acr_framework.Authority.Endpoint.{approve_endpoint, approve_steps, execute_if_allowed}
use acr_framework.Authority.Endpoint.Executed.{IsApproval, approve_endpoint_lem}
use acr_framework.Tests.Fixtures.{settings, outside, services, world}
use acr_framework.Authority.Approval.{ApprovalRecord, request_key, denied, is_denied}
use acr_framework.Authority.Approval.Trace.{
  last_result, Call, approve_call, expire_call, run_all, decision_final, last_result, execute_call,
}

abbrev refused : ApprovalRecord
refused = record {
  request_id = "apr-1";
  correlation_id = "c-1";
  agent_id = "bot";
  tool_name = "query_db";
  parameters = end;
  description = none;
  approval_queue = "default";
  status = denied;
  decision = some is_denied;
  decided_by = some "ann";
  decision_reason = none;
  sla_minutes = 240;
  expires_at = some 14400;
  decided_at = some 60;
  execution_result = none;
}

abbrev rows : Fields
rows = field "rows" (int (pos 1)) end

abbrev late : List (ℕ × Call)
late =
    (90, approve_call "apr-1" "bob" none)
    ∷ (95, execute_call "apr-1" rows)
    ∷ (99, execute_call "apr-2" end)
    ∷ (20000, expire_call)
    ∷ []

decision_final_example :
    find request_key "apr-1" (run_all late (refused ∷ []))
    ≡ some (record refused { execution_result = some rows })
unfolding find last_result
decision_final_example = decision_final late (refused ∷ []) "apr-1" refused refl (λ e. cc)

-- The same request before the decision, and an executor that answers.
abbrev waiting : ApprovalRecord
waiting = record refused { status = pending; decision = none; decided_by = none; decided_at = none }

abbrev answering : Services
answering = record services { execute = λ e. ok (rows) }

abbrev queue_world : World
queue_world = record world { approvals = waiting ∷ [] }

abbrev granted : ApprovalRecord
granted = record refused {
  status = approved;
  decision = some is_approved;
  decided_by = some "bob";
  decided_at = some 90;
  execution_result = some (rows);
}

abbrev answered : Result ApprovalRecord × World
answered = approve_endpoint settings outside answering 90 (ok "bob") "apr-1" none queue_world

answered_granted : answered.0 ≡ ok granted
unfolding approve_endpoint approve_steps execute_if_allowed charge_and_execute refund_on_error
    resolve_action_cost_usd adjust_spend approve get_approval_request find update get_manifest
    record_execution
answered_granted = refl

approve_endpoint_lem_example : IsApproval settings (ok "bob") "apr-1" queue_world granted answered.1
approve_endpoint_lem_example =
    approve_endpoint_lem settings outside answering 90 (ok "bob") "apr-1" none queue_world
      answered.1 granted (ap (λ r. (r, answered.1)) answered_granted)
