-- ===== src/Gateway/Models.antt =====
-- gateway/models.py, and the state that the endpoint works on.
use acr_framework.Prelude.{ℕ, String, Bool, true, false, Option, none, some, List}
use acr_framework.Prelude.Int.{ℤ}
use acr_framework.Errors.{Result}
use acr_framework.Json.{Json, null, str, obj, Fields, end, field}
use acr_framework.Redis.{Redis}
use acr_framework.Identity.Registry.{AgentTable}
use acr_framework.Policy.Filter.{Patterns}
use acr_framework.Policy.Engine.{
  Decision, allow, deny, modify, escalate, PolicyDecision, Breaker, Reply,
}
use acr_framework.Authority.Approval.{ApprovalTable}

-- EvaluateRequest with its ActionRequest; the intent only reaches the telemetry.
pub record EvaluateRequest : Type 0 where
  pub agent_id : String
  pub tool_name : String
  pub parameters : Fields
  pub description : Option String
  pub context : Fields

abbrev text_or_null : Option String → Json
text_or_null none = null
text_or_null (some s) = str s

-- `req.action.model_dump()`
abbrev pub dump_action : EvaluateRequest → Fields
dump_action req = field "tool_name" (str req.tool_name) (
    field "parameters" (obj req.parameters)
      (field "description" (text_or_null req.description) end))

-- The body of the JSONResponse with its status; a key that a branch does not send is `none`.
pub record Response : Type 0 where
  pub status : ℕ
  pub decision : Decision
  pub error_code : Option String
  pub reason : Option String
  pub approval_request_id : Option String
  pub policy_decisions : List PolicyDecision
  pub drift_score : Option ℤ
  pub estimated_cost_usd : Option ℤ
  pub hourly_spend_usd : Option ℤ
  pub modified_action : Option Fields
  pub execution_result : Option Fields

-- `is_allowed` of EvaluateResponse.
abbrev pub is_allowed : Decision → Bool
is_allowed allow = true
is_allowed modify = true
is_allowed deny = false
is_allowed escalate = false

-- The arguments of `execute_action`.
pub record Execution : Type 0 where
  pub agent_id : String
  pub tool_name : String
  pub parameters : Fields
  pub description : Option Json
  pub correlation_id : String
  pub approval_request_id : Option String

-- The background tasks of a request.
pub data Task : Type 0 where
  emit_telemetry : Decision → Option String → Task
  record_drift_sample : String → String → Bool → Task
  maybe_run_drift_check : String → Task
  persist_policy_decisions : String → String → List PolicyDecision → Task

-- What the handler reads and writes. `executions` logs each call that reached the executor.
pub record World : Type 0 where
  pub redis : Redis
  pub agents : AgentTable
  pub approvals : ApprovalTable
  pub tasks : List Task
  pub executions : List Execution

-- The parts behind the handler: the policy engine's breaker and replies, the patterns of the output
-- filter, the executor, and what the request is given: identifiers and the time of an insert.
pub record Services : Type 0 where
  pub breaker : Breaker
  pub post : Fields → ℕ → Reply
  pub patterns : Patterns
  pub execute : Execution → Result Fields
  pub correlation_id : String
  pub request_id : String
  pub now : ℕ
