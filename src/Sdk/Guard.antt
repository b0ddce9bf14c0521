-- ===== src/Sdk/Guard.antt =====
-- sdk/langgraph.py: a local tool behind the gateway. The binding of arguments to names is done by the
-- caller, and the intent, which only reaches the telemetry, is left out.
pub mod Allowed
use acr_framework.Prelude.{
  ℕ, String, Bool, true, false, not, Option, none, some, List, [], ◌∷◌, if◌then◌else◌,
}
use acr_framework.Json.{Json, Fields, end}
use acr_framework.Policy.Engine.{Decision, allow, deny, modify, escalate}
use acr_framework.Sdk.Client.{
  EvaluateResponse, Outcome, done, raised, SdkError, denied, escalated, Session, evaluate_action,
  ◌>>=◌,
}

-- The arguments of `guard_tool`. A tool may raise.
pub record GuardedTool : Type 0 where
  pub session : Session
  pub func : Fields → Outcome Json
  pub tool_name : String
  pub description : Option String
  pub context_builder : Option (Fields → Fields)
  pub execute_locally_on_allow : Bool

-- `_resolve_effective_parameters`
unfoldable pub resolve_effective_parameters : Fields → EvaluateResponse → Fields
resolve_effective_parameters original r = elim r.modified_parameters [
  | none ↦ original
  | some parameters ↦ parameters
]

block_on : EvaluateResponse → Decision → Outcome (Unit {0})
block_on r deny = raised (denied r)
block_on r escalate = raised (escalated r)
block_on r allow = done tt
block_on r modify = done tt

-- `_handle_blocking_decision`
handle_blocking_decision : EvaluateResponse → Outcome (Unit {0})
unfolding block_on
handle_blocking_decision r = block_on r r.decision

abbrev built_context : Option (Fields → Fields) → Fields → Fields
built_context none parameters = end
built_context (some build) parameters = build parameters

-- The result of the gateway's own execution, where it is to be taken.
abbrev remote_result : Bool → Option Json → Option Json
remote_result true result = none
remote_result false result = result

-- What the wrapped tool does with a decision that does not stop it: the outcome, and the parameters of
-- the calls of the local tool.
run_tool : GuardedTool → Fields → EvaluateResponse → Outcome Json × List Fields
unfolding resolve_effective_parameters
run_tool g parameters r = elim (remote_result g.execute_locally_on_allow r.execution_result) [
  | some result ↦ (done result, [])
  | none ↦ (
    g.func (resolve_effective_parameters parameters r),
    resolve_effective_parameters parameters r ∷ [],
  )
]

after_decision :
    GuardedTool → Fields → EvaluateResponse → Outcome (Unit {0}) → Outcome Json × List Fields
unfolding run_tool
after_decision g parameters r (done _) = run_tool g parameters r
after_decision g parameters r (raised e) = (raised e, [])

after_response : GuardedTool → Fields → Outcome EvaluateResponse → Outcome Json × List Fields
unfolding after_decision handle_blocking_decision
after_response g parameters (done r) = after_decision g parameters r (handle_blocking_decision r)
after_response g parameters (raised e) = (raised e, [])

-- The function that `guard_tool` returns, on the bound arguments.
unfoldable pub wrapped : GuardedTool → Fields → Outcome Json × List Fields
unfolding after_response evaluate_action
wrapped g parameters = after_response g parameters (
    evaluate_action g.session g.tool_name parameters g.description
      (built_context g.context_builder parameters))
