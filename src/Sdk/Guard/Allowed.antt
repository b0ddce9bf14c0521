-- ===== src/Sdk/Guard/Allowed.antt =====
-- When a guarded tool runs.
use acr_framework.Prelude.{
  ℕ, ◌≡◌, refl, ◌⊎◌, inl, inr, true, Bool-cases, Option-cases, Option, none, some, List, [], ◌∷◌,
  arith,
}
use acr_framework.Json.{Json, null, bool, int, float, str, arr, obj, Fields}
use acr_framework.Policy.Engine.{Decision, allow, deny, modify, escalate}
use acr_framework.Gateway.Models.{is_allowed}
use acr_framework.Sdk.Client.{
  EvaluateResponse, Outcome, done, raised, Models, HttpReply, is_evaluate_status,
  parse_evaluate_response, object_body, or_invalid, ◌>>=◌, action_request, evaluate_post,
  evaluate_action, evaluate,
}
use acr_framework.Sdk.Guard.{
  GuardedTool, built_context, resolve_effective_parameters, run_tool, after_response,
  after_decision, handle_blocking_decision, block_on, wrapped, remote_result,
}

-- A reply that is read as the response r.
pub IsAnswer : Models → HttpReply → EvaluateResponse → Type 0
IsAnswer m reply r =
    (is_evaluate_status reply.status ≡ true)
    × ((d : Fields) × (reply.json ≡ some (obj d)) × (m.evaluate_response (obj d) ≡ some r))

-- The reply to the one request that the tool sends.
pub reply_to : GuardedTool → Fields → HttpReply
reply_to g parameters =
    let s = g.session in
    s.client.send (
      evaluate_post s.client
        (action_request s g.tool_name parameters g.description
          (built_context g.context_builder parameters))
        s.access_token)

valid_of : (o : Option EvaluateResponse) (r : EvaluateResponse) → or_invalid o ≡ done r → o ≡ some r
valid_of (some a) r h = ground arith
valid_of none r h = ground arith

object_read :
    (m : Models) (status : ℕ) (json : Option Json) (r : EvaluateResponse)
    → (object_body status json >>= (λ d. or_invalid (m.evaluate_response (obj d)))) ≡ done r
    → (d : Fields) × (json ≡ some (obj d)) × (m.evaluate_response (obj d) ≡ some r)
unfolding object_body
object_read m status (some (obj d)) r h = (d, refl, valid_of (m.evaluate_response (obj d)) r h)
object_read m status none r h = absurd (ground arith)
object_read m status (some null) r h = absurd (ground arith)
object_read m status (some (bool b)) r h = absurd (ground arith)
object_read m status (some (int n)) r h = absurd (ground arith)
object_read m status (some (float n)) r h = absurd (ground arith)
object_read m status (some (str s)) r h = absurd (ground arith)
object_read m status (some (arr items)) r h = absurd (ground arith)

parsed-IsAnswer :
    (m : Models) (reply : HttpReply) (r : EvaluateResponse)
    → parse_evaluate_response m reply ≡ done r
    → IsAnswer m reply r
unfolding parse_evaluate_response IsAnswer
parsed-IsAnswer m reply r h = elim (Bool-cases (is_evaluate_status reply.status)) [
  | inl e ↦ (e, object_read m reply.status reply.json r (rw e at h))
  | inr e ↦ absurd (ground (arith, e, h))
]

-- The tool ran once, on what the decision left of its parameters, and its outcome is passed on.
pub RanOnce : GuardedTool → Fields → EvaluateResponse → Outcome Json × List Fields → Type 0
RanOnce g parameters r result =
    (is_allowed r.decision ≡ true)
    × (result ≡ (
      g.func (resolve_effective_parameters parameters r),
      resolve_effective_parameters parameters r ∷ [],
    ))

run_tool-RanOnce :
    (g : GuardedTool) (parameters : Fields) (r : EvaluateResponse)
    → is_allowed r.decision ≡ true
    → ((run_tool g parameters r).1 ≡ []) ⊎ RanOnce g parameters r (run_tool g parameters r)
unfolding run_tool RanOnce
run_tool-RanOnce g parameters r allowed =
    elim (Option-cases (remote_result g.execute_locally_on_allow r.execution_result)) [
      | inl e ↦ inr (allowed, rw (run_tool, e) refl)
      | inr (result, e) ↦ inl (rw (run_tool, e) refl)
    ]

decision-RanOnce :
    (g : GuardedTool) (parameters : Fields) (r : EvaluateResponse) (decision : Decision)
    → r.decision ≡ decision
    → ((after_decision g parameters r (block_on r decision)).1 ≡ [])
      ⊎ RanOnce g parameters r (after_decision g parameters r (block_on r decision))
unfolding after_decision block_on
decision-RanOnce g parameters r allow e = run_tool-RanOnce g parameters r (rw e refl)
decision-RanOnce g parameters r modify e = run_tool-RanOnce g parameters r (rw e refl)
decision-RanOnce g parameters r deny e = inl refl
decision-RanOnce g parameters r escalate e = inl refl

response-RanOnce :
    (g : GuardedTool) (parameters : Fields) (response : Outcome EvaluateResponse)
    → ((after_response g parameters response).1 ≡ [])
      ⊎ ((r : EvaluateResponse) × (response ≡ done r)
          × RanOnce g parameters r (after_response g parameters response))
unfolding after_response handle_blocking_decision
response-RanOnce g parameters (raised e) = inl refl
response-RanOnce g parameters (done r) = elim (decision-RanOnce g parameters r r.decision refl) [
  | inl idle ↦ inl idle
  | inr ran ↦ inr (r, refl, ran)
]

-- A guarded tool runs only with leave: either the local tool is not called, or the reply of the gateway
-- to the request of the tool has one of the statuses of a decision, its body is an object that is read
-- as a response which allows or modifies the action, and the tool is called once, on its parameters or
-- on the modified ones, with its outcome passed on.
pub wrapped_lem :
    (g : GuardedTool) (parameters : Fields)
    → ((wrapped g parameters).1 ≡ [])
      ⊎ ((r : EvaluateResponse) × IsAnswer g.session.client.models (reply_to g parameters) r
          × RanOnce g parameters r (wrapped g parameters))
unfolding wrapped evaluate reply_to
wrapped_lem g parameters =
    elim (response-RanOnce g parameters (
      evaluate_action g.session g.tool_name parameters g.description
        (built_context g.context_builder parameters))) [
          | inl idle ↦ inl idle
          | inr (r, answered, ran) ↦
              inr
                (r, parsed-IsAnswer g.session.client.models (reply_to g parameters) r answered, ran)
        ]
