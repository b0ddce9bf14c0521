-- ===== src/Policy/Engine.antt =====
-- pillar2_policy/engine.py and models.py: the client of the policy engine (OPA), its retry loop, and
-- the reading of its answer. The HTTP client and the circuit breaker are parameters.
pub mod Retry
pub mod Verdict
use Prim.Native.String.{◌++◌ as join_text}
use acr_framework.Prelude.{
  ℕ, zero, suc, ◌+◌, ◌*◌, ◌^◌, ◌-◌, ◌/◌, ◌%◌, String, Bool, true, false, not, ◌&&◌, ◌||◌, Option,
  none, some, List, [], ◌∷◌, ◌++◌, ltb, leb, eqb, if◌then◌else◌, get_or, is_empty,
}
use acr_framework.Prelude.Int.{ℤ, pos}
use acr_framework.Errors.{Result, ok, err, policy_engine, unexpected, ◌>>=◌}
use acr_framework.Json.{Json, obj, int, float, Fields, end, field, merge, truthy}

pub data Decision : Type 0 where
  allow deny modify escalate : Decision

pub record PolicyDecision : Type 0 where
  pub policy_id : String
  pub decision : Decision
  pub reason : Option String

pub record PolicyEvaluationResult : Type 0 where
  pub final_decision : Decision
  pub decisions : List PolicyDecision
  pub reason : Option String
  pub approval_queue : Option String
  pub sla_minutes : Option ℕ
  pub modified_action : Option Fields
  pub modified_parameters : Option Fields

-- The document under `result` in an answer: the rules of the policies, each present or not. What the
-- code tests for truth may be any value; the other rules have the types that the policies give them.
pub record OpaResult : Type 0 where
  pub deny : Option (List String)
  pub allow : Option Json
  pub modify : Option Json
  pub escalate : Option Json
  pub escalate_queue : Option String
  pub escalate_sla_minutes : Option ℕ
  pub modified_action : Option Json
  pub modified_parameters : Option Json

-- `if result.get(k, False)`
abbrev pub rule : Option Json → Bool
rule none = false
rule (some v) = truthy v

-- What one POST comes back with: a transport error, a response whose body is read as an object with
-- or without `result`, or one whose body is no JSON.
pub data Reply : Type 0 where
  request_error : Reply
  response : (status : ℕ) → Option OpaResult → Reply
  not_json : (status : ℕ) → Reply

abbrev pub max_retries : ℕ
max_retries = 3

-- _RETRYABLE_STATUS
abbrev pub is_retryable : ℕ → Bool
is_retryable s = eqb s 429 || eqb s 500 || eqb s 502 || eqb s 503 || eqb s 504

-- `resp.raise_for_status()` raises for every status that is not a success.
abbrev pub is_success : ℕ → Bool
is_success s = leb 200 s && ltb s 300

-- One attempt. `retry` is an httpx error that the loop catches: a client error (4xx) is raised inside
-- the `try` and is caught by it too.
pub data Attempt : Type 0 where
  answer : Option OpaResult → Attempt
  retry : Attempt
  crash : Attempt

unfoldable pub attempt_of : Reply → Attempt
attempt_of request_error = retry
attempt_of (response s body) =
    if leb 400 s && ltb s 500 && not (is_retryable s)
    then retry
    else if is_retryable s
    then retry
    else if is_success s
    then answer body
    else retry
attempt_of (not_json s) =
    if leb 400 s && ltb s 500 && not (is_retryable s)
    then retry
    else if is_retryable s
    then retry
    else if is_success s
    then crash
    else retry

-- The loop of `_call_opa`: the attempts left, the number of the attempt, and the delays slept so far
-- in milliseconds (50, 100, ...), which are returned beside the outcome.
pub call_from : ℕ → ℕ → (ℕ → Reply) → List ℕ → Result (Option OpaResult) × List ℕ
unfolding attempt_of
call_from zero n post slept = (err policy_engine, slept)
call_from (suc left) n post slept = elim (attempt_of (post n)) [
  | answer body ↦ (ok body, slept)
  | crash ↦ (err unexpected, slept)
  | retry ↦
      call_from left (n + 1) post
        (if ltb n (max_retries - 1) then slept ++ (50 * 2 ^ n) ∷ [] else slept)
]

pub call_opa : (ℕ → Reply) → Result (Option OpaResult) × List ℕ
unfolding call_from
call_opa post = call_from max_retries 0 post []

-- The circuit breaker at the time of a call: it refuses the call, or it lets it through and, on a
-- failure, may open and raise its own error in place of the call's.
pub record Breaker : Type 0 where
  pub refuses : Bool
  pub opens : Bool

-- `none` is CircuitBreakerError.
pub through_breaker : Breaker → (ℕ → Reply) → Option (Result (Option OpaResult))
unfolding call_opa
through_breaker b post = if b.refuses then none else elim ((call_opa post).0) [
  | ok body ↦ some (ok body)
  | err e ↦ if b.opens then none else some (err e)
]

abbrev empty_result : OpaResult
empty_result = record {
  deny = none;
  allow = none;
  modify = none;
  escalate = none;
  escalate_queue = none;
  escalate_sla_minutes = none;
  modified_action = none;
  modified_parameters = none;
}

-- `_coerce_dict`
pub coerce_dict : Option Json → Option Fields
coerce_dict (some (obj d)) = some d
coerce_dict _ = none

-- `"; ".join(reasons)`
pub join_reasons : List String → String
join_reasons [] = ""
join_reasons (r ∷ []) = r
join_reasons (r ∷ rs) = join_text r (join_text "; " (join_reasons rs))

abbrev digit_text : ℕ → String
digit_text d =
    if eqb d 0
    then "0"
    else if eqb d 1
    then "1"
    else if eqb d 2
    then "2"
    else if eqb d 3
    then "3"
    else if eqb d 4
    then "4"
    else if eqb d 5
    then "5"
    else if eqb d 6
    then "6"
    else if eqb d 7
    then "7"
    else if eqb d 8
    then "8"
    else "9"

-- `str(n)`; a number has at most as many digits as its value and one.
show_from : ℕ → ℕ → String → String
show_from zero n acc = acc
show_from (suc fuel) n acc =
    let acc' = join_text (digit_text (n % 10)) acc in
    let rest = show_from fuel (n / 10) acc' in if ltb n 10 then acc' else rest

pub show_number : ℕ → String
unfolding show_from
show_number n = show_from (n + 1) n ""

-- One decision for each reason, numbered from `i`.
deny_decisions : ℕ → List String → List PolicyDecision
unfolding show_number
deny_decisions i [] = []
deny_decisions i (r ∷ rs) =
    record { policy_id = join_text "acr-deny-" (show_number i); decision = deny; reason = some r }
    ∷ deny_decisions (i + 1) rs

-- `modified_action or modified_parameters`: an empty dictionary is false.
pub modified_payload : Option Fields → Option Fields → Option Fields
modified_payload none p = p
modified_payload (some end) p = p
modified_payload (some d) p = some d

abbrev pub escalate_reason : OpaResult → String
escalate_reason r =
    join_text "Action requires human approval (queue: "
      (join_text (get_or r.escalate_queue "default") ")")

abbrev no_payload : String
no_payload = "Policy requested modify without supplying a transformed payload"

abbrev transformed : String
transformed = "Action transformed by runtime policy"

abbrev by_default : String
by_default = "Policy did not explicitly allow this action (deny-by-default)"

pub record Judgement : Type 0 where
  pub final : Decision
  pub reason : Option String
  pub decisions : List PolicyDecision

abbrev one : Decision → String → Option String → Judgement
one final policy_id reason = record {
  final = final;
  reason = reason;
  decisions = record { policy_id = policy_id; decision = final; reason = reason } ∷ [];
}

-- The ladder over the rules of the answer.
pub judge : OpaResult → Judgement
unfolding coerce_dict join_reasons deny_decisions modified_payload
judge r =
    if not (is_empty (get_or r.deny []))
    then record {
      final = deny;
      reason = some (join_reasons (get_or r.deny []));
      decisions = deny_decisions 0 (get_or r.deny []);
    }
    else if rule r.escalate
    then one escalate "acr-escalate" (some (escalate_reason r))
    else if rule r.modify
    then elim (modified_payload (coerce_dict r.modified_action)
        (coerce_dict r.modified_parameters)) [
          | none ↦ one deny "acr-invalid-modify" (some no_payload)
          | some d ↦ one modify "acr-modify" (some transformed)
        ]
    else if rule r.allow
    then one allow "acr-allow" none
    else one deny "acr-default-deny" (some by_default)

abbrev is_modify : Decision → Bool
is_modify modify = true
is_modify _ = false

-- The result for an answer: a missing or null `result` counts as an empty one.
pub result_of : Option OpaResult → PolicyEvaluationResult
unfolding judge
result_of body =
    let r = get_or body empty_result in
    let j = judge r in
    record {
      final_decision = j.final;
      decisions = j.decisions;
      reason = j.reason;
      approval_queue = if rule r.escalate then some (get_or r.escalate_queue "default") else none;
      sla_minutes = if rule r.escalate then some (get_or r.escalate_sla_minutes 240) else none;
      modified_action = if is_modify j.final then coerce_dict r.modified_action else none;
      modified_parameters = if is_modify j.final then coerce_dict r.modified_parameters else none;
    }

abbrev breaker_open : String
breaker_open = "OPA circuit breaker open — failing secure"

circuit_open : PolicyEvaluationResult
circuit_open = record {
  final_decision = deny;
  decisions =
      record { policy_id = "acr-circuit-open"; decision = deny; reason = some breaker_open } ∷ [];
  reason = some breaker_open;
  approval_queue = none;
  sla_minutes = none;
  modified_action = none;
  modified_parameters = none;
}

-- `{"actions_this_minute": 0, "hourly_spend_usd": 0.0, **context}`
unfoldable pub safe_context : Fields → Fields
safe_context context =
    merge (field "actions_this_minute" (int (pos 0)) (field "hourly_spend_usd" (float (pos 0)) end))
      context

-- The document that is posted.
pub opa_input : Fields → Fields → Fields → Fields
unfolding safe_context
opa_input agent action context =
    field "input"
      (obj (
        field "agent" (obj agent)
          (field "action" (obj action) (field "context" (obj (safe_context context)) end))))
      end

finish : Option (Result (Option OpaResult)) → Result PolicyEvaluationResult
unfolding result_of circuit_open
finish none = ok circuit_open
finish (some (ok body)) = ok (result_of body)
finish (some (err e)) = err e

-- `post d n` is the reply to attempt number n of posting the document d.
unfoldable pub evaluate_policy :
    Breaker → (Fields → ℕ → Reply) → Fields → Fields → Fields → Result PolicyEvaluationResult
unfolding through_breaker finish opa_input
evaluate_policy b post agent action context =
    finish (through_breaker b (post (opa_input agent action context)))
