-- ===== src/Tests/Sdk.antt =====
-- A guarded tool whose action the gateway modifies.
use acr_framework.Prelude.{
  refl, ◌∷◌, ◌≡◌, ◌⊎◌, Option, none, some, [], ◌==◌, true, if◌then◌else◌, ◌∷◌,
}
use acr_framework.Prelude.Int.{pos}
use acr_framework.Json.{Json, str, int, obj, Fields, end, field, get}
use acr_framework.Policy.Engine.{Decision, allow, deny, modify}
use acr_framework.Sdk.Client.{EvaluateResponse, Client, Models, done}
use acr_framework.Sdk.Guard.{GuardedTool, wrapped}
use acr_framework.Sdk.Guard.Allowed.{IsAnswer, RanOnce, reply_to, wrapped_lem}

abbrev response : Decision → Option Fields → EvaluateResponse
response decision parameters = record {
  decision = decision;
  modified_parameters = parameters;
  execution_result = none;
}

-- The body of an answer holds a decision, and the parameters of a modification.
abbrev read_decision : Option Json → Option Json → Option EvaluateResponse
read_decision (some (str d)) (some (obj parameters)) =
    if d == "modify" then some (response modify (some parameters)) else none
read_decision (some (str d)) none =
    if d == "allow" then some (response allow none) else some (response deny none)
read_decision _ _ = none

read_response : Json → Option EvaluateResponse
unfolding get
read_response (obj d) = read_decision (get "decision" d) (get "parameters" d)
read_response _ = none

abbrev models : Models
models = record {
  dump = λ r. field "agent_id" (str r.agent_id) end;
  evaluate_response = read_response;
  token_response = λ j. none;
  agent_response = λ j. none;
}

abbrev smaller : Fields
smaller = field "amount" (int (pos 10)) end

abbrev client : Client
client = record {
  operator_api_key = none;
  send = λ r. record {
    status = 200;
    json = some (obj (field "decision" (str "modify") (field "parameters" (obj smaller) end)));
  };
  models = models;
}

abbrev pay : GuardedTool
pay = record {
  session = record { client = client; agent_id = "bot"; access_token = "t" };
  func = λ parameters. done (obj parameters);
  tool_name = "pay";
  description = none;
  context_builder = none;
  execute_locally_on_allow = true;
}

abbrev asked : Fields
asked = field "amount" (int (pos 5000)) end

wrapped_lem_example :
    ((wrapped pay asked).1 ≡ [])
    ⊎ ((r : EvaluateResponse) × IsAnswer models (reply_to pay asked) r
        × RanOnce pay asked r (wrapped pay asked))
wrapped_lem_example = wrapped_lem pay asked

-- The tool gets the smaller amount.
pays_smaller : wrapped pay asked ≡ (done (obj smaller), smaller ∷ [])
unfolding wrapped read_response
pays_smaller = refl
