-- ===== src/Sdk/Client.antt =====
-- sdk/client.py: the client of the API and the sessions of agents, in the version without async, which
-- the other repeats. The HTTP library and the pydantic models are a parameter.
use Prim.Native.String.{◌++◌ as join_text}
use acr_framework.Prelude.{
  ℕ, String, Bool, ◌&&◌, ◌||◌, Option, none, some, List, [], ◌∷◌, ◌==◌, leb, eqb, if◌then◌else◌,
}
use acr_framework.Json.{Json, obj, Fields}
use acr_framework.Policy.Engine.{Decision}
use acr_framework.Gateway.Models.{EvaluateRequest}

-- EvaluateResponse, as far as the library reads it.
pub record EvaluateResponse : Type 0 where
  pub decision : Decision
  pub modified_parameters : Option Fields
  pub execution_result : Option Json

-- TokenResponse
pub record TokenResponse : Type 0 where
  pub agent_id : String
  pub access_token : String

-- ACRHTTPError with its status, a ValueError, a ValidationError of pydantic, and the two decisions that
-- stop a tool.
pub data SdkError : Type 0 where
  http_error : ℕ → SdkError
  value_error invalid_body : SdkError
  denied escalated : EvaluateResponse → SdkError

pub data Outcome (A : Type 0) : Type 0 where
  done : A → Outcome A
  raised : SdkError → Outcome A

module _ {V W : Type 0} where
  infixl 5 ◌>>=◌
  abbrev pub ◌>>=◌ : Outcome V → (V → Outcome W) → Outcome W
  done v >>= k = k v
  raised e >>= k = raised e

-- A request that is sent: its path, its headers, and the body of a POST.
pub record HttpRequest : Type 0 where
  pub path : String
  pub headers : List (String × String)
  pub body : Option Fields

-- A reply; `json` is none when the body is not JSON.
pub record HttpReply : Type 0 where
  pub status : ℕ
  pub json : Option Json

-- The pydantic models: what a request is dumped to, and what a body is read as.
pub record Models : Type 0 where
  pub dump : EvaluateRequest → Fields
  pub evaluate_response : Json → Option EvaluateResponse
  pub token_response : Json → Option TokenResponse
  pub agent_response : Json → Option Fields

-- ACRClient, with the server that answers.
pub record Client : Type 0 where
  pub operator_api_key : Option String
  pub send : HttpRequest → HttpReply
  pub models : Models

-- `response.is_error`
abbrev is_error : ℕ → Bool
is_error status = leb 400 status && leb status 599

abbrev pub or_invalid : {A : Type 0} → Option A → Outcome A
or_invalid none = raised invalid_body
or_invalid (some a) = done a

-- `model_type.model_validate(response.json())`; a body that is not JSON raises a ValueError.
validated : {A : Type 0} → (Json → Option A) → Option Json → Outcome A
validated model none = raised value_error
validated model (some j) = or_invalid (model j)

unfoldable pub parse_model : {A : Type 0} → (Json → Option A) → HttpReply → Outcome A
unfolding validated
parse_model model r =
    if is_error r.status then raised (http_error r.status) else validated model r.json

-- _EVALUATE_STATUS_CODES
abbrev pub is_evaluate_status : ℕ → Bool
is_evaluate_status s = eqb s 200 || eqb s 202 || eqb s 403 || eqb s 500 || eqb s 503

-- The body of an answer that must be an object.
unfoldable pub object_body : ℕ → Option Json → Outcome Fields
object_body status (some (obj d)) = done d
object_body status _ = raised (http_error status)

unfoldable pub parse_evaluate_response : Models → HttpReply → Outcome EvaluateResponse
unfolding object_body
parse_evaluate_response m r =
    if is_evaluate_status r.status
    then object_body r.status r.json >>= (λ d. or_invalid (m.evaluate_response (obj d)))
    else raised (http_error r.status)

operator_headers : Client → Outcome (List (String × String))
operator_headers c = elim c.operator_api_key [
  | none ↦ raised value_error
  | some k ↦ if k == "" then raised value_error else done (("X-Operator-API-Key", k) ∷ [])
]

abbrev pub agent_headers : String → List (String × String)
agent_headers access_token = ("Authorization", join_text "Bearer " access_token) ∷ []

pub register_agent : Client → Fields → Outcome Fields
unfolding operator_headers
register_agent c request = do
  headers ← operator_headers c
  parse_model c.models.agent_response
      (c.send (record { path = "/acr/agents"; headers = headers; body = some request }))

pub get_agent : Client → String → Outcome Fields
unfolding operator_headers
get_agent c a = do
  headers ← operator_headers c
  parse_model c.models.agent_response
      (c.send (record { path = join_text "/acr/agents/" a; headers = headers; body = none }))

-- `a` is the identifier in the request.
pub ensure_agent_registered : Client → String → Fields → Outcome Fields
unfolding operator_headers get_agent
ensure_agent_registered c a request = do
  headers ← operator_headers c
  let reply = c.send (record { path = "/acr/agents"; headers = headers; body = some request })
  if eqb reply.status 409 then get_agent c a else parse_model c.models.agent_response reply

pub issue_agent_token : Client → String → Outcome TokenResponse
unfolding operator_headers
issue_agent_token c a = do
  headers ← operator_headers c
  parse_model c.models.token_response (
      c.send (record {
        path = join_text "/acr/agents/" (join_text a "/token");
        headers = headers;
        body = none;
      }))

pub get_health : Client → Outcome Fields
unfolding object_body
get_health c =
    let reply = c.send (record { path = "/acr/health"; headers = []; body = none }) in
    if is_error reply.status
    then raised (http_error reply.status)
    else object_body reply.status reply.json

pub get_ready : Client → Outcome Fields
unfolding object_body
get_ready c =
    let reply = c.send (record { path = "/acr/ready"; headers = []; body = none }) in
    if eqb reply.status 200 || eqb reply.status 503
    then object_body reply.status reply.json
    else raised (http_error reply.status)

-- ACRAgentSession
pub record Session : Type 0 where
  pub client : Client
  pub agent_id : String
  pub access_token : String

pub issue_agent_session : Client → String → Outcome Session
unfolding issue_agent_token
issue_agent_session c a = do
  token ← issue_agent_token c a
  done (record { client = c; agent_id = token.agent_id; access_token = token.access_token })

-- The request that `evaluate` posts.
abbrev pub evaluate_post : Client → EvaluateRequest → String → HttpRequest
evaluate_post c request access_token = record {
  path = "/acr/evaluate";
  headers = agent_headers access_token;
  body = some (c.models.dump request);
}

unfoldable pub evaluate : Client → EvaluateRequest → String → Outcome EvaluateResponse
unfolding parse_evaluate_response
evaluate c request access_token =
    parse_evaluate_response c.models (c.send (evaluate_post c request access_token))

-- `refresh_token` of a session.
pub refresh_token : Session → Outcome (TokenResponse × Session)
unfolding issue_agent_token
refresh_token s = do
  token ← issue_agent_token s.client s.agent_id
  done (token, record s { access_token = token.access_token })

-- `evaluate` of a session.
pub evaluate_in_session : Session → EvaluateRequest → Outcome EvaluateResponse
unfolding evaluate
evaluate_in_session s request =
    if request.agent_id == s.agent_id
    then evaluate s.client request s.access_token
    else raised value_error

-- The request of `evaluate_action`.
abbrev pub action_request : Session → String → Fields → Option String → Fields → EvaluateRequest
action_request s tool_name parameters description context = record {
  agent_id = s.agent_id;
  tool_name = tool_name;
  parameters = parameters;
  description = description;
  context = context;
}

unfoldable pub evaluate_action :
    Session → String → Fields → Option String → Fields → Outcome EvaluateResponse
unfolding evaluate
evaluate_action s tool_name parameters description context =
    evaluate s.client (action_request s tool_name parameters description context) s.access_token
