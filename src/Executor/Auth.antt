-- ===== src/Executor/Auth.antt =====
-- gateway/executor_auth.py: a token binds an execution to the hash of its payload, and a brokered
-- credential binds it to an audience and scopes. JSON printing, SHA-256 and the HMAC are parameters.
pub mod Built
pub mod Verified
pub mod Brokered
use Prim.Native.String.{◌++◌ as join_text}
use acr_framework.Prelude.{
  ℕ, ◌+◌, String, Bool, true, false, not, ◌&&◌, ◌||◌, Option, none, some, List, [], ◌∷◌, ◌==◌,
  if◌then◌else◌,
}
use acr_framework.Prelude.Int.{pos}
use acr_framework.Prelude.Text.{strip, is_ascii}
use acr_framework.Errors.{
  Result, ok, err, invalid_execution_authorization, unexpected, guard, ◌>>=◌, ◌>>◌, same_digest,
}
use acr_framework.Json.{
  Json, null, int, str, arr, obj, Items, nil, item, Fields, end, field, get, set, truthy,
}
use acr_framework.Identity.Token.{Jwt, Decoded, claims, expired, invalid, decode_jwt}

pub record ExecutorConfig : Type 0 where
  pub executor_hmac_secret : String
  pub executor_auth_ttl_seconds : ℕ
  pub executor_credential_secret : String
  pub executor_credential_ttl_seconds : ℕ

-- `json.dumps` with sorted keys, the hexadecimal SHA-256 of a text, the HMAC of a text with a key, and
-- `str(v)` of a value that is no text.
pub record Signing : Type 0 where
  pub canonical : Fields → String
  pub sha256 : String → String
  pub hmac : String → String → String
  pub to_text : Json → String

pub record ExecutionAuthorization : Type 0 where
  pub agent_id : String
  pub tool_name : String
  pub correlation_id : String
  pub approval_request_id : Option String
  pub payload_sha256 : String

pub record BrokeredCredential : Type 0 where
  pub subject : String
  pub agent_id : String
  pub tool_name : String
  pub correlation_id : String
  pub audience : String
  pub scopes : List String
  pub approval_request_id : Option String

-- What a token is asked for: the action it is good for.
pub record Errand : Type 0 where
  pub agent_id : String
  pub tool_name : String
  pub correlation_id : String
  pub approval_request_id : Option String

-- _EXECUTION_TOKEN_ALGORITHM and _EXECUTION_TOKEN_ISSUER
abbrev pub token_algorithm : String
token_algorithm = "HS256"

abbrev pub token_issuer : String
token_issuer = "acr-control-plane"

unfoldable pub execution_payload_sha256 : Signing → Fields → String
execution_payload_sha256 sg payload = sg.sha256 (sg.canonical payload)

-- `_require_execution_secret` and `_require_credential_secret`, of the secret in the settings.
unfoldable pub configured_secret : String → Result String
configured_secret secret =
    if strip secret == "" then err invalid_execution_authorization else ok (strip secret)

abbrev pub optional_text : Option String → Json
optional_text none = null
optional_text (some s) = str s

abbrev pub execution_claims : Errand → String → ℕ → ℕ → Fields
execution_claims e hash now ttl = field "iss" (str token_issuer) (
    field "sub" (str e.tool_name) (
      field "agent_id" (str e.agent_id) (
        field "tool_name" (str e.tool_name) (
          field "correlation_id" (str e.correlation_id) (
            field "approval_request_id" (optional_text e.approval_request_id) (
              field "payload_sha256" (str hash) (
                field "iat" (int (pos now))
                  (field "nbf" (int (pos now)) (field "exp" (int (pos (now + ttl))) end)))))))))

unfoldable pub build_execution_token :
    ExecutorConfig → Signing → Jwt → ℕ → Errand → Fields → Result String
build_execution_token c sg jwt now e payload = do
  secret ← configured_secret c.executor_hmac_secret
  ok (
      jwt.encode
        (execution_claims e (execution_payload_sha256 sg payload) now c.executor_auth_ttl_seconds)
        secret token_algorithm)

abbrev pub plain_headers : Errand → Fields
plain_headers e = field "Content-Type" (str "application/json") (
    field "X-Correlation-ID" (str e.correlation_id)
      (field "Idempotency-Key" (str e.correlation_id) end))

unfoldable pub build_execution_headers :
    ExecutorConfig → Signing → Jwt → ℕ → Errand → Fields → Result Fields
unfolding build_execution_token
build_execution_headers c sg jwt now e payload =
    if strip c.executor_hmac_secret == "" then ok (plain_headers e) else (do
      token ← build_execution_token c sg jwt now e payload
      ok (
          set "X-ACR-Execution-Token" (str token) (
            set "X-ACR-Execution-Signature"
              (str (sg.hmac (strip c.executor_hmac_secret) (sg.canonical payload)))
              (plain_headers e))))

abbrev pub texts : List String → Items
texts [] = nil
texts (s ∷ ss) = item (str s) (texts ss)

abbrev pub credential_claims : Errand → String → List String → ℕ → ℕ → Fields
credential_claims e audience scopes now ttl = field "iss" (str token_issuer) (
    field "sub" (str (join_text "acr-executor:" (join_text e.agent_id (join_text ":" e.tool_name))))
      (field "agent_id" (str e.agent_id) (
        field "tool_name" (str e.tool_name) (
          field "correlation_id" (str e.correlation_id) (
            field "approval_request_id" (optional_text e.approval_request_id) (
              field "aud" (str audience) (
                field "scopes" (arr (texts scopes)) (
                  field "iat" (int (pos now))
                    (field "nbf" (int (pos now)) (field "exp" (int (pos (now + ttl))) end))))))))))

unfoldable pub build_brokered_execution_credential :
    ExecutorConfig → Jwt → ℕ → Errand → String → List String → Result String
build_brokered_execution_credential c jwt now e audience scopes = do
  secret ← configured_secret c.executor_credential_secret
  ok (
      jwt.encode (credential_claims e audience scopes now c.executor_credential_ttl_seconds) secret
        token_algorithm)

-- `str(claims.get(k) or "")`
unfoldable pub text_claim : Signing → String → Fields → String
text_claim sg k d = elim (get k d) [
  | none ↦ ""
  | some (str s) ↦ s
  | some v ↦ if truthy v then sg.to_text v else ""
]

-- `str(v) if v else None`
unfoldable pub optional_claim : Signing → String → Fields → Option String
unfolding text_claim
optional_claim sg k d = elim (get k d) [
  | none ↦ none
  | some v ↦ if truthy v then some (text_claim sg k d) else none
]

-- The exceptions of the library become the one of the program.
unfoldable pub claims_of : Decoded → Result Fields
claims_of (claims d) = ok d
claims_of expired = err invalid_execution_authorization
claims_of invalid = err invalid_execution_authorization

-- The checks on the claims of a token that the library accepts.
unfoldable pub authorize : Signing → Fields → Fields → Result ExecutionAuthorization
unfolding same_digest text_claim optional_claim execution_payload_sha256
authorize sg payload d = do
  matches ← same_digest (execution_payload_sha256 sg payload) (text_claim sg "payload_sha256" d)
  guard matches invalid_execution_authorization
  guard
      (not (
        text_claim sg "agent_id" d == ""
        || text_claim sg "tool_name" d == ""
        || text_claim sg "correlation_id" d == ""))
      invalid_execution_authorization
  ok (record {
    agent_id = text_claim sg "agent_id" d;
    tool_name = text_claim sg "tool_name" d;
    correlation_id = text_claim sg "correlation_id" d;
    approval_request_id = optional_claim sg "approval_request_id" d;
    payload_sha256 = text_claim sg "payload_sha256" d;
  })

unfoldable pub verify_execution_token :
    ExecutorConfig → Signing → Jwt → ℕ → String → Fields → Result ExecutionAuthorization
unfolding configured_secret claims_of decode_jwt authorize
verify_execution_token c sg jwt now token payload = do
  secret ← configured_secret c.executor_hmac_secret
  d ← claims_of (decode_jwt jwt now token secret (token_algorithm ∷ []) none (some token_issuer))
  authorize sg payload d

abbrev pub text_of : Signing → Json → String
text_of sg (str s) = s
text_of sg v = sg.to_text v

abbrev pub texts_of : Signing → Items → List String
texts_of sg nil = []
texts_of sg (item v vs) = text_of sg v ∷ texts_of sg vs

-- `claims.get("scopes") or []`, which must be a list.
unfoldable pub scopes_of : Signing → Fields → Result (List String)
scopes_of sg d = elim (get "scopes" d) [
  | none ↦ ok []
  | some (arr vs) ↦ ok (texts_of sg vs)
  | some v ↦ if truthy v then err invalid_execution_authorization else ok []
]

unfoldable pub broker : Signing → String → Fields → Result BrokeredCredential
unfolding text_claim optional_claim scopes_of
broker sg audience d = do
  scopes ← scopes_of sg d
  guard
      (not (
        text_claim sg "agent_id" d == ""
        || text_claim sg "tool_name" d == ""
        || text_claim sg "correlation_id" d == ""
        || text_claim sg "sub" d == ""))
      invalid_execution_authorization
  ok (record {
    subject = text_claim sg "sub" d;
    agent_id = text_claim sg "agent_id" d;
    tool_name = text_claim sg "tool_name" d;
    correlation_id = text_claim sg "correlation_id" d;
    audience = audience;
    scopes = scopes;
    approval_request_id = optional_claim sg "approval_request_id" d;
  })

unfoldable pub verify_brokered_execution_credential :
    ExecutorConfig → Signing → Jwt → ℕ → String → String → Result BrokeredCredential
unfolding configured_secret claims_of decode_jwt broker
verify_brokered_execution_credential c sg jwt now token audience = do
  secret ← configured_secret c.executor_credential_secret
  d ←
      claims_of
        (decode_jwt jwt now token secret (token_algorithm ∷ []) (some audience) (some token_issuer))
  broker sg audience d

-- `if not header: raise`
unfoldable pub require_header : Option String → Result String
require_header none = err invalid_execution_authorization
require_header (some s) = if s == "" then err invalid_execution_authorization else ok s

-- `request.json()`: `none` is a body that is no JSON.
unfoldable pub require_object : Option Json → Result Fields
require_object (some (obj d)) = ok d
require_object _ = err invalid_execution_authorization

unfoldable pub require_gateway_execution :
    ExecutorConfig → Signing → Jwt → ℕ → Option String → Option Json → Result ExecutionAuthorization
unfolding verify_execution_token require_header require_object
require_gateway_execution c sg jwt now header body = do
  token ← require_header header
  payload ← require_object body
  verify_execution_token c sg jwt now token payload

unfoldable pub require_brokered_execution_credential :
    ExecutorConfig → Signing → Jwt → ℕ → Option String → Option String → Result BrokeredCredential
unfolding verify_brokered_execution_credential require_header
require_brokered_execution_credential c sg jwt now header audience = do
  token ← require_header header
  wanted ← require_header audience
  verify_brokered_execution_credential c sg jwt now token wanted
