-- ===== src/Executor/Action.antt =====
-- gateway/executor.py and executor_integrations.py: one POST to the service of a tool. The HTTP client,
-- the environment and the circuit breaker are parameters.
pub mod Sent
use Prim.Native.String.{◌++◌ as join_text}
use acr_framework.Prelude.{
  ℕ, String, Bool, true, false, Option, none, some, List, [], ◌∷◌, ◌==◌, if◌then◌else◌, get_or,
}
use acr_framework.Prelude.Text.{strip, after_prefix}
use acr_framework.Errors.{Result, ok, err, downstream_execution, unexpected, ◌>>=◌, ◌>>◌, guard}
use acr_framework.Json.{
  Json, null, str, arr, obj, Items, nil, item, Fields, end, field, get, set, truthy,
}
use acr_framework.Identity.Token.{Jwt}
use acr_framework.Policy.Engine.{Breaker, is_success}
use acr_framework.Gateway.Models.{Execution}
use acr_framework.Executor.Auth.{
  ExecutorConfig, Signing, Errand, optional_text, texts_of, text_claim, build_execution_headers,
  build_brokered_execution_credential,
}

-- What a POST comes back with; a body of `none` is no JSON.
pub data Posted : Type 0 where
  unreachable : Posted
  responded : (status : ℕ) → (body : Option Json) → Posted

-- The settings, with the two maps of tools as `tool_executor_map` and `executor_integrations` read
-- them, and the outside.
pub record Downstream : Type 0 where
  pub auth : ExecutorConfig
  pub signing : Signing
  pub jwt : Jwt
  pub now : ℕ
  pub tool_executor_map : Fields
  pub executor_integrations : Fields
  pub getenv : String → String
  pub breaker : Breaker
  pub post : String → Fields → Fields → Posted

abbrev pub errand_of : Execution → Errand
errand_of e = record {
  agent_id = e.agent_id;
  tool_name = e.tool_name;
  correlation_id = e.correlation_id;
  approval_request_id = e.approval_request_id;
}

-- `resp.raise_for_status()`, `resp.json()` and the test for an object.
unfoldable pub read_reply : Posted → Result Fields
read_reply unreachable = err downstream_execution
read_reply (responded status none) =
    if is_success status then err unexpected else err downstream_execution
read_reply (responded status (some (obj d))) =
    if is_success status then ok d else err downstream_execution
read_reply (responded status (some _)) = err downstream_execution

abbrev default_audience : Execution → String
default_audience e = join_text "tool:" e.tool_name

abbrev default_scopes : Execution → List String
default_scopes e = join_text "tool:" (join_text e.tool_name ":execute") ∷ []

-- The two headers of a brokered credential.
with_credential : Downstream → Execution → String → List String → Fields → Result Fields
with_credential o e audience scopes headers = do
  t ← build_brokered_execution_credential o.auth o.jwt o.now (errand_of e) audience scopes
  ok (
      set "X-ACR-Brokered-Credential" (str t)
        (set "X-ACR-Credential-Audience" (str audience) headers))

-- The body of a POST without an integration, and of the provider "http".
abbrev pub payload_of : Execution → Fields
payload_of e = field "agent_id" (str e.agent_id) (
    field "tool_name" (str e.tool_name) (
      field "parameters" (obj e.parameters) (
        field "description" (get_or e.description null) (
          field "correlation_id" (str e.correlation_id)
            (field "approval_request_id" (optional_text e.approval_request_id) end)))))

unfoldable pub headers_of : Downstream → Execution → Result Fields
unfolding with_credential
headers_of o e =
    build_execution_headers o.auth o.signing o.jwt o.now (errand_of e) (payload_of e) >>= λ headers.
    if o.auth.executor_credential_secret == ""
    then ok headers
    else with_credential o e (default_audience e) (default_scopes e) headers

-- `routes.get(tool_name)`, with an empty address as none.
unfoldable pub route_of : Downstream → Execution → Result String
route_of o e = elim (get e.tool_name o.tool_executor_map) [
  | some (str url) ↦ if url == "" then err downstream_execution else ok url
  | _ ↦ err downstream_execution
]

unfoldable pub execute_directly : Downstream → Execution → Result Fields
unfolding headers_of route_of read_reply
execute_directly o e = do
  url ← route_of o e
  headers ← headers_of o e
  read_reply (o.post url (payload_of e) headers)

-- `d.get(k)` and `d.get(k, v)`
abbrev at : String → Fields → Json
at k d = get_or (get k d) null

abbrev at_or : String → Json → Fields → Json
at_or k v d = get_or (get k d) v

-- `a or b`
abbrev or_else : Json → Json → Json
or_else a b = if truthy a then a else b

-- What every provider but "http" sends around its own part.
wrapped : Execution → String → Fields → Fields
wrapped e k d = field "agent_id" (str e.agent_id) (
    field k (obj d) (
      field "correlation_id" (str e.correlation_id)
        (field "approval_request_id" (optional_text e.approval_request_id) end)))

unfoldable pub build_provider_payload : String → Execution → Fields → Result Fields
unfolding get truthy wrapped
build_provider_payload provider e config =
    let p = e.parameters in
    let description = get_or e.description null in
    if provider == "refund_api"
    then ok (
        wrapped e "refund_request" (
          field "customer_id" (at "customer_id" p) (
            field "order_id" (at "order_id" p) (
              field "amount" (at "amount" p) (
                field "currency"
                  (or_else (at "currency" p) (at_or "default_currency" (str "USD") config))
                  (field "reason" (or_else description (at "reason" p)) end))))))
    else if provider == "email_api"
    then ok (
        wrapped e "message" (
          field "from" (at "from_address" config) (
            field "to" (at "to" p) (
              field "cc" (at "cc" p) (
                field "subject" (at "subject" p)
                  (field "body" (at "body" p) (field "template_id" (at "template_id" p) end)))))))
    else if provider == "ticket_api"
    then ok (
        wrapped e "ticket" (
          field "external_id" (at "ticket_id" p) (
            field "title" (or_else (at "title" p) description) (
              field "body" (at "body" p) (
                field "priority" (at_or "priority" (str "normal") p) (
                  field "queue" (or_else (at "queue" p) (at "default_queue" config))
                    (field "requester" (at "requester" p) end)))))))
    else if provider == "http"
    then ok (payload_of e)
    else err downstream_execution

-- `str(d.get(k) or t)`
text_or : Signing → String → String → Fields → String
unfolding get truthy
text_or sg k t d = if truthy (at k d) then text_claim sg k d else t

-- `_resolve_secret_value`
resolve_secret_value : Downstream → String → String
unfolding after_prefix
resolve_secret_value o value = elim (after_prefix "env:" value) [
  | some name ↦ o.getenv name
  | none ↦ value
]

-- `broker_cfg.get("scopes") or [...]`, which must be an array.
broker_scopes : Downstream → Execution → Fields → Result (List String)
unfolding get truthy
broker_scopes o e d = elim (at "scopes" d) [
  | arr vs ↦ ok (if truthy (arr vs) then texts_of o.signing vs else default_scopes e)
  | v ↦ if truthy v then err downstream_execution else ok (default_scopes e)
]

-- The settings of the broker: `config.get("broker_credentials") or {}`, if it is a dictionary.
broker_config : Fields → Option Fields
unfolding get truthy
broker_config config = elim (at "broker_credentials" config) [
  | obj d ↦ some d
  | v ↦ if truthy v then none else some end
]

brokered_headers : Downstream → Execution → Fields → Fields → Result Fields
unfolding broker_scopes text_or with_credential
brokered_headers o e d headers = do
  scopes ← broker_scopes o e d
  with_credential o e (text_or o.signing "audience" (default_audience e) d) scopes headers

-- Without a secret for credentials, or without settings of the broker, the headers stay.
brokered_if : Downstream → Execution → Option Fields → Fields → Result Fields
unfolding brokered_headers
brokered_if o e none headers = ok headers
brokered_if o e (some d) headers =
    if o.auth.executor_credential_secret == "" then ok headers else brokered_headers o e d headers

unfoldable pub integration_headers : Downstream → Fields → Execution → Fields → Result Fields
unfolding broker_config brokered_if resolve_secret_value
integration_headers o config e payload = do
  headers ← build_execution_headers o.auth o.signing o.jwt o.now (errand_of e) payload
  brokered ← brokered_if o e (broker_config config) headers
  let api_key = resolve_secret_value o (strip (text_claim o.signing "api_key" config))
  ok (
      if api_key == ""
      then brokered
      else set "Authorization" (str (join_text "Bearer " api_key)) brokered)

-- `_require_url`
require_url : Downstream → Fields → Result String
require_url o config =
    let url = strip (text_claim o.signing "url" config) in
    if url == "" then err downstream_execution else ok url

unfoldable pub execute_integrated_action : Downstream → Fields → Execution → Result Fields
unfolding require_url build_provider_payload integration_headers read_reply text_or
execute_integrated_action o config e = do
  let provider = text_or o.signing "provider" "http" config
  url ← require_url o config
  payload ← build_provider_payload provider e config
  headers ← integration_headers o config e payload
  d ← read_reply (o.post url payload headers)
  ok (
      field "status" (at_or "status" (str "executed") d) (
        field "provider" (str provider)
          (field "target_url" (str url) (field "result" (obj d) end))))

-- `executor_integrations().get(tool_name)`, unless it is empty.
unfoldable pub integration_of : Downstream → Execution → Option Fields
unfolding get
integration_of o e = elim (get e.tool_name o.executor_integrations) [
  | some (obj end) ↦ none
  | some (obj d) ↦ some d
  | _ ↦ none
]

unfoldable pub do_execute : Downstream → Execution → Result Fields
unfolding integration_of execute_integrated_action execute_directly
do_execute o e = elim (integration_of o e) [
  | some config ↦ execute_integrated_action o config e
  | none ↦ execute_directly o e
]

-- The breaker refuses the call, or a failure of the call makes it open and raise its own error.
unfoldable pub execute_action : Downstream → Execution → Result Fields
unfolding do_execute
execute_action o e = if o.breaker.refuses then err downstream_execution else elim (do_execute o e) [
  | ok d ↦ ok d
  | err x ↦ if o.breaker.opens then err downstream_execution else err x
]
