-- ===== src/Tests/Executor.antt =====
-- One execution, its token and its credential, with a library that knows these two.
use acr_framework.Prelude.{
  String, ◌≡◌, refl, false, ◌&&◌, none, some, List, [], ◌∷◌, arith, ltb, ◌==◌, if◌then◌else◌,
}
use acr_framework.Prelude.Text.{strip, is_ascii}
use acr_framework.Errors.{ok, err, invalid_execution_authorization}
use acr_framework.Json.{str, obj, Fields, end, field, get, truthy}
use acr_framework.Identity.Token.{Jwt, claims, expired, invalid}
use acr_framework.Executor.Auth.{
  ExecutorConfig, Signing, Errand, token_algorithm, token_issuer, execution_payload_sha256,
  execution_claims, credential_claims, configured_secret, text_claim,
  build_brokered_execution_credential, require_gateway_execution,
  require_brokered_execution_credential,
}
use acr_framework.Gateway.Models.{Execution}
use acr_framework.Executor.Action.{Downstream, responded}
use acr_framework.Executor.Auth.Built.{IsNamed, authorization}
use acr_framework.Executor.Auth.Verified.{require_gateway_execution_sound}
use acr_framework.Executor.Auth.Brokered.{IsAddressed, credential, brokered_credential_accepted}

abbrev config : ExecutorConfig
config = record {
  executor_hmac_secret = "k";
  executor_auth_ttl_seconds = 60;
  executor_credential_secret = "c";
  executor_credential_ttl_seconds = 300;
}

abbrev signing : Signing
signing = record {
  canonical = λ d. "payload";
  sha256 = λ t. "ab12";
  hmac = λ k t. "mac";
  to_text = λ v. "value";
}

abbrev errand : Errand
errand = record {
  agent_id = "bot";
  tool_name = "refund";
  correlation_id = "c-1";
  approval_request_id = none;
}

abbrev payload : Fields
payload = field "agent_id" (str "bot") end

abbrev scopes : List String
scopes = "tool:refund:execute" ∷ []

-- Without an audience the library finds the claims of the execution, with one those of the credential.
abbrev library : Jwt
library = record {
  encode = λ d key algorithm. "t";
  decode = λ now token key algorithms audience issuer. elim audience [
    | none ↦ if ltb now 160 then claims (execution_claims errand "ab12" 100 60) else expired
    | some a ↦
        if ltb now 400
        then (if a == "billing"
            then claims (credential_claims errand "billing" scopes 100 300)
            else invalid)
        else expired
  ];
  public_key = λ key. none;
}

errand-IsNamed : IsNamed errand
errand-IsNamed = record { agent = refl; tool = refl; correlation = refl }

library-IsAddressed :
    IsAddressed library "c" (credential_claims errand "billing" scopes 100 300) 100 400 "billing"
library-IsAddressed = record {
  token = refl;
  fresh = λ now a b. ground arith;
  elsewhere = λ now other a b e. ground arith;
  stale = λ now other a. ground arith;
}

require_gateway_execution_sound_example :
    (token secret : String) × (p d : Fields) × (some "t" ≡ some token)
    × (some (obj payload) ≡ some (obj p))
    × (configured_secret config.executor_hmac_secret ≡ ok secret)
    × (library.decode 130 token secret (token_algorithm ∷ []) none (some token_issuer) ≡ claims d)
    × (("ab12" ≡ execution_payload_sha256 signing p)
        × (text_claim signing "payload_sha256" d ≡ execution_payload_sha256 signing p)
        × ("bot" ≡ text_claim signing "agent_id" d)
        × ("refund" ≡ text_claim signing "tool_name" d)
        × ("c-1" ≡ text_claim signing "correlation_id" d)
        × (("bot" == "") ≡ false)
        × (("refund" == "") ≡ false)
        × (("c-1" == "") ≡ false))
unfolding require_gateway_execution strip is_ascii get truthy
require_gateway_execution_sound_example =
    require_gateway_execution_sound config signing library 130 (some "t") (some (obj payload))
      (authorization errand "ab12") refl

brokered_credential_accepted_example :
    (t : String) × (build_brokered_execution_credential config library 100 errand "billing" scopes
      ≡ ok t)
    × (require_brokered_execution_credential config signing library 200 (some t) (some "search") ≡ (
        if ltb 200 400 && "search" == "billing"
        then ok (credential errand "billing" scopes)
        else err invalid_execution_authorization))
unfolding configured_secret strip
brokered_credential_accepted_example =
    brokered_credential_accepted config signing library "c" errand "billing" scopes 100 refl
      library-IsAddressed errand-IsNamed 200 "search" (omega arith) refl

abbrev refund : Execution
refund = record {
  agent_id = "bot";
  tool_name = "refund";
  parameters = end;
  description = none;
  correlation_id = "c-1";
  approval_request_id = none;
}

abbrev service : Downstream
service = record {
  auth = config;
  signing = signing;
  jwt = library;
  now = 100;
  tool_executor_map = field "refund" (str "https://refunds") end;
  executor_integrations = end;
  getenv = λ name. "";
  breaker = record { refuses = false; opens = false };
  post = λ url p headers. responded 200 (some (obj payload));
}
