-- ===== src/Executor/Auth/Built.antt =====
-- A token that the gateway has built, at the service that receives it.
use acr_framework.Prelude.{
  ℕ, ◌+◌, ◌≤◌, ◌<◌, String, ◌≡◌, false, ◌&&◌, Option, none, some, [], ◌∷◌, ◌==◌, if◌then◌else◌, not,
  is_some, ◌||◌,
}
use acr_framework.Errors.{ok}
use acr_framework.Json.{Fields}
use acr_framework.Json.Dict.{has_key}
use acr_framework.Identity.Token.{Jwt, Decoded, claims, expired, invalid}
use acr_framework.Executor.Auth.{
  ExecutorConfig, Signing, ExecutionAuthorization, Errand, token_algorithm, token_issuer,
  execution_payload_sha256, execution_claims, configured_secret,
}

-- What the library documents of a token that it has encoded from claims with a time from which and a
-- time to which they hold: with the same key, algorithm and issuer the claims come back between the
-- two times, and from the second on the token is refused as expired. A token is not empty.
pub record IsIssued (jwt : Jwt) (secret : String) (d : Fields) (start end : ℕ) : Type 0 where
  pub token : (jwt.encode d secret token_algorithm == "") ≡ false
  pub fresh :
      (now : ℕ)
      → start ≤ now
      → now < end
      → jwt.decode now
          (jwt.encode d secret token_algorithm)
          secret
          (token_algorithm ∷ [])
          none
          (some token_issuer)
        ≡ claims d
  pub stale :
      (now : ℕ)
      → end ≤ now
      → jwt.decode now
          (jwt.encode d secret token_algorithm)
          secret
          (token_algorithm ∷ [])
          none
          (some token_issuer)
        ≡ expired

-- The checks of `decode_jwt` when no audience is asked for.
abbrev checked_claims : Decoded → Decoded
checked_claims o = elim o [
  | claims d ↦
      if not (is_some {A = String} none) && has_key "aud" d || has_key "at_hash" d
      then invalid
      else claims d
  | expired ↦ expired
  | invalid ↦ invalid
]

-- What names an execution is not empty.
pub record IsNamed (e : Errand) : Type 0 where
  pub agent : (e.agent_id == "") ≡ false
  pub tool : (e.tool_name == "") ≡ false
  pub correlation : (e.correlation_id == "") ≡ false

-- An approval identifier that is an empty text counts as none.
abbrev pub kept : Option String → Option String
kept none = none
kept (some s) = if s == "" then none else some s

abbrev pub authorization : Errand → String → ExecutionAuthorization
authorization e hash = record {
  agent_id = e.agent_id;
  tool_name = e.tool_name;
  correlation_id = e.correlation_id;
  approval_request_id = kept e.approval_request_id;
  payload_sha256 = hash;
}

module _ (c : ExecutorConfig) (sg : Signing) (jwt : Jwt) (secret : String) (e : Errand)
    (payload : Fields) (now : ℕ) (has_secret : configured_secret c.executor_hmac_secret ≡ ok secret)
    (issued : IsIssued jwt secret
      (execution_claims e (execution_payload_sha256 sg payload) now c.executor_auth_ttl_seconds)
      now
      (now + c.executor_auth_ttl_seconds))
    (named : IsNamed e) where
  abbrev hash : String
  hash = execution_payload_sha256 sg payload

  abbrev built : String
  built =
      jwt.encode (execution_claims e hash now c.executor_auth_ttl_seconds) secret token_algorithm
