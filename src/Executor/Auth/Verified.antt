-- ===== src/Executor/Auth/Verified.antt =====
-- What an accepted execution has.
use mathlib.Core.Path.{subst}
use acr_framework.Prelude.{
  sym, ap, ℕ, String, ◌≡◌, refl, ◌∙◌, Bool, true, false, not, ◌||◌, Option, none, some, [], ◌∷◌,
  arith, ◌==◌, str_iff,
}
use acr_framework.Errors.{ok, invalid_execution_authorization, guard, same_digest}
use acr_framework.Errors.Steps.{bind-eq-ok, guard-eq-ok, ok_injective}
use acr_framework.Json.{Json, obj, Fields}
use acr_framework.Identity.Token.{Jwt, Decoded, claims, expired, invalid, decode_jwt}
use acr_framework.Executor.Auth.{
  ExecutorConfig, Signing, ExecutionAuthorization, token_algorithm, token_issuer,
  execution_payload_sha256, configured_secret, text_claim, claims_of, authorize,
  require_gateway_execution, require_header, require_object,
}

header_text : (header : Option String) (t : String) → require_header header ≡ ok t → header ≡ some t
unfolding require_header
header_text none t h = absurd cc
header_text (some s) t h = ground arith

body_object : (body : Option Json) (d : Fields) → require_object body ≡ ok d → body ≡ some (obj d)
unfolding require_object
body_object none d h = absurd cc
body_object (some (obj x)) d h = ground arith
body_object (some _) d h = absurd (ground arith)

decoded_from :
    (jwt : Jwt) (now : ℕ) (token secret : String) (d : Fields)
    → claims_of (decode_jwt jwt now token secret (token_algorithm ∷ []) none (some token_issuer))
      ≡ ok d
    → jwt.decode now token secret (token_algorithm ∷ []) none (some token_issuer) ≡ claims d
unfolding claims_of decode_jwt
decoded_from jwt now token secret d h =
    go (jwt.decode now token secret (token_algorithm ∷ []) none (some token_issuer)) refl
  where
    go :
        (o : Decoded)
        → jwt.decode now token secret (token_algorithm ∷ []) none (some token_issuer) ≡ o
        → o ≡ claims d
    go (claims x) e = ground arith
    go expired e = absurd (ground arith)
    go invalid e = absurd (ground arith)

equal_digest : (a b : String) (m : Bool) → same_digest a b ≡ ok m → m ≡ true → b ≡ a
unfolding same_digest
equal_digest a b m h t = ground (arith, str_iff a b)

-- The payload is bound to the token by its hash, and the execution is named by the claims.
authorize_sound :
    (sg : Signing) (payload d : Fields) (a : ExecutionAuthorization)
    → authorize sg payload d ≡ ok a
    → (a.payload_sha256 ≡ execution_payload_sha256 sg payload)
      × (text_claim sg "payload_sha256" d ≡ execution_payload_sha256 sg payload)
      × (a.agent_id ≡ text_claim sg "agent_id" d)
      × (a.tool_name ≡ text_claim sg "tool_name" d)
      × (a.correlation_id ≡ text_claim sg "correlation_id" d)
      × ((a.agent_id == "") ≡ false)
      × ((a.tool_name == "") ≡ false)
      × ((a.correlation_id == "") ≡ false)
unfolding authorize
authorize_sound sg payload d a h =
    let hash = execution_payload_sha256 sg payload in
    let claimed = text_claim sg "payload_sha256" d in
    let names = not (
      text_claim sg "agent_id" d == ""
      || text_claim sg "tool_name" d == ""
      || text_claim sg "correlation_id" d == "") in
    let (m, compared, h₁) = bind-eq-ok (same_digest hash claimed) _ a h in
    let (_, matched, h₂) = bind-eq-ok (guard m invalid_execution_authorization) _ a h₁ in
    let (_, named, h₃) = bind-eq-ok (guard names invalid_execution_authorization) _ a h₂ in
    let e =
      equal_digest hash claimed m compared
        (guard-eq-ok m invalid_execution_authorization matched) in
    let n = guard-eq-ok names invalid_execution_authorization named in
    let same = ok_injective h₃ in
    (
      sym (ap (λ x. x.payload_sha256) same) ∙ e,
      e,
      sym (ap (λ x. x.agent_id) same),
      sym (ap (λ x. x.tool_name) same),
      sym (ap (λ x. x.correlation_id) same),
      subst (λ x. (x.agent_id == "") ≡ false) same (ground (arith, n)),
      subst (λ x. (x.tool_name == "") ≡ false) same (ground (arith, n)),
      subst (λ x. (x.correlation_id == "") ≡ false) same (ground (arith, n)),
    )

-- An execution is authorized only by a token in its header that the library decodes with the secret of
-- the settings, the one algorithm and the issuer, and a body that is an object whose hash is the one
-- in the claims. The authorization has this hash and the names in the claims, which are not empty.
pub require_gateway_execution_sound :
    (c : ExecutorConfig) (sg : Signing) (jwt : Jwt) (now : ℕ) (header : Option String)
    (body : Option Json) (a : ExecutionAuthorization)
    → require_gateway_execution c sg jwt now header body ≡ ok a
    → (token secret : String) × (payload d : Fields) × (header ≡ some token)
      × (body ≡ some (obj payload))
      × (configured_secret c.executor_hmac_secret ≡ ok secret)
      × (jwt.decode now token secret (token_algorithm ∷ []) none (some token_issuer) ≡ claims d)
      × ((a.payload_sha256 ≡ execution_payload_sha256 sg payload)
          × (text_claim sg "payload_sha256" d ≡ execution_payload_sha256 sg payload)
          × (a.agent_id ≡ text_claim sg "agent_id" d)
          × (a.tool_name ≡ text_claim sg "tool_name" d)
          × (a.correlation_id ≡ text_claim sg "correlation_id" d)
          × ((a.agent_id == "") ≡ false)
          × ((a.tool_name == "") ≡ false)
          × ((a.correlation_id == "") ≡ false))
unfolding require_gateway_execution
require_gateway_execution_sound c sg jwt now header body a h =
    let (token, has, h₁) = bind-eq-ok (require_header header) _ a h in
    let (payload, is_object, h₂) = bind-eq-ok (require_object body) _ a h₁ in
    let (secret, configured, h₃) = bind-eq-ok (configured_secret c.executor_hmac_secret) _ a h₂ in
    let (d, decoded, h₄) =
      bind-eq-ok
        (claims_of
          (decode_jwt jwt now token secret (token_algorithm ∷ []) none (some token_issuer)))
        _ a h₃ in
    (
      token,
      secret,
      payload,
      d,
      header_text header token has,
      body_object body payload is_object,
      configured,
      decoded_from jwt now token secret d decoded,
      authorize_sound sg payload d a h₄,
    )
