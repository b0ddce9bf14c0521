-- ===== src/Errors.antt =====
-- common/errors.py: the exceptions of the control plane, and results that may be one of them.
pub mod Steps
use acr_framework.Prelude.Text.{is_ascii}
use acr_framework.Prelude.{
  ℕ, String, Bool, true, false, List, [], ◌∷◌, Option, none, some, if◌then◌else◌, ◌&&◌, ◌==◌,
}

-- A class of the hierarchy under ACRError, without its message; `unexpected` stands for every
-- exception outside the hierarchy (TypeError, a Redis error, an HTTPException of a parser, ...), and
-- `http` for a FastAPI HTTPException with its status code.
pub data AcrError : Type 0 where
  agent_not_found agent_not_registered agent_already_exists invalid_token : AcrError
  unauthorized_operator forbidden_operator operator_credential_not_found token_expired : AcrError
  agent_killed agent_lifecycle policy_denied policy_engine : AcrError
  runtime_control_dependency authoritative_spend_control approval_pending : AcrError
  approval_not_found approval_conflict approval_timeout kill_switch downstream_execution : AcrError
  invalid_execution_authorization policy_draft_not_found policy_release_not_found : AcrError
  policy_validation evidence_bundle_not_found containment baseline_not_found : AcrError
  http : ℕ → AcrError
  unexpected : AcrError

pub status_code : AcrError → ℕ
status_code agent_not_found = 404
status_code agent_not_registered = 403
status_code agent_already_exists = 409
status_code invalid_token = 401
status_code unauthorized_operator = 401
status_code forbidden_operator = 403
status_code operator_credential_not_found = 404
status_code token_expired = 401
status_code agent_killed = 403
status_code agent_lifecycle = 403
status_code policy_denied = 403
status_code policy_engine = 503
status_code runtime_control_dependency = 503
status_code authoritative_spend_control = 503
status_code approval_pending = 202
status_code approval_not_found = 404
status_code approval_conflict = 409
status_code approval_timeout = 403
status_code kill_switch = 503
status_code downstream_execution = 503
status_code invalid_execution_authorization = 401
status_code policy_draft_not_found = 404
status_code policy_release_not_found = 404
status_code policy_validation = 422
status_code evidence_bundle_not_found = 404
status_code containment = 503
status_code baseline_not_found = 404
status_code (http code) = code
status_code unexpected = 500

pub error_code : AcrError → String
error_code agent_not_found = "AGENT_NOT_FOUND"
error_code agent_not_registered = "AGENT_NOT_REGISTERED"
error_code agent_already_exists = "AGENT_ALREADY_EXISTS"
error_code invalid_token = "INVALID_TOKEN"
error_code unauthorized_operator = "UNAUTHORIZED_OPERATOR"
error_code forbidden_operator = "FORBIDDEN_OPERATOR"
error_code operator_credential_not_found = "OPERATOR_CREDENTIAL_NOT_FOUND"
error_code token_expired = "TOKEN_EXPIRED"
error_code agent_killed = "AGENT_KILLED"
error_code agent_lifecycle = "AGENT_LIFECYCLE_INVALID"
error_code policy_denied = "POLICY_DENIED"
error_code policy_engine = "POLICY_ENGINE_ERROR"
error_code runtime_control_dependency = "RUNTIME_CONTROL_DEPENDENCY_ERROR"
error_code authoritative_spend_control = "AUTHORITATIVE_SPEND_CONTROL_ERROR"
error_code approval_pending = "APPROVAL_PENDING"
error_code approval_not_found = "APPROVAL_NOT_FOUND"
error_code approval_conflict = "APPROVAL_CONFLICT"
error_code approval_timeout = "APPROVAL_TIMEOUT"
error_code kill_switch = "KILLSWITCH_ERROR"
error_code downstream_execution = "DOWNSTREAM_EXECUTION_ERROR"
error_code invalid_execution_authorization = "INVALID_EXECUTION_AUTHORIZATION"
error_code policy_draft_not_found = "POLICY_DRAFT_NOT_FOUND"
error_code policy_release_not_found = "POLICY_RELEASE_NOT_FOUND"
error_code policy_validation = "POLICY_VALIDATION_ERROR"
error_code evidence_bundle_not_found = "EVIDENCE_BUNDLE_NOT_FOUND"
error_code containment = "CONTAINMENT_ERROR"
error_code baseline_not_found = "BASELINE_NOT_FOUND"
error_code (http code) = "INTERNAL_ERROR"
error_code unexpected = "INTERNAL_ERROR"

pub data Result {ℓ} (A : Type ℓ) : Type ℓ where
  ok : A → Result A
  err : AcrError → Result A

-- A statement that may raise, and the rest of the block, which runs when it did not.
module _ {ℓ κ} {V : Type ℓ} {W : Type κ} where
  infixl 5 ◌>>=◌
  abbrev pub ◌>>=◌ : Result V → (V → Result W) → Result W
  tried >>= rest = elim tried [ err raised ↦ err raised | ok value ↦ rest value ]

infixl 5 ◌>>◌
abbrev pub ◌>>◌ {ℓ} : {W : Type ℓ} → Result (Unit {0}) → Result W → Result W
check >> rest = check >>= (λ _. rest)

-- `if not test: raise e`
abbrev pub guard : Bool → AcrError → Result (Unit {0})
guard true e = ok tt
guard false e = err e

-- `scalar_one_or_none()`: more than one row raises.
abbrev pub one_or_none : {R : Type 0} → List R → Result (Option R)
one_or_none [] = ok none
one_or_none (r ∷ []) = ok (some r)
one_or_none (r ∷ _ ∷ _) = err unexpected

-- `compare_digest` of `hmac` and `secrets` on two texts; it takes ASCII texts only, and raises a
-- TypeError on others.
unfoldable pub same_digest : String → String → Result Bool
same_digest a b = if is_ascii a && is_ascii b then ok (a == b) else err unexpected
