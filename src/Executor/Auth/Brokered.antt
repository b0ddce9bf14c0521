-- ===== src/Executor/Auth/Brokered.antt =====
-- A brokered credential, at the service that receives it.
use Prim.Native.String.{◌++◌ as join_text, count}
use text.Mathlib.TextLemmas.{length-append}
use mathlib.Core.Path.{subst}
use acr_framework.Prelude.{
  sym, ℕ, ◌+◌, ◌≤◌, ◌<◌, String, ◌≡◌, refl, ap, ◌∙◌, inl, inr, false, ◌&&◌, some, List, [], ◌∷◌,
  arith, ltb, ◌==◌, str_iff, if◌then◌else◌, Bool-cases,
}
use acr_framework.Errors.{ok, err, invalid_execution_authorization, ◌>>=◌}
use acr_framework.Json.{Fields, get, truthy}
use acr_framework.Json.Dict.{has_key}
use acr_framework.Identity.Token.{Jwt, Decoded, claims, expired, invalid, decode_jwt}
use acr_framework.Executor.Auth.{
  ExecutorConfig, Signing, BrokeredCredential, Errand, token_algorithm, token_issuer,
  credential_claims, configured_secret, texts, texts_of, broker, claims_of,
  build_brokered_execution_credential, verify_brokered_execution_credential,
  require_brokered_execution_credential,
}
use acr_framework.Executor.Auth.Built.{IsNamed, kept}

-- What the library documents of a token whose claims have an audience, when it is decoded with the same
-- key, algorithm and issuer: while it holds, the claims come back for the audience and no other
-- audience gets them; from its end on it is refused as expired. A token is not empty.
pub record IsAddressed (jwt : Jwt) (secret : String) (d : Fields) (start end : ℕ)
    (audience : String) : Type 0 where
  pub token : (jwt.encode d secret token_algorithm == "") ≡ false
  pub fresh :
      (now : ℕ)
      → start ≤ now
      → now < end
      → jwt.decode now
          (jwt.encode d secret token_algorithm)
          secret
          (token_algorithm ∷ [])
          (some audience)
          (some token_issuer)
        ≡ claims d
  pub elsewhere :
      (now : ℕ) (other : String)
      → start ≤ now
      → now < end
      → (other == audience) ≡ false
      → jwt.decode now
          (jwt.encode d secret token_algorithm)
          secret
          (token_algorithm ∷ [])
          (some other)
          (some token_issuer)
        ≡ invalid
  pub stale :
      (now : ℕ) (other : String)
      → end ≤ now
      → jwt.decode now
          (jwt.encode d secret token_algorithm)
          secret
          (token_algorithm ∷ [])
          (some other)
          (some token_issuer)
        ≡ expired

texts_of-texts : (sg : Signing) (scopes : List String) → texts_of sg (texts scopes) ≡ scopes
texts_of-texts sg [] = refl
texts_of-texts sg (s ∷ ss) = ap (λ rest. s ∷ rest) (texts_of-texts sg ss)

abbrev subject : Errand → String
subject e = join_text "acr-executor:" (join_text e.agent_id (join_text ":" e.tool_name))

subject_is_given : (e : Errand) → (subject e == "") ≡ false
subject_is_given e = elim (Bool-cases (subject e == "")) [
  | inl h ↦ absurd (
      omega (
        arith,
        ap count ((str_iff (subject e) "").0 h),
        length-append "acr-executor:" (join_text e.agent_id (join_text ":" e.tool_name)),
      ))
  | inr h ↦ h
]

abbrev pub credential : Errand → String → List String → BrokeredCredential
credential e audience scopes = record {
  subject = subject e;
  agent_id = e.agent_id;
  tool_name = e.tool_name;
  correlation_id = e.correlation_id;
  audience = audience;
  scopes = scopes;
  approval_request_id = kept e.approval_request_id;
}

brokered :
    (sg : Signing) (e : Errand) (audience wanted : String) (scopes : List String) (now ttl : ℕ)
    → IsNamed e
    → broker sg wanted (credential_claims e audience scopes now ttl)
      ≡ ok (credential e wanted scopes)
unfolding broker get truthy
brokered sg e audience wanted scopes now ttl n =
    ground (arith, n.agent, n.tool, n.correlation, subject_is_given e, texts_of-texts sg scopes)

module _ (c : ExecutorConfig) (sg : Signing) (jwt : Jwt) (secret : String) (e : Errand)
    (audience : String) (scopes : List String) (now : ℕ)
    (has_secret : configured_secret c.executor_credential_secret ≡ ok secret)
    (issued : IsAddressed jwt secret
      (credential_claims e audience scopes now c.executor_credential_ttl_seconds)
      now
      (now + c.executor_credential_ttl_seconds)
      audience)
    (named : IsNamed e) where
  abbrev built : String
  built =
      jwt.encode (credential_claims e audience scopes now c.executor_credential_ttl_seconds) secret
        token_algorithm

  abbrev checked_claims : Decoded → Decoded
  checked_claims o = elim o [
    | claims d ↦ if has_key "at_hash" d then invalid else claims d
    | expired ↦ expired
    | invalid ↦ invalid
  ]

  verified_by :
      (later : ℕ) (wanted : String) (o : Decoded)
      → jwt.decode later built secret (token_algorithm ∷ []) (some wanted) (some token_issuer) ≡ o
      → verify_brokered_execution_credential c sg jwt later built wanted
        ≡ (claims_of (checked_claims o) >>= broker sg wanted)
  unfolding verify_brokered_execution_credential
  verified_by later wanted o h =
      ap
        (λ r. r >>= (λ k.
          claims_of
            (decode_jwt jwt later built k (token_algorithm ∷ []) (some wanted) (some token_issuer))
          >>= broker sg wanted))
        has_secret
      ∙ ap (λ x. claims_of (checked_claims x) >>= broker sg wanted) h

  received :
      (later : ℕ) (wanted : String)
      → (wanted == "") ≡ false
      → require_brokered_execution_credential c sg jwt later (some built) (some wanted)
        ≡ verify_brokered_execution_credential c sg jwt later built wanted
  unfolding require_brokered_execution_credential
  received later wanted given = ground (arith, issued.token)

  -- The credential that is built for an audience is accepted later exactly before its end and by a
  -- service of this audience, with the scopes it was built with and the names of the execution.
  pub brokered_credential_accepted :
      (later : ℕ) (wanted : String)
      → now ≤ later
      → (wanted == "") ≡ false
      → (t : String) × (build_brokered_execution_credential c jwt now e audience scopes ≡ ok t)
        × (require_brokered_execution_credential c sg jwt later (some t) (some wanted) ≡ (
            if ltb later (now + c.executor_credential_ttl_seconds) && wanted == audience
            then ok (credential e audience scopes)
            else err invalid_execution_authorization))
  unfolding claims_of build_brokered_execution_credential
  brokered_credential_accepted later wanted from_now given = (
    built,
    ap
        (λ r. r >>= (λ k. ok (
          jwt.encode (credential_claims e audience scopes now c.executor_credential_ttl_seconds) k
            token_algorithm)))
        has_secret,
    received later wanted given
        ∙ elim (Bool-cases (ltb later (now + c.executor_credential_ttl_seconds))) [
          | inl early ↦ elim (Bool-cases (wanted == audience)) [
            | inl here ↦
                let same = (str_iff wanted audience).0 here in
                verified_by later wanted _ (
                  subst
                    (λ a.
                      jwt.decode later built secret (token_algorithm ∷ []) (some a)
                        (some token_issuer)
                      ≡ claims (
                          credential_claims e audience scopes now
                            c.executor_credential_ttl_seconds))
                    (sym same) (issued.fresh later from_now (ground arith)))
                ∙ brokered sg e audience wanted scopes now c.executor_credential_ttl_seconds named
                ∙ ap (λ a. ok (credential e a scopes)) same
                ∙ ground arith
            | inr there ↦
                verified_by later wanted _
                  (issued.elsewhere later wanted from_now (ground arith) there)
                ∙ ground arith
          ]
          | inr late ↦
              verified_by later wanted _ (issued.stale later wanted (ground arith)) ∙ ground arith
        ],
  )
