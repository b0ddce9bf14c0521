-- ===== src/Identity/Token/Life.antt =====
-- A token from its issue to its end, and what an accepted token has.
use acr_framework.Prelude.{
  [], ◌∷◌, ℕ, ◌+◌, ◌*◌, ◌≤◌, ◌<◌, String, ◌≡◌, refl, ◌∙◌, inl, inr, true, false, Option, none, some,
  arith, ltb, ◌==◌, if◌then◌else◌, contains, Option-cases, Bool-cases,
}
use acr_framework.Errors.{ok, err, invalid_token, token_expired}
use acr_framework.Json.{str, Fields, get}
use acr_framework.Json.Dict.{has_key}
use acr_framework.Identity.Token.{
  TokenConfig, Jwt, Decoded, claims, expired, invalid, allowed_algorithms, token_claims,
  issue_token, decode_jwt, verification_key, subject_of, subject_in, decode_token,
  require_agent_token,
}

-- What the library documents of a token that it has encoded from claims with an issue time `start`
-- and an expiry `t`: with the key that verifies it, it is refused as not yet valid before its issue,
-- the claims come back until the expiry, and from then on it is refused as expired.
pub record IsJwt (jwt : Jwt) (signing verifying algorithm : String) (d : Fields) (start t : ℕ)
    : Type 0 where
  pub early :
      (now : ℕ)
      → now < start
      → jwt.decode now (jwt.encode d signing algorithm) verifying (algorithm ∷ []) none none
        ≡ invalid
  pub fresh :
      (now : ℕ)
      → start ≤ now
      → now < t
      → jwt.decode now (jwt.encode d signing algorithm) verifying (algorithm ∷ []) none none
        ≡ claims d
  pub stale :
      (now : ℕ)
      → start ≤ now
      → t ≤ now
      → jwt.decode now (jwt.encode d signing algorithm) verifying (algorithm ∷ []) none none
        ≡ expired

known_key :
    (c : TokenConfig) (jwt : Jwt) (key token : String) (now : ℕ)
    → contains c.jwt_algorithm allowed_algorithms ≡ true
    → verification_key c jwt ≡ some key
    → decode_token c jwt now token
      ≡ subject_in (decode_jwt jwt now token key (c.jwt_algorithm ∷ []) none none)
unfolding decode_token
known_key c jwt key token now allowed verifies = ground arith

subject_fresh :
    (jwt : Jwt) (now t : ℕ) (token key algorithm a : String) (start life : ℕ)
    → jwt.decode now token key (algorithm ∷ []) none none ≡ claims (token_claims start life a)
    → (a == "") ≡ false
    → subject_in (decode_jwt jwt now token key (algorithm ∷ []) none none) ≡ ok a
unfolding subject_in decode_jwt get
subject_fresh jwt now t token key algorithm a start life h named = ground arith

subject_stale :
    (jwt : Jwt) (now : ℕ) (token key algorithm : String)
    → jwt.decode now token key (algorithm ∷ []) none none ≡ expired
    → subject_in (decode_jwt jwt now token key (algorithm ∷ []) none none) ≡ err token_expired
unfolding subject_in decode_jwt
subject_stale jwt now token key algorithm h = ground arith

subject_early :
    (jwt : Jwt) (now : ℕ) (token key algorithm : String)
    → jwt.decode now token key (algorithm ∷ []) none none ≡ invalid
    → subject_in (decode_jwt jwt now token key (algorithm ∷ []) none none) ≡ err invalid_token
unfolding subject_in decode_jwt
subject_early jwt now token key algorithm h = ground arith

-- With an allowed algorithm, a key that verifies, and a library that behaves as documented on this
-- token, the token of an agent whose identifier is not empty is refused as invalid before its issue
-- time (on a host whose clock is behind), is accepted with the agent as its subject for its lifetime,
-- and is refused as expired from then on.
pub issue_token-life :
    (c : TokenConfig) (jwt : Jwt) (key a : String) (now later : ℕ)
    → contains c.jwt_algorithm allowed_algorithms ≡ true
    → verification_key c jwt ≡ some key
    → IsJwt jwt c.jwt_secret_key key c.jwt_algorithm
        (token_claims now (c.jwt_token_expire_minutes * 60) a)
        now
        (now + c.jwt_token_expire_minutes * 60)
    → (a == "") ≡ false
    → require_agent_token c jwt later (some (issue_token c jwt now a).0) ≡ (
        if ltb later now
        then err invalid_token
        else if ltb later (now + c.jwt_token_expire_minutes * 60)
        then ok a
        else err token_expired)
unfolding require_agent_token issue_token get
issue_token-life c jwt key a now later allowed verifies g named =
    known_key c jwt key token later allowed verifies ∙ elim (Bool-cases (ltb later now)) [
      | inl ahead ↦
          subject_early jwt later token key c.jwt_algorithm (g.early later (ground arith))
          ∙ ground arith
      | inr issued ↦ elim (Bool-cases (ltb later end)) [
        | inl before ↦
            subject_fresh jwt later end token key c.jwt_algorithm a now
              (c.jwt_token_expire_minutes * 60) (g.fresh later (ground arith) (ground arith)) named
            ∙ ground arith
        | inr after ↦
            subject_stale jwt later token key c.jwt_algorithm
              (g.stale later (ground arith) (ground arith))
            ∙ ground arith
      ]
    ]
  where
    end : ℕ
    end = now + c.jwt_token_expire_minutes * 60

    token : String
    token = (issue_token c jwt now a).0

accepted_key :
    (c : TokenConfig) (jwt : Jwt) (now : ℕ) (token a : String)
    → decode_token c jwt now token ≡ ok a
    → (contains c.jwt_algorithm allowed_algorithms ≡ true)
      × ((key : String) × ((verification_key c jwt ≡ some key)
            × (subject_in (decode_jwt jwt now token key (c.jwt_algorithm ∷ []) none none) ≡ ok a)))
unfolding decode_token
accepted_key c jwt now token a h = elim (Option-cases (verification_key c jwt)) [
  | inl none_fits ↦ absurd (ground arith)
  | inr (key, fits) ↦ (ground arith, (key, (fits, ground arith)))
]

claims_of_text : (d : Fields) (a : String) → subject_of d ≡ ok a → get "sub" d ≡ some (str a)
unfolding subject_of
claims_of_text d a h = ground arith

accepted_claims :
    (jwt : Jwt) (now : ℕ) (token key algorithm a : String)
    → subject_in (decode_jwt jwt now token key (algorithm ∷ []) none none) ≡ ok a
    → (d : Fields) × (jwt.decode now token key (algorithm ∷ []) none none ≡ claims d)
      × (has_key "aud" d ≡ false)
      × (has_key "at_hash" d ≡ false)
      × (get "sub" d ≡ some (str a))
unfolding decode_jwt subject_in
accepted_claims jwt now token key algorithm a h =
    go (jwt.decode now token key (algorithm ∷ []) none none) refl
  where
    go :
        (o : Decoded)
        → jwt.decode now token key (algorithm ∷ []) none none ≡ o
        → (d : Fields) × (o ≡ claims d)
          × (has_key "aud" d ≡ false)
          × (has_key "at_hash" d ≡ false)
          × (get "sub" d ≡ some (str a))
    go (claims d) p = (d, refl, ground arith, ground arith, claims_of_text d a (ground arith))
    go expired p = absurd (ground arith)
    go invalid p = absurd (ground arith)

-- A subject is accepted only from a token that the library decodes with the configured algorithm,
-- which is an allowed one, and the key that verifies it, and whose claims name no audience and no hash
-- of an access token.
pub require_agent_token_sound :
    (c : TokenConfig) (jwt : Jwt) (now : ℕ) (header : Option String) (a : String)
    → require_agent_token c jwt now header ≡ ok a
    → (token : String) × (header ≡ some token)
      × (contains c.jwt_algorithm allowed_algorithms ≡ true)
      × ((key : String) × (verification_key c jwt ≡ some key)
          × ((d : Fields) × (jwt.decode now token key (c.jwt_algorithm ∷ []) none none ≡ claims d)
              × (has_key "aud" d ≡ false)
              × (has_key "at_hash" d ≡ false)
              × (get "sub" d ≡ some (str a))))
unfolding require_agent_token
require_agent_token_sound c jwt now none a h = absurd cc
require_agent_token_sound c jwt now (some token) a h =
    let (allowed, (key, (verifies, accepted))) = accepted_key c jwt now token a h in
    let (d, decoded, audience, hash, subject) =
      accepted_claims jwt now token key c.jwt_algorithm a accepted in
    (token, refl, allowed, (key, verifies, (d, decoded, audience, hash, subject)))
