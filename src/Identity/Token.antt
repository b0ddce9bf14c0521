-- ===== src/Identity/Token.antt =====
-- issue_token and decode_token of pillar1_identity/validator.py, decode_jwt of common/jwt_validation.py
-- and require_agent_token of gateway/auth.py. The JWT library is a parameter.
pub mod Life
use acr_framework.Prelude.{
  [], List, ◌∷◌, ℕ, ◌+◌, ◌*◌, String, Bool, true, false, not, ◌&&◌, ◌||◌, is_some, Option, none,
  some, ◌==◌, if◌then◌else◌, contains,
}
use acr_framework.Prelude.Int.{pos}
use acr_framework.Errors.{AcrError, Result, ok, err, invalid_token, token_expired}
use acr_framework.Json.{Json, int, str, Fields, end, field, get}
use acr_framework.Json.Dict.{has_key}

pub record TokenConfig : Type 0 where
  pub jwt_algorithm : String
  pub jwt_secret_key : String
  pub jwt_token_expire_minutes : ℕ

-- What `jwt.decode` does: it returns the claims, or raises. It checks that the subject is a text.
pub data Decoded : Type 0 where
  claims : Fields → Decoded
  expired invalid : Decoded

-- The library: encode claims with a key and an algorithm; decode a token at a time, with a key, the
-- algorithms that are accepted, and the audience and the issuer that are asked for, if any; the key
-- that verifies what an RSA key has signed, if it is one.
pub record Jwt : Type 0 where
  pub encode : Fields → String → String → String
  pub decode : ℕ → String → String → List String → Option String → Option String → Decoded
  pub public_key : String → Option String

-- ALLOWED_JWT_ALGORITHMS
abbrev pub allowed_algorithms : List String
allowed_algorithms = "HS256" ∷ "RS256" ∷ "ES256" ∷ []

abbrev pub token_claims : ℕ → ℕ → String → Fields
token_claims now expire_seconds agent_id = field "sub" (str agent_id) (
    field "exp" (int (pos (now + expire_seconds)))
      (field "iat" (int (pos now)) (field "iss" (str "acr-control-plane") end)))

pub issue_token : TokenConfig → Jwt → ℕ → String → String × ℕ
issue_token c jwt now agent_id =
    let expire_seconds = c.jwt_token_expire_minutes * 60 in
    (
      jwt.encode (token_claims now expire_seconds agent_id) c.jwt_secret_key c.jwt_algorithm,
      expire_seconds,
    )

-- The claims that PyJWT accepts and the program does not.
unfoldable pub decode_jwt :
    Jwt → ℕ → String → String → List String → Option String → Option String → Decoded
decode_jwt jwt now token key algorithms audience issuer =
    elim (jwt.decode now token key algorithms audience issuer) [
      | claims d ↦
          if not (is_some audience) && has_key "aud" d || has_key "at_hash" d
          then invalid
          else claims d
      | expired ↦ expired
      | invalid ↦ invalid
    ]

unfoldable pub verification_key : TokenConfig → Jwt → Option String
verification_key c jwt =
    if c.jwt_algorithm == "RS256" then jwt.public_key c.jwt_secret_key else some c.jwt_secret_key

pub subject_of : Fields → Result String
subject_of d = elim (get "sub" d) [
  | some (str a) ↦ if a == "" then err invalid_token else ok a
  | _ ↦ err invalid_token
]

subject_in : Decoded → Result String
unfolding subject_of
subject_in (claims d) = subject_of d
subject_in expired = err token_expired
subject_in invalid = err invalid_token

pub decode_token : TokenConfig → Jwt → ℕ → String → Result String
unfolding verification_key subject_in decode_jwt
decode_token c jwt now token =
    if not (contains c.jwt_algorithm allowed_algorithms)
    then err invalid_token
    else elim (verification_key c jwt) [
      | none ↦ err invalid_token
      | some key ↦ subject_in (decode_jwt jwt now token key (c.jwt_algorithm ∷ []) none none)
    ]

-- `credentials` is the token of the Authorization header, if there is one.
unfoldable pub require_agent_token : TokenConfig → Jwt → ℕ → Option String → Result String
unfolding decode_token
require_agent_token c jwt now none = err invalid_token
require_agent_token c jwt now (some token) = decode_token c jwt now token
