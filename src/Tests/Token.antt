-- ===== src/Tests/Token.antt =====
-- The token of one agent, with a library that knows this one token.
use acr_framework.Prelude.{
  [], ◌∷◌, String, ◌≡◌, refl, true, false, none, some, arith, ltb, if◌then◌else◌, contains,
}
use acr_framework.Errors.{ok, err, invalid_token, token_expired}
use acr_framework.Json.{str, Fields, get}
use acr_framework.Json.Dict.{has_key}
use acr_framework.Identity.Token.{
  TokenConfig, Jwt, claims, expired, invalid, allowed_algorithms, token_claims, issue_token,
  verification_key, require_agent_token,
}
use acr_framework.Identity.Token.Life.{IsJwt, issue_token-life, require_agent_token_sound}

abbrev config : TokenConfig
config = record { jwt_algorithm = "HS256"; jwt_secret_key = "k"; jwt_token_expire_minutes = 30 }

abbrev one_token : Jwt
one_token = record {
  encode = λ d key algorithm. "t";
  decode = λ now token key algorithms audience issuer.
      if ltb now 100
      then invalid
      else if ltb now 1900
      then claims (token_claims 100 1800 "bot")
      else expired;
  public_key = λ key. none;
}

one_token-IsJwt : IsJwt one_token "k" "k" "HS256" (token_claims 100 1800 "bot") 100 1900
one_token-IsJwt = record {
  early = λ now h. ground arith;
  fresh = λ now issued h. ground arith;
  stale = λ now issued h. ground arith;
}

issue_token-life_example :
    require_agent_token config one_token 500 (some (issue_token config one_token 100 "bot").0) ≡ (
      if ltb 500 100
      then err invalid_token
      else if ltb 500 1900
      then ok "bot"
      else err token_expired)
unfolding contains verification_key
issue_token-life_example =
    issue_token-life config one_token "k" "bot" 100 500 refl refl one_token-IsJwt refl

require_agent_token_sound_example :
    (token : String) × (some "t" ≡ some token)
    × (contains "HS256" allowed_algorithms ≡ true)
    × ((key : String) × (verification_key config one_token ≡ some key)
        × ((d : Fields) × (one_token.decode 500 token key ("HS256" ∷ []) none none ≡ claims d)
            × (has_key "aud" d ≡ false)
            × (has_key "at_hash" d ≡ false)
            × (get "sub" d ≡ some (str "bot"))))
unfolding require_agent_token contains get verification_key
require_agent_token_sound_example =
    require_agent_token_sound config one_token 500 (some "t") "bot" refl
