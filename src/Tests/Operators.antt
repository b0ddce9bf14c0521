-- ===== src/Tests/Operators.antt =====
-- Two keys of operators, one of which is revoked.
use acr_framework.Prelude.{
  String, ◌≡◌, refl, true, false, ◌||◌, none, List, [], ◌∷◌, is_empty, contains, where_rows,
}
use acr_framework.Prelude.Table.{find, update}
use acr_framework.Errors.{ok}
use acr_framework.Json.{nil}
use acr_framework.Identity.Token.{invalid}
use acr_framework.Operators.Keys.{OperatorCredential, revoke, revoke_operator_key}
use acr_framework.Operators.Keys.History.{Call, rotate_key, use_key, run_all}
use acr_framework.Operators.Oidc.{OidcConfig, Provider}
use acr_framework.Operators.Auth.{
  AuthConfig, row_principal, with_rows, by_bootstrap, get_operator_principal, shares_role,
  require_operator_roles,
}
use acr_framework.Operators.Auth.Sound.{
  Stands, key_only, revoked_key_refused, require_operator_roles_sound,
}

abbrev oidc : OidcConfig
oidc = record {
  oidc_enabled = false;
  oidc_client_id = "";
  oidc_issuer = "";
  oidc_roles_claim = "roles";
  oidc_subject_claim = "email";
  role_mapping = [];
  operator_session_secret = "s";
}

abbrev no_provider : Provider
no_provider = record {
  jwt = record {
    encode = λ d key algorithm. "t";
    decode = λ now token key algorithms audience issuer. invalid;
    public_key = λ key. none;
  };
  kid_of = λ token. none;
  jwks = ok nil;
  key_of = λ d. none;
  same = λ a b. false;
  to_text = λ v. "value";
}

abbrev config : AuthConfig
config = record {
  oidc = oidc;
  provider = no_provider;
  hash_operator_key = λ k. k;
  operator_api_keys = [];
}

abbrev row : String → String → OperatorCredential
row id h = record {
  key_id = id;
  name = "key";
  subject = "ann";
  key_hash = h;
  roles = "approver" ∷ [];
  is_active = true;
  created_by = none;
  revoked_by = none;
  revoked_at = none;
  last_used_at = none;
}

abbrev rows : List OperatorCredential
rows = row "opk-1" "secret-1" ∷ row "opk-2" "secret-2" ∷ []

abbrev left : List OperatorCredential
left = revoke 5 "bob" (row "opk-1" "secret-1") ∷ row "opk-2" "secret-2" ∷ []

abbrev calls : List Call
calls = rotate_key "opk-2" "secret-1" ∷ use_key 9 "opk-1" ∷ []

revoked_key_refused_example :
    get_operator_principal config 12 (key_only "secret-1") (run_all (λ k. k) calls left)
    ≡ with_rows (run_all (λ k. k) calls left) (by_bootstrap no_provider "secret-1" [])
unfolding contains find update revoke_operator_key
revoked_key_refused_example =
    revoked_key_refused config 5 12 "opk-1" "bob" "secret-1" calls rows left
      (row "opk-1" "secret-1") (refl, (refl, tt)) refl refl refl refl (refl, (tt, tt))

abbrev reviewers : List String
reviewers = "approver" ∷ "security_admin" ∷ []

require_operator_roles_sound_example :
    ((is_empty reviewers || shares_role reviewers ("approver" ∷ [])) ≡ true)
    × Stands config 12 (key_only "secret-2") rows (row_principal (row "opk-2" "secret-2"))
unfolding require_operator_roles get_operator_principal where_rows contains
require_operator_roles_sound_example =
    require_operator_roles_sound config 12 reviewers (key_only "secret-2") rows
      (row_principal (row "opk-2" "secret-2")) refl
