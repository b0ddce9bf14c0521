-- ===== src/Operators/Auth.antt =====
-- common/operator_auth.py: who calls an operator endpoint, by a token of the identity provider, a
-- session, a key of the table or a key of the settings, in this order; and the roles that it needs.
pub mod Sound
use acr_framework.Prelude.{
  ℕ, String, Bool, true, false, not, ◌&&◌, ◌||◌, Option, none, some, List, [], ◌∷◌, ◌==◌,
  if◌then◌else◌, is_empty, contains,
}
use acr_framework.Prelude.Text.{is_ascii}
use acr_framework.Errors.{
  AcrError, Result, ok, err, unauthorized_operator, forbidden_operator, unexpected, guard, ◌>>=◌,
  ◌>>◌,
}
use acr_framework.Json.{
  Json, null, bool, int, float, str, arr, obj, Items, nil, item, Fields, end, field, get, truthy,
}
use acr_framework.Operators.Keys.{
  OperatorCredential, find_operator_key_by_hash, touch_operator_key_usage,
}
use acr_framework.Operators.Oidc.{
  OidcConfig, Provider, OidcPrincipal, validate_oidc_token, decode_signed_payload,
}

pub record OperatorPrincipal : Type 0 where
  pub subject : String
  pub roles : List String
  pub source : String
  pub key_id : Option String

-- What a request brings: a bearer token, the session cookie, and the X-Operator-API-Key header.
pub record Credentials : Type 0 where
  pub bearer : Option String
  pub session : Option String
  pub api_key : Option String

-- The settings, the identity provider, the hash of a key, and the keys of the settings
-- (`operator_api_keys`) with what each stands for.
pub record AuthConfig : Type 0 where
  pub oidc : OidcConfig
  pub provider : Provider
  pub hash_operator_key : String → String
  pub operator_api_keys : List (String × Json)

-- A header or cookie that is an empty text counts as none.
abbrev pub given : Option String → Option String
given none = none
given (some s) = if s == "" then none else some s

text_of : Provider → Json → String
text_of p (str s) = s
text_of p v = p.to_text v

-- `str(d.get(k) or t)`
text_or : Provider → String → String → Fields → String
unfolding get truthy text_of
text_or p k t d = elim (get k d) [ none ↦ t | some v ↦ if truthy v then text_of p v else t ]

characters : String → List String
characters String.[] = []
characters (String.◌∷◌ c s) = String.◌∷◌ c String.[] ∷ characters s

names_in : Fields → List String
names_in end = []
names_in (field k v d) = k ∷ names_in d

texts_in : Provider → Items → List String
unfolding text_of
texts_in p nil = []
texts_in p (item v vs) = text_of p v ∷ texts_in p vs

-- `str(x) for x in v`
iterated : Provider → Json → Result (List String)
unfolding characters names_in texts_in truthy
iterated p (arr vs) = ok (texts_in p vs)
iterated p (str s) = ok (characters s)
iterated p (obj d) = ok (names_in d)
iterated p v = if truthy v then err unexpected else ok []

session_roles : Provider → Fields → Result (List String)
unfolding get iterated
session_roles p d = elim (get "roles" d) [ none ↦ ok [] | some v ↦ iterated p v ]

pub by_bearer : AuthConfig → ℕ → String → Result OperatorPrincipal
by_bearer c now token = do
  p ← validate_oidc_token c.oidc c.provider now token
  ok (record { subject = p.subject; roles = p.roles; source = "oidc_bearer"; key_id = none })

pub by_session : AuthConfig → ℕ → String → Result OperatorPrincipal
unfolding session_roles text_or
by_session c now session = do
  d ← decode_signed_payload c.oidc c.provider now session
  roles ← session_roles c.provider d
  ok (record {
    subject = text_or c.provider "subject" "operator" d;
    roles = roles;
    source = text_or c.provider "source" "oidc_session" d;
    key_id = none;
  })

-- `identity.get("roles") or []`, which must be a list.
unfoldable pub bootstrap_roles : Provider → Fields → Result (List String)
unfolding get truthy texts_in
bootstrap_roles p d = elim (get "roles" d) [
  | none ↦ ok []
  | some (arr vs) ↦ ok (texts_in p vs)
  | some v ↦ if truthy v then err unauthorized_operator else ok []
]

unfoldable pub bootstrap_principal : Provider → Json → Result OperatorPrincipal
unfolding bootstrap_roles text_or
bootstrap_principal p (obj d) = do
  roles ← bootstrap_roles p d
  ok (record {
    subject = text_or p "subject" "operator" d;
    roles = roles;
    source = "bootstrap";
    key_id = none;
  })
bootstrap_principal p _ = err unexpected

-- The loop over the keys of the settings. `secrets.compare_digest` takes ASCII texts only.
unfoldable pub by_bootstrap : Provider → String → List (String × Json) → Result OperatorPrincipal
unfolding bootstrap_principal
by_bootstrap p api_key [] = err unauthorized_operator
by_bootstrap p api_key ((expected, identity) ∷ rest) =
    let later = by_bootstrap p api_key rest in
    if not (is_ascii api_key && is_ascii expected)
    then err unexpected
    else if api_key == expected
    then bootstrap_principal p identity
    else later

abbrev pub row_principal : OperatorCredential → OperatorPrincipal
row_principal r = record {
  subject = r.subject;
  roles = r.roles;
  source = "database";
  key_id = some r.key_id;
}

-- The table is left as it is.
abbrev pub with_rows :
    List OperatorCredential
    → Result OperatorPrincipal
    → Result (OperatorPrincipal × List OperatorCredential)
with_rows rows r = r >>= λ p. ok (p, rows)

unfoldable pub by_api_key :
    AuthConfig
    → ℕ
    → String
    → List OperatorCredential
    → Result (OperatorPrincipal × List OperatorCredential)
unfolding find_operator_key_by_hash by_bootstrap touch_operator_key_usage
by_api_key c now api_key rows = do
  found ← find_operator_key_by_hash (c.hash_operator_key api_key) rows
  elim found [
    | some r ↦ ok (row_principal r, touch_operator_key_usage now r.key_id rows)
    | none ↦ with_rows rows (by_bootstrap c.provider api_key c.operator_api_keys)
  ]

-- `authorization` counts with the scheme "bearer" only, whatever token it has.
unfoldable pub get_operator_principal :
    AuthConfig
    → ℕ
    → Credentials
    → List OperatorCredential
    → Result (OperatorPrincipal × List OperatorCredential)
unfolding by_bearer by_session by_api_key
get_operator_principal c now h rows = elim h.bearer [
  | some token ↦ with_rows rows (by_bearer c now token)
  | none ↦ elim (given h.session) [
    | some session ↦ with_rows rows (by_session c now session)
    | none ↦ elim (given h.api_key) [
      | some api_key ↦ by_api_key c now api_key rows
      | none ↦ err unauthorized_operator
    ]
  ]
]

-- `not roles.isdisjoint(required)`
unfoldable pub shares_role : List String → List String → Bool
unfolding contains
shares_role [] roles = false
shares_role (r ∷ required) roles = contains r roles || shares_role required roles

unfoldable pub require_operator_roles :
    List String → Result (OperatorPrincipal × List OperatorCredential) → Result OperatorPrincipal
unfolding shares_role
require_operator_roles required authenticated = do
  (p, rows) ← authenticated
  guard (is_empty required || shares_role required p.roles) forbidden_operator
  ok p
