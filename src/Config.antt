-- ===== src/Config.antt =====
-- config.py: the settings that start-up checks, the checks, and the dictionaries that settings hold as
-- JSON texts.
pub mod Strong
use Prim.Native.Char.{code}
use Prim.Native.String
use acr_framework.Prelude.{
  ℕ, ◌+◌, ltb, String, Bool, true, false, not, ◌&&◌, ◌||◌, Option, none, some, List, [], ◌∷◌, ◌==◌,
  if◌then◌else◌, contains, is_empty,
}
use acr_framework.Errors.{Result, ok, err, unexpected, ◌>>=◌}
use acr_framework.Json.{Json, obj, arr, str, Fields, end, field, Items, nil, item}

pub record Settings : Type 0 where
  pub acr_env : String
  pub jwt_algorithm : String
  pub jwt_secret_key : String
  pub killswitch_secret : String
  pub webhook_url : String
  pub webhook_hmac_secret : String
  pub audit_signing_secret : String
  pub execute_allowed_actions : Bool
  pub executor_hmac_secret : String
  pub executor_credential_secret : String
  pub operator_api_keys_json : String
  pub service_operator_api_key : String
  pub operator_session_secret : String
  pub oidc_enabled : Bool
  pub oidc_issuer : String
  pub oidc_client_id : String
  pub oidc_authorize_url : String
  pub oidc_token_url : String
  pub oidc_jwks_url : String
  pub oidc_redirect_uri : String
  pub schema_bootstrap_mode : String
  pub strict_dependency_startup : Bool

-- _WEAK_KEYS
abbrev pub weak_keys : List String
weak_keys =
    "dev_jwt_secret_change_in_production" ∷ "killswitch_dev_secret_change_me" ∷ "secret"
    ∷ "changeme" ∷ "password" ∷ "jwt_secret" ∷ "dev_audit_signing_secret_change_me" ∷ []

-- _MIN_KEY_BYTES
abbrev pub min_key_bytes : ℕ
min_key_bytes = 32

-- ALLOWED_JWT_ALGORITHMS
abbrev pub allowed_jwt_algorithms : List String
allowed_jwt_algorithms = "HS256" ∷ "RS256" ∷ "ES256" ∷ []

-- The bytes of a character in UTF-8.
abbrev char_bytes : ℕ → ℕ
char_bytes c = if ltb c 128 then 1 else if ltb c 2048 then 2 else if ltb c 65536 then 3 else 4

-- `len(s.encode())`
unfoldable pub byte_length : String → ℕ
byte_length String.[] = 0
byte_length (String.◌∷◌ c s) = char_bytes (code c) + byte_length s

-- What a RuntimeError of the checks is about.
pub data Unsafe : Type 0 where
  algorithm jwt_key killswitch audit executor_hmac executor_credential : Unsafe
  operator_keys service_key session : Unsafe
  oidc_settings : List String → Unsafe
  bootstrap_mode : Unsafe

abbrev pub is_weak : String → Bool
is_weak s = contains s weak_keys

abbrev pub is_short : String → Bool
is_short s = ltb (byte_length s) min_key_bytes

abbrev pub is_unset : String → Bool
is_unset s = s == ""

abbrev pub is_development : Settings → Bool
is_development c = c.acr_env == "development" || c.acr_env == "test"

-- The settings of `required`, in the order that `sorted` gives their names.
abbrev required : Settings → List (String × String)
required c =
    ("OIDC_AUTHORIZE_URL", c.oidc_authorize_url)
    ∷ ("OIDC_CLIENT_ID", c.oidc_client_id)
    ∷ ("OIDC_ISSUER", c.oidc_issuer)
    ∷ ("OIDC_JWKS_URL", c.oidc_jwks_url)
    ∷ ("OIDC_REDIRECT_URI", c.oidc_redirect_uri)
    ∷ ("OIDC_TOKEN_URL", c.oidc_token_url)
    ∷ []

missing_of : List (String × String) → List String
missing_of [] = []
missing_of ((name, value) ∷ rest) =
    let others = missing_of rest in if is_unset value then name ∷ others else others

assert_oidc : Settings → Option Unsafe
unfolding missing_of
assert_oidc c =
    if is_weak c.operator_session_secret || is_short c.operator_session_secret
    then some session
    else (let missing = missing_of (required c) in
        if is_empty missing then none else some (oidc_settings missing))

-- None when nothing is raised. The webhook and its secret are not looked at.
unfoldable pub assert_production_secrets : Settings → Option Unsafe
unfolding assert_oidc
assert_production_secrets c =
    if is_development c
    then none
    else if not (contains c.jwt_algorithm allowed_jwt_algorithms)
    then some algorithm
    else if is_weak c.jwt_secret_key || is_short c.jwt_secret_key
    then some jwt_key
    else if is_weak c.killswitch_secret
    then some killswitch
    else if is_weak c.audit_signing_secret || is_short c.audit_signing_secret
    then some audit
    else if c.execute_allowed_actions && is_short c.executor_hmac_secret
    then some executor_hmac
    else if not (is_unset c.executor_credential_secret) && is_short c.executor_credential_secret
    then some executor_credential
    else if is_unset c.operator_api_keys_json
    then some operator_keys
    else if is_unset c.service_operator_api_key
    then some service_key
    else if c.oidc_enabled
    then assert_oidc c
    else none

pub data BootstrapMode : Type 0 where
  create validate off : BootstrapMode

-- None when the mode is not one of ALLOWED_SCHEMA_BOOTSTRAP_MODES.
unfoldable pub effective_schema_bootstrap_mode : Settings → Option BootstrapMode
effective_schema_bootstrap_mode c =
    if c.schema_bootstrap_mode == "create"
    then some create
    else if c.schema_bootstrap_mode == "validate"
    then some validate
    else if c.schema_bootstrap_mode == "off"
    then some off
    else if c.schema_bootstrap_mode == "auto"
    then if is_development c then some create else some validate
    else none

-- Settings that hold a dictionary as a JSON text; `loads` is `json.loads`, none when it raises, and
-- `text` is `str` of a value. The results are cached, so a run reads them once.
module _ (loads : String → Option Json) (text : Json → String) where
  or_raise : Option Json → Result Fields
  or_raise (some (obj d)) = ok d
  or_raise _ = err unexpected

  load_object : String → Result Fields
  unfolding or_raise
  load_object raw = if is_unset raw then ok end else or_raise (loads raw)

  -- `operator_api_keys`, of the text of the setting.
  unfoldable pub operator_api_keys : String → Result Fields
  unfolding load_object
  operator_api_keys raw = load_object raw

  -- `[str(role) for role in internal_roles]`
  texts_of : Items → List String
  texts_of nil = []
  texts_of (item v rest) = text v ∷ texts_of rest

  roles_of : Json → Result (List String)
  unfolding texts_of
  roles_of (str role) = ok (role ∷ [])
  roles_of (arr roles) = ok (texts_of roles)
  roles_of _ = err unexpected

  normalized : Fields → Result (List (String × List String))
  unfolding roles_of
  normalized end = ok []
  normalized (field external_role internal_roles rest) = do
    roles ← roles_of internal_roles
    others ← normalized rest
    ok ((external_role, roles) ∷ others)

  unfoldable pub oidc_role_mapping : String → Result (List (String × List String))
  unfolding load_object normalized
  oidc_role_mapping raw = load_object raw >>= normalized

  urls_of : Fields → List (String × String)
  urls_of end = []
  urls_of (field tool url rest) = (tool, text url) ∷ urls_of rest

  unfoldable pub tool_executor_map : String → Result (List (String × String))
  unfolding load_object urls_of
  tool_executor_map raw = do d ← load_object raw; ok (urls_of d)

  objects_of : Fields → List (String × Fields)
  objects_of end = []
  objects_of (field tool (obj d) rest) = (tool, d) ∷ objects_of rest
  objects_of (field tool _ rest) = objects_of rest

  unfoldable pub executor_integrations : String → Result (List (String × Fields))
  unfolding load_object objects_of
  executor_integrations raw = do d ← load_object raw; ok (objects_of d)
