-- ===== src/Config/Strong.antt =====
-- The settings that pass the checks of start-up.
use acr_framework.Prelude.{
  inl, inr, is_empty, All, ◌≤◌, ◌≡◌, ◌≢◌, ◌↔◌, refl, String, Bool, true, false, Bool-cases, Option,
  none, some, List, [], ◌∷◌, ◌||◌, ◌&&◌, not, if◌then◌else◌, arith, contains, str_iff,
}
use acr_framework.Config.{
  Settings, Unsafe, algorithm, jwt_key, killswitch, audit, executor_hmac, executor_credential,
  operator_keys, service_key, weak_keys, allowed_jwt_algorithms, byte_length, is_weak, is_short,
  is_unset, is_development, assert_oidc, assert_production_secrets, missing_of, required,
}

-- A key that is not in the list of weak keys and has 32 bytes or more.
pub IsStrongKey : String → Type 0
IsStrongKey k = (contains k weak_keys ≡ false) × (32 ≤ byte_length k)

pub record IsOidcReady (c : Settings) : Type 0 where
  pub session : IsStrongKey c.operator_session_secret
  pub authorize_url : c.oidc_authorize_url ≢ ""
  pub client_id : c.oidc_client_id ≢ ""
  pub issuer : c.oidc_issuer ≢ ""
  pub jwks_url : c.oidc_jwks_url ≢ ""
  pub redirect_uri : c.oidc_redirect_uri ≢ ""
  pub token_url : c.oidc_token_url ≢ ""

-- What the checks ask of the settings. `executor_hmac_secret` and `executor_credential_secret` are
-- measured but not looked up in the list, the secret of the kill switch is looked up but not measured,
-- and `webhook_hmac_secret` is not looked at.
pub record IsAccepted (c : Settings) : Type 0 where
  pub algorithm : contains c.jwt_algorithm allowed_jwt_algorithms ≡ true
  pub jwt_key : IsStrongKey c.jwt_secret_key
  pub killswitch : contains c.killswitch_secret weak_keys ≡ false
  pub audit : IsStrongKey c.audit_signing_secret
  pub executor : c.execute_allowed_actions ≡ true → 32 ≤ byte_length c.executor_hmac_secret
  pub credential : c.executor_credential_secret ≢ "" → 32 ≤ byte_length c.executor_credential_secret
  pub operator_keys : c.operator_api_keys_json ≢ ""
  pub service_key : c.service_operator_api_key ≢ ""
  pub oidc : c.oidc_enabled ≡ true → IsOidcReady c

-- A check that is passed, and those after it.
passed :
    (raises : Bool) (e : Unsafe) (rest : Option Unsafe)
    → ((if raises then some e else rest) ≡ none) ↔ ((raises ≡ false) × (rest ≡ none))
passed raises e rest = ground arith

strong_iff : (k : String) → (is_weak k || is_short k ≡ false) ↔ IsStrongKey k
unfolding IsStrongKey
strong_iff k = ground arith

unset_iff : (s : String) → (is_unset s ≡ false) ↔ (s ≢ "")
unset_iff s = ground (arith, str_iff s "")

hmac_iff : (on : Bool) (k : String) → (on && is_short k ≡ false) ↔ (on ≡ true → 32 ≤ byte_length k)
hmac_iff on k = ground arith

credential_iff :
    (k : String) → (not (is_unset k) && is_short k ≡ false) ↔ (k ≢ "" → 32 ≤ byte_length k)
credential_iff k = ground (arith, str_iff k "")

eight_passed :
    (a b c d e f g h : Bool) (rest : Option Unsafe)
    → ((if a
          then some algorithm
          else if b
          then some jwt_key
          else if c
          then some killswitch
          else if d
          then some audit
          else if e
          then some executor_hmac
          else if f
          then some executor_credential
          else if g
          then some operator_keys
          else if h
          then some service_key
          else rest)
        ≡ none)
      ↔ ((a ≡ false)
          × (b ≡ false)
          × (c ≡ false)
          × (d ≡ false)
          × (e ≡ false)
          × (f ≡ false)
          × (g ≡ false)
          × (h ≡ false)
          × (rest ≡ none))
eight_passed a b c d e f g h rest = ground arith

none_missing :
    (settings : List (String × String))
    → (is_empty (missing_of settings) ≡ true) ↔ All (λ p. p.1 ≢ "") settings
unfolding missing_of
none_missing [] = (λ h. tt, λ h. refl)
none_missing ((name, value) ∷ rest) = elim (Bool-cases (is_unset value)) [
  | inl e ↦ (λ h. absurd (ground (arith, e, h)), λ h. absurd (h.0 ((str_iff value "").0 e)))
  | inr e ↦ (
    λ h. ((unset_iff value).0 e, (none_missing rest).0 (ground (arith, e, h))),
    λ h. rw e ((none_missing rest).1 h.1),
  )
]

assert_oidc_iff : (c : Settings) → (assert_oidc c ≡ none) ↔ IsOidcReady c
unfolding assert_oidc
assert_oidc_iff c = (raised_none, ready)
  where
    all_set : assert_oidc c ≡ none → All (λ p. p.1 ≢ "") (required c)
    all_set h = (none_missing (required c)).0 (ground arith)

    strong : assert_oidc c ≡ none → IsStrongKey c.operator_session_secret
    strong h = (strong_iff c.operator_session_secret).0 (ground arith)

    raised_none : assert_oidc c ≡ none → IsOidcReady c
    raised_none h =
        let (authorize_url, (client_id, (issuer, (jwks_url, (redirect_uri, (token_url, _)))))) =
          all_set h in
        record {
          session = strong h;
          authorize_url = authorize_url;
          client_id = client_id;
          issuer = issuer;
          jwks_url = jwks_url;
          redirect_uri = redirect_uri;
          token_url = token_url;
        }

    ready : IsOidcReady c → assert_oidc c ≡ none
    ready r =
        let set = (none_missing (required c)).1 (
          r.authorize_url,
          (r.client_id, (r.issuer, (r.jwks_url, (r.redirect_uri, (r.token_url, tt))))),
        ) in
        rw ((strong_iff c.operator_session_secret).1 r.session, set) refl

when_iff :
    (on : Bool) (r : Option Unsafe) (P : Type 0)
    → (r ≡ none) ↔ P
    → ((if on then r else none) ≡ none) ↔ (on ≡ true → P)
when_iff true r P e = (λ h _. e.0 h, λ h. e.1 (h refl))
when_iff false r P e = (λ h on. absurd (ground arith), λ h. refl)

-- Outside development and test the checks raise nothing iff the settings are as `IsAccepted` says.
pub checks_iff :
    (c : Settings) → is_development c ≡ false → (assert_production_secrets c ≡ none) ↔ IsAccepted c
unfolding assert_production_secrets
checks_iff c production =
    let oidc_iff = when_iff c.oidc_enabled (assert_oidc c) (IsOidcReady c) (assert_oidc_iff c) in
    let tests =
      eight_passed (not (contains c.jwt_algorithm allowed_jwt_algorithms))
        (is_weak c.jwt_secret_key || is_short c.jwt_secret_key) (is_weak c.killswitch_secret)
        (is_weak c.audit_signing_secret || is_short c.audit_signing_secret)
        (c.execute_allowed_actions && is_short c.executor_hmac_secret)
        (not (is_unset c.executor_credential_secret) && is_short c.executor_credential_secret)
        (is_unset c.operator_api_keys_json) (is_unset c.service_operator_api_key)
        (if c.oidc_enabled then assert_oidc c else none) in
    (
      λ h.
          let (a, b, k, d, x, r, o, s, oidc) = tests.0 (rw production at h) in
          record {
            algorithm = ground arith;
            jwt_key = (strong_iff c.jwt_secret_key).0 b;
            killswitch = k;
            audit = (strong_iff c.audit_signing_secret).0 d;
            executor = (hmac_iff c.execute_allowed_actions c.executor_hmac_secret).0 x;
            credential = (credential_iff c.executor_credential_secret).0 r;
            operator_keys = (unset_iff c.operator_api_keys_json).0 o;
            service_key = (unset_iff c.service_operator_api_key).0 s;
            oidc = oidc_iff.0 oidc;
          },
      λ s. rw production (
          tests.1 (
            ground (arith, s.algorithm),
            (strong_iff c.jwt_secret_key).1 s.jwt_key,
            s.killswitch,
            (strong_iff c.audit_signing_secret).1 s.audit,
            (hmac_iff c.execute_allowed_actions c.executor_hmac_secret).1 s.executor,
            (credential_iff c.executor_credential_secret).1 s.credential,
            (unset_iff c.operator_api_keys_json).1 s.operator_keys,
            (unset_iff c.service_operator_api_key).1 s.service_key,
            oidc_iff.1 s.oidc,
          )),
    )
