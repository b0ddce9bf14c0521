-- ===== src/Tests/Startup.antt =====
-- A start in production.
use acr_framework.Prelude.{◌≡◌, ◌↔◌, refl, true, false, contains, where_rows}
use acr_framework.Config.{
  Settings, assert_production_secrets, effective_schema_bootstrap_mode, byte_length,
}
use acr_framework.Config.Strong.{IsAccepted}
use acr_framework.Startup.{Dependencies, lifespan, required_tables, missing_tables}
use acr_framework.Startup.Started.{Starts, IsManaged, lifespan_iff}

abbrev production : Settings
production = record {
  acr_env = "production";
  jwt_algorithm = "HS256";
  jwt_secret_key = "k7Zq2v9XbN4mT8sLw3RfY6hJc1PdGu5E";
  killswitch_secret = "Hn5Tq8Wz";
  webhook_url = "https://hooks.example/approvals";
  webhook_hmac_secret = "";
  audit_signing_secret = "Jc1PdGu5Ek7Zq2v9XbN4mT8sLw3RfY6h";
  execute_allowed_actions = false;
  executor_hmac_secret = "";
  executor_credential_secret = "";
  operator_api_keys_json = "{}";
  service_operator_api_key = "s";
  operator_session_secret = "dev_operator_session_secret_change_me";
  oidc_enabled = true;
  oidc_issuer = "https://id.example";
  oidc_client_id = "acr";
  oidc_authorize_url = "https://id.example/authorize";
  oidc_token_url = "https://id.example/token";
  oidc_jwks_url = "https://id.example/jwks";
  oidc_redirect_uri = "https://acr.example/callback";
  schema_bootstrap_mode = "auto";
  strict_dependency_startup = false;
}

abbrev dependencies : Dependencies
dependencies = record { redis_up = true; database_up = true; tables = required_tables }

lifespan_iff_example : Starts (lifespan required_tables production dependencies) ↔ (
    IsAccepted production
    × (dependencies.redis_up ≡ true)
    × (dependencies.database_up ≡ true)
    × IsManaged dependencies (effective_schema_bootstrap_mode production))
lifespan_iff_example = lifespan_iff required_tables production dependencies refl

-- The default session secret is no weak key, and a webhook needs no secret.
starts : Starts (lifespan required_tables production dependencies)
unfolding lifespan assert_production_secrets effective_schema_bootstrap_mode contains byte_length
    missing_tables where_rows Starts
starts = (record { redis = true; tables = required_tables }, refl)
