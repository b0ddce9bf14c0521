-- ===== src/Startup.antt =====
-- main.py: the start of the application, its readiness, and the loops that it launches.
pub mod Started
pub mod Loops
use acr_framework.Prelude.{
  ℕ, ◌+◌, ltb, String, Bool, true, false, not, ◌&&◌, ◌||◌, Option, none, some, List, [], ◌∷◌, ◌++◌,
  ◌==◌, if◌then◌else◌, contains, is_empty, where_rows, leb,
}
use acr_framework.Config.{
  Settings, Unsafe, bootstrap_mode, is_development, assert_production_secrets,
  effective_schema_bootstrap_mode, BootstrapMode, create, validate, off,
}

-- Why the application does not start.
pub data StartError : Type 0 where
  unsafe : Unsafe → StartError
  no_redis no_database : StartError
  incomplete_schema : List String → StartError

-- The dependencies at the start: whether Redis and the database answer, and the tables there are.
pub record Dependencies : Type 0 where
  pub redis_up : Bool
  pub database_up : Bool
  pub tables : List String

-- The running application: whether Redis answered, and the tables.
pub record Application : Type 0 where
  pub redis : Bool
  pub tables : List String

pub data Start : Type 0 where
  started : Application → Start
  failed : StartError → Start

-- `required_tables`, sorted.
abbrev pub required_tables : List String
required_tables =
    "agents" ∷ "approval_requests" ∷ "drift_baseline_versions" ∷ "drift_metrics"
    ∷ "operator_credentials" ∷ "policy_drafts" ∷ "telemetry_events" ∷ []

-- `sorted(required_tables - existing)`
unfoldable pub missing_tables : List String → List String
missing_tables existing = where_rows (λ t. not (contains t existing)) required_tables

-- `create_all` creates the tables of the metadata that are absent.
abbrev create_all : List String → List String → List String
create_all metadata existing = existing ++ where_rows (λ t. not (contains t existing)) metadata

schema_at : List String → BootstrapMode → Dependencies → Start
unfolding missing_tables
schema_at metadata create d =
    started (record { redis = d.redis_up; tables = create_all metadata d.tables })
schema_at metadata validate d =
    if is_empty (missing_tables d.tables)
    then started (record { redis = d.redis_up; tables = d.tables })
    else failed (incomplete_schema (missing_tables d.tables))
schema_at metadata off d = started (record { redis = d.redis_up; tables = d.tables })

-- The transaction in which the schema is created or looked at.
manage_schema : List String → Dependencies → Option BootstrapMode → Start
unfolding schema_at
manage_schema metadata d none = failed (unsafe bootstrap_mode)
manage_schema metadata d (some mode) =
    if d.database_up then schema_at metadata mode d else failed no_database

after_checks : List String → Settings → Dependencies → Option Unsafe → Start
unfolding manage_schema
after_checks metadata c d (some e) = failed (unsafe e)
after_checks metadata c d none =
    if not d.redis_up && (c.strict_dependency_startup || not (is_development c))
    then failed no_redis
    else manage_schema metadata d (effective_schema_bootstrap_mode c)

-- The part of `lifespan` before the yield. `metadata` are the tables of the models.
unfoldable pub lifespan : List String → Settings → Dependencies → Start
unfolding after_checks
lifespan metadata c d = after_checks metadata c d (assert_production_secrets c)
