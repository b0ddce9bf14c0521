-- ===== src/Startup/Started.antt =====
-- When the application starts outside development and test.
use acr_framework.Prelude.{
  inl, inr, ◌≡◌, ◌↔◌, refl, String, Bool, true, false, Bool-cases, Option, none, some, List, [],
  ◌∷◌, ◌||◌, ◌&&◌, not, if◌then◌else◌, arith, contains, All, is_empty, where_rows,
}
use acr_framework.Config.{
  Settings, Unsafe, is_development, assert_production_secrets, effective_schema_bootstrap_mode,
  BootstrapMode, create, validate, off,
}
use acr_framework.Config.Strong.{IsAccepted, checks_iff}
use acr_framework.Startup.{
  Start, started, failed, Application, Dependencies, required_tables, missing_tables, schema_at,
  manage_schema, after_checks, lifespan, StartError, incomplete_schema, no_database, no_redis,
}

unfoldable pub Starts : Start → Type 0
Starts s = (app : Application) × (s ≡ started app)

-- The schema is managed without an error.
pub IsManaged : Dependencies → Option BootstrapMode → Type 0
IsManaged d mode =
    (m : BootstrapMode) × (mode ≡ some m)
    × (m ≡ validate → All (λ t. contains t d.tables ≡ true) required_tables)

none_out :
    (p : String → Bool) (xs : List String)
    → (is_empty (where_rows (λ x. not (p x)) xs) ≡ true) ↔ All (λ x. p x ≡ true) xs
unfolding where_rows
none_out p [] = (λ h. tt, λ h. refl)
none_out p (x ∷ xs) = elim (Bool-cases (p x)) [
  | inl e ↦ rw e (λ h. (refl, (none_out p xs).0 h), λ h. (none_out p xs).1 h.1)
  | inr e ↦ rw e (λ h. absurd (ground arith), λ h. absurd (ground arith))
]

never : (e : StartError) → ¬ Starts (failed e)
unfolding Starts
never e s = ground arith

Starts-if :
    (b : Bool) (s : Start) (e : StartError)
    → Starts (if b then s else failed e) ↔ ((b ≡ true) × Starts s)
Starts-if true s e = (λ h. (refl, h), λ h. h.1)
Starts-if false s e = (λ h. absurd (never e h), λ h. absurd (ground arith))

schema_iff :
    (metadata : List String) (m : BootstrapMode) (d : Dependencies)
    → Starts (schema_at metadata m d)
      ↔ (m ≡ validate → All (λ t. contains t d.tables ≡ true) required_tables)
unfolding schema_at missing_tables Starts
schema_iff metadata create d = (λ s h. absurd (ground arith), λ h. (_, refl))
schema_iff metadata off d = (λ s h. absurd (ground arith), λ h. (_, refl))
schema_iff metadata validate d =
    let tested = Starts-if (is_empty (missing_tables d.tables)) (started _) (incomplete_schema _) in
    let present = none_out (λ t. contains t d.tables) required_tables in
    (λ s h. present.0 (tested.0 s).0, λ h. tested.1 (present.1 (h refl), (_, refl)))

manage_iff :
    (metadata : List String) (d : Dependencies) (mode : Option BootstrapMode)
    → Starts (manage_schema metadata d mode) ↔ ((d.database_up ≡ true) × IsManaged d mode)
unfolding manage_schema IsManaged
manage_iff metadata d none = (λ s. absurd (never _ s), λ h. absurd (ground arith))
manage_iff metadata d (some m) =
    let tested = Starts-if d.database_up (schema_at metadata m d) no_database in
    let schema = schema_iff metadata m d in
    (
      λ s. let (up, at) = tested.0 s in (up, (m, refl, schema.0 at)),
      λ (up, (m', same, tables)). tested.1 (up, schema.1 (λ e. tables (ground arith))),
    )

Starts-unless :
    (b : Bool) (e : StartError) (s : Start)
    → Starts (if b then failed e else s) ↔ ((b ≡ false) × Starts s)
Starts-unless true e s = (λ h. absurd (never e h), λ h. absurd (ground arith))
Starts-unless false e s = (λ h. (refl, h), λ h. h.1)

redis_iff :
    (c : Settings) (d : Dependencies)
    → is_development c ≡ false
    → (not d.redis_up && (c.strict_dependency_startup || not (is_development c)) ≡ false)
      ↔ (d.redis_up ≡ true)
redis_iff c d production = ground arith

checks_done :
    (metadata : List String) (c : Settings) (d : Dependencies)
    → is_development c ≡ false
    → Starts (after_checks metadata c d none) ↔ (
        (d.redis_up ≡ true)
        × (d.database_up ≡ true)
        × IsManaged d (effective_schema_bootstrap_mode c))
unfolding after_checks
checks_done metadata c d production =
    let mode = effective_schema_bootstrap_mode c in
    let tested =
      Starts-unless (not d.redis_up && (c.strict_dependency_startup || not (is_development c)))
        no_redis (manage_schema metadata d mode) in
    let redis = redis_iff c d production in
    let managed = manage_iff metadata d mode in
    (
      λ s.
          let (up, rest) = tested.0 s in
          let (database, schema) = managed.0 rest in (redis.0 up, database, schema),
      λ (up, database, schema). tested.1 (redis.1 up, managed.1 (database, schema)),
    )

checked_iff :
    (metadata : List String) (c : Settings) (d : Dependencies) (raised : Option Unsafe)
    → is_development c ≡ false
    → Starts (after_checks metadata c d raised) ↔ (
        (raised ≡ none)
        × (d.redis_up ≡ true)
        × (d.database_up ≡ true)
        × IsManaged d (effective_schema_bootstrap_mode c))
unfolding after_checks
checked_iff metadata c d none production =
    let done = checks_done metadata c d production in
    (
      λ s. let (up, database, schema) = done.0 s in (refl, up, database, schema),
      λ (_, up, database, schema). done.1 (up, database, schema),
    )
checked_iff metadata c d (some e) production = (λ s. absurd (never _ s), λ h. absurd (ground arith))

-- Outside development and test the application starts iff its settings are accepted, Redis and the
-- database answer, and the mode of the schema is a legal one, with every required table there where
-- the mode comes to validation. Settings are accepted iff the JWT algorithm is an allowed one; the JWT
-- key, the audit secret and, with OIDC enabled, the session secret have at least 32 bytes and are none
-- of the seven listed weak keys; the kill switch secret is none of the seven; the executor's HMAC
-- secret has at least 32 bytes where allowed actions are executed, and its credential secret where it
-- is set; the operator keys and the service key are not empty; and with OIDC enabled none of its six
-- settings is empty. Nothing is asked of the webhook secret, and a default that is not among the seven
-- is accepted if it is long enough.
pub lifespan_iff :
    (metadata : List String) (c : Settings) (d : Dependencies)
    → is_development c ≡ false
    → Starts (lifespan metadata c d) ↔ (
        IsAccepted c
        × (d.redis_up ≡ true)
        × (d.database_up ≡ true)
        × IsManaged d (effective_schema_bootstrap_mode c))
unfolding lifespan
lifespan_iff metadata c d production =
    let checked = checked_iff metadata c d (assert_production_secrets c) production in
    let settings = checks_iff c production in
    (
      λ s.
          let (none_raised, up, database, schema) = checked.0 s in
          (settings.0 none_raised, up, database, schema),
      λ (accepted, up, database, schema). checked.1 (settings.1 accepted, up, database, schema),
    )
