-- ===== src/Gateway/Outside.antt =====
-- What one request meets outside the process: the settings (config.py), the clock, and the faults of
-- Redis, at each place where the code looks at them.
use acr_framework.Prelude.{ℕ, String, Bool, true, false, not, ◌||◌, ◌==◌, ◌/◌}

pub record Settings : Type 0 where
  pub acr_env : String
  pub strict_dependency_startup : Bool
  pub execute_allowed_actions : Bool

abbrev pub is_development : Settings → Bool
is_development c = c.acr_env == "development" || c.acr_env == "test"

-- `runtime_dependencies_fail_closed`
unfoldable pub fail_closed : Settings → Bool
fail_closed c = c.strict_dependency_startup || not (is_development c)

-- The places of the hot path that go to Redis.
pub data Site : Type 0 where
  kill_read isolate_read restrict_read throttle_read rate_count : Site
  spend_read spend_charge spend_refund drift_read : Site

-- Two commands that follow one another both work, or the first fails, or only the second.
pub data Fault : Type 0 where
  works first_fails second_fails : Fault

abbrev pub is_fault : Fault → Bool
is_fault works = false
is_fault _ = true

pub record Outside : Type 0 where
  pub connected : Bool
  pub fault : Site → Fault
  pub clock : Site → ℕ

-- The bucket of `_hour_bucket` and that of `_get_rate_count`, counted from the epoch.
abbrev pub hour_of : ℕ → ℕ
hour_of seconds = seconds / 3600

abbrev pub minute_of : ℕ → ℕ
minute_of seconds = seconds / 60
