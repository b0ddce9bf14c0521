-- ===== src/Identity/Models.antt =====
-- pillar1_identity/models.py and the agents table of db/models.py.
use acr_framework.Prelude.{ℕ, String, Bool, true, false, Option, List}
use acr_framework.Prelude.Int.{ℤ}

pub data LifecycleState : Type 0 where
  draft active deprecated retired : LifecycleState

pub data HealthStatus : Type 0 where
  unknown healthy degraded unhealthy : HealthStatus

pub data RiskTier : Type 0 where
  low medium high : RiskTier

pub data Permission : Type 0 where
  read read_write write nothing : Permission

pub record DataAccessEntry : Type 0 where
  pub resource : String
  pub permission : Permission

-- Amounts are integers, in millionths of a dollar.
pub record AgentBoundaries : Type 0 where
  pub max_actions_per_minute : ℤ
  pub max_cost_per_hour_usd : ℤ
  pub default_action_cost_usd : Option ℤ
  pub tool_costs_usd : List (String × ℤ)
  pub allowed_regions : List String
  pub credential_rotation_days : ℤ

pub record AgentManifest : Type 0 where
  pub agent_id : String
  pub owner : String
  pub purpose : String
  pub risk_tier : RiskTier
  pub allowed_tools : List String
  pub forbidden_tools : List String
  pub data_access : List DataAccessEntry
  pub boundaries : AgentBoundaries
  pub version : String
  pub parent_agent_id : Option String
  pub capabilities : List String

pub record AgentRegisterRequest : Type 0 where
  pub agent_id : String
  pub owner : String
  pub purpose : String
  pub risk_tier : RiskTier
  pub allowed_tools : List String
  pub forbidden_tools : List String
  pub data_access : List DataAccessEntry
  pub boundaries : AgentBoundaries
  pub version : String
  pub parent_agent_id : Option String
  pub capabilities : List String
  pub lifecycle_state : LifecycleState

pub record AgentUpdateRequest : Type 0 where
  pub owner : Option String
  pub purpose : Option String
  pub risk_tier : Option RiskTier
  pub allowed_tools : Option (List String)
  pub forbidden_tools : Option (List String)
  pub data_access : Option (List DataAccessEntry)
  pub boundaries : Option AgentBoundaries
  pub version : Option String
  pub capabilities : Option (List String)

-- A row of the agents table; times are counted in microseconds.
pub record AgentRecord : Type 0 where
  pub agent_id : String
  pub owner : String
  pub purpose : String
  pub risk_tier : RiskTier
  pub allowed_tools : List String
  pub forbidden_tools : List String
  pub data_access : List DataAccessEntry
  pub boundaries : AgentBoundaries
  pub is_active : Bool
  pub version : String
  pub parent_agent_id : Option String
  pub capabilities : List String
  pub lifecycle_state : LifecycleState
  pub health_status : HealthStatus
  pub last_heartbeat_at : Option ℕ
  pub created_at : ℕ
  pub updated_at : ℕ

abbrev pub is_retired : LifecycleState → Bool
is_retired retired = true
is_retired _ = false

abbrev pub same_state : LifecycleState → LifecycleState → Bool
same_state draft draft = true
same_state active active = true
same_state deprecated deprecated = true
same_state retired retired = true
same_state _ _ = false
