-- ===== src/Tests/Fixtures.antt =====
-- An agent, its request, a world around them and a policy engine that allows.
use acr_framework.Prelude.{String, true, false, Option, none, some, [], ◌∷◌}
use acr_framework.Prelude.Int.{pos}
use acr_framework.Errors.{err, downstream_execution}
use acr_framework.Json.{str, end, field, bool}
use acr_framework.Redis.{Redis}
use acr_framework.Identity.Models.{
  AgentBoundaries, AgentRecord, LifecycleState, active, healthy, medium,
}
use acr_framework.Policy.Filter.{Patterns}
use acr_framework.Policy.Engine.{OpaResult, response, Breaker}
use acr_framework.Gateway.Outside.{Settings, Outside, works}
use acr_framework.Gateway.Models.{EvaluateRequest, Execution, World, Services}

abbrev pub boundaries : AgentBoundaries
boundaries = record {
  max_actions_per_minute = pos 30;
  max_cost_per_hour_usd = pos 5000000;
  default_action_cost_usd = some (pos 100000);
  tool_costs_usd = ("query_db", pos 250000) ∷ [];
  allowed_regions = [];
  credential_rotation_days = pos 90;
}

abbrev pub agent : String → Option String → LifecycleState → AgentRecord
agent id parent state = record {
  agent_id = id;
  owner = "ops";
  purpose = "support";
  risk_tier = medium;
  allowed_tools = "query_db" ∷ [];
  forbidden_tools = [];
  data_access = [];
  boundaries = boundaries;
  is_active = true;
  version = "1.0.0";
  parent_agent_id = parent;
  capabilities = [];
  lifecycle_state = state;
  health_status = healthy;
  last_heartbeat_at = none;
  created_at = 0;
  updated_at = 0;
}

abbrev pub settings : Settings
settings = record {
  acr_env = "production";
  strict_dependency_startup = true;
  execute_allowed_actions = true;
}

abbrev pub outside : Outside
outside = record { connected = true; fault = λ s. works; clock = λ s. 7205 }

abbrev pub empty_redis : Redis
empty_redis = record {
  kill = λ a. none;
  throttle = λ a. none;
  restrict = λ a. none;
  isolate = λ a. none;
  rate = λ a m. none;
  spend = λ a h. none;
  drift_score = λ a. none;
  drift_counter = λ a. none;
  token_rate = λ a. none;
}

abbrev pub world : World
world = record {
  redis = empty_redis;
  agents = agent "bot" none active ∷ [];
  approvals = [];
  tasks = [];
  executions = [];
}

abbrev pub allowing : OpaResult
allowing = record {
  deny = some [];
  allow = some (bool true);
  modify = none;
  escalate = none;
  escalate_queue = none;
  escalate_sla_minutes = none;
  modified_action = none;
  modified_parameters = none;
}

abbrev pub closed : Breaker
closed = record { refuses = false; opens = false }

abbrev pub patterns : Patterns
patterns = record { search = λ t s. false; sub = λ t s. s }

abbrev pub services : Services
services = record {
  breaker = closed;
  post = λ d n. response 200 (some allowing);
  patterns = patterns;
  execute = λ e. err downstream_execution;
  correlation_id = "c-1";
  request_id = "apr-1";
  now = 0;
}

abbrev pub request : EvaluateRequest
request = record {
  agent_id = "bot";
  tool_name = "query_db";
  parameters = field "sql" (str "select 1") end;
  description = none;
  context = field "region" (str "eu") end;
}

abbrev pub execution : Execution
execution = record {
  agent_id = "bot";
  tool_name = "query_db";
  parameters = end;
  description = none;
  correlation_id = "c-1";
  approval_request_id = none;
}
