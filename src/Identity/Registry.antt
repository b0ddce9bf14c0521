-- ===== src/Identity/Registry.antt =====
-- pillar1_identity/registry.py: the operations on the agents table. An operation returns the changed
-- table beside its value; where it raises, the session is rolled back and the table is as before.
pub mod History
pub mod Lineage
pub mod Invariant
use mathlib.Core.List.{reverse}
use acr_framework.Prelude.{
  ℕ, zero, suc, ◌+◌, String, Bool, true, false, not, ◌&&◌, Option, none, some, List, [], ◌∷◌, ◌++◌,
  map, ltb, ◌==◌, if◌then◌else◌, get_or, contains, where_rows, count_if,
}
use acr_framework.Prelude.Table.{find, update}
use acr_framework.Errors.{
  Result, ok, err, agent_not_found, agent_already_exists, agent_lifecycle, ◌>>=◌, ◌>>◌, guard,
}
use acr_framework.Identity.Models.{
  LifecycleState, draft, active, deprecated, retired, HealthStatus, unknown, unhealthy,
  AgentManifest, AgentRegisterRequest, AgentUpdateRequest, AgentRecord, is_retired, same_state,
}

abbrev pub AgentTable : Type 0
AgentTable = List AgentRecord

abbrev pub agent_key : AgentRecord → String
agent_key r = r.agent_id

-- ACTIVE_LIFECYCLE_STATES
abbrev pub is_active_state : LifecycleState → Bool
is_active_state active = true
is_active_state deprecated = true
is_active_state _ = false

-- LIFECYCLE_TRANSITIONS
pub may_transition : LifecycleState → LifecycleState → Bool
may_transition draft active = true
may_transition draft retired = true
may_transition active deprecated = true
may_transition active retired = true
may_transition deprecated active = true
may_transition deprecated retired = true
may_transition _ _ = false

pub record_to_manifest : AgentRecord → AgentManifest
record_to_manifest r = record {
  agent_id = r.agent_id;
  owner = r.owner;
  purpose = r.purpose;
  risk_tier = r.risk_tier;
  allowed_tools = r.allowed_tools;
  forbidden_tools = r.forbidden_tools;
  data_access = r.data_access;
  boundaries = r.boundaries;
  version = r.version;
  parent_agent_id = r.parent_agent_id;
  capabilities = r.capabilities;
}

or_not_found : Option AgentRecord → Result AgentRecord
or_not_found none = err agent_not_found
or_not_found (some r) = ok r

unfoldable pub get_agent : AgentTable → String → Result AgentRecord
unfolding or_not_found
get_agent db agent_id = or_not_found (find agent_key agent_id db)

pub new_record : ℕ → AgentRegisterRequest → AgentRecord
new_record now req = record {
  agent_id = req.agent_id;
  owner = req.owner;
  purpose = req.purpose;
  risk_tier = req.risk_tier;
  allowed_tools = req.allowed_tools;
  forbidden_tools = req.forbidden_tools;
  data_access = req.data_access;
  boundaries = req.boundaries;
  is_active = not (is_retired req.lifecycle_state);
  version = req.version;
  parent_agent_id = req.parent_agent_id;
  capabilities = req.capabilities;
  lifecycle_state = req.lifecycle_state;
  health_status = unknown;
  last_heartbeat_at = none;
  created_at = now;
  updated_at = now;
}

-- The parent must exist and must not be retired.
check_parent : AgentTable → Option String → Result (Unit {0})
check_parent db none = ok tt
check_parent db (some parent_id) = do
  parent ← get_agent db parent_id
  guard (not (is_retired parent.lifecycle_state)) agent_lifecycle

-- The insert, with the unique constraint on agent_id that raises IntegrityError.
insert_record : Option AgentRecord → AgentRecord → AgentTable → Result (AgentRecord × AgentTable)
insert_record (some _) r db = err agent_already_exists
insert_record none r db = ok (r, db ++ r ∷ [])

pub register_agent : ℕ → AgentTable → AgentRegisterRequest → Result (AgentRecord × AgentTable)
unfolding new_record check_parent insert_record get_agent
register_agent now db req = do
  check_parent db req.parent_agent_id
  insert_record (find agent_key req.agent_id db) (new_record now req) db

-- `if req.x is not None: record.x = req.x`, field by field.
pub apply_update : ℕ → AgentUpdateRequest → AgentRecord → AgentRecord
apply_update now req r = record r {
  owner = get_or req.owner r.owner;
  purpose = get_or req.purpose r.purpose;
  risk_tier = get_or req.risk_tier r.risk_tier;
  allowed_tools = get_or req.allowed_tools r.allowed_tools;
  forbidden_tools = get_or req.forbidden_tools r.forbidden_tools;
  data_access = get_or req.data_access r.data_access;
  boundaries = get_or req.boundaries r.boundaries;
  version = get_or req.version r.version;
  capabilities = get_or req.capabilities r.capabilities;
  updated_at = now;
}

pub update_agent : ℕ → AgentTable → String → AgentUpdateRequest → Result (AgentRecord × AgentTable)
unfolding apply_update get_agent
update_agent now db agent_id req = do
  r ← get_agent db agent_id
  ok (apply_update now req r, update agent_key agent_id (apply_update now req) db)

pub retire : ℕ → AgentRecord → AgentRecord
retire now r = record r { is_active = false; lifecycle_state = retired; updated_at = now }

-- The column updated_at has `onupdate=func.now()`.
pub deregister_agent : ℕ → AgentTable → String → Result AgentTable
unfolding retire get_agent
deregister_agent now db agent_id = do
  r ← get_agent db agent_id
  ok (update agent_key agent_id (retire now) db)

pub move_to : ℕ → LifecycleState → AgentRecord → AgentRecord
move_to now target r = record r {
  lifecycle_state = target;
  is_active = not (is_retired target);
  updated_at = now;
}

pub transition_lifecycle :
    ℕ → AgentTable → String → LifecycleState → Result (AgentRecord × AgentTable)
unfolding move_to get_agent
transition_lifecycle now db agent_id target = do
  r ← get_agent db agent_id
  if same_state target r.lifecycle_state then ok (r, db) else do
    guard (may_transition r.lifecycle_state target) agent_lifecycle
    ok (move_to now target r, update agent_key agent_id (move_to now target) db)

pub beat : ℕ → HealthStatus → AgentRecord → AgentRecord
beat now health r = record r {
  last_heartbeat_at = some now;
  health_status = health;
  updated_at = now;
}

pub record_heartbeat : ℕ → AgentTable → String → HealthStatus → Result (AgentRecord × AgentTable)
unfolding beat get_agent
record_heartbeat now db agent_id health = do
  r ← get_agent db agent_id
  guard (not (is_retired r.lifecycle_state)) agent_lifecycle
  ok (beat now health r, update agent_key agent_id (beat now health) db)

unfoldable pub get_manifest : AgentTable → String → Result AgentManifest
unfolding record_to_manifest get_agent
get_manifest db agent_id = do r ← get_agent db agent_id; ok (record_to_manifest r)

abbrev is_unhealthy : HealthStatus → Bool
is_unhealthy unhealthy = true
is_unhealthy _ = false

-- `last_heartbeat_at IS NOT NULL AND last_heartbeat_at < now - threshold`
abbrev has_lapsed : ℕ → ℕ → Option ℕ → Bool
has_lapsed now threshold none = false
has_lapsed now threshold (some t) = ltb (t + threshold) now

-- The row filter of the sweep.
pub is_stale : ℕ → ℕ → AgentRecord → Bool
is_stale now threshold r =
    is_active_state r.lifecycle_state
    && has_lapsed now threshold r.last_heartbeat_at
    && not (is_unhealthy r.health_status)

downgrade : ℕ → ℕ → AgentRecord → AgentRecord
unfolding is_stale
downgrade now threshold r =
    if is_stale now threshold r then record r { health_status = unhealthy; updated_at = now } else r

pub sweep_stale_heartbeats : ℕ → ℕ → AgentTable → ℕ × AgentTable
unfolding downgrade
sweep_stale_heartbeats now threshold db =
    (count_if (is_stale now threshold) db, map (downgrade now threshold) db)

-- The three ways to leave the loop of `get_lineage` early: no parent, a parent that was seen (a
-- cycle), or one that is not in the table.
pub next_parent : AgentTable → List String → Option String → Option AgentRecord
next_parent db seen none = none
next_parent db seen (some parent_id) =
    if contains parent_id seen then none else find agent_key parent_id db

-- The loop, on the rounds left. Each parent is put in front, so the chain comes out reversed, from
-- root to leaf; `seen` holds its identifiers.
pub climb : ℕ → AgentTable → List String → AgentRecord → List AgentRecord → List AgentRecord
unfolding next_parent
climb zero db seen cursor chain = chain
climb (suc rounds) db seen cursor chain = elim (next_parent db seen cursor.parent_agent_id) [
  | none ↦ chain
  | some parent ↦ climb rounds db (parent.agent_id ∷ seen) parent (parent ∷ chain)
]

abbrev pub is_child_of : String → AgentRecord → Bool
is_child_of agent_id r = elim r.parent_agent_id [ none ↦ false | some p ↦ p == agent_id ]

-- The ancestors from the root to the agent itself, and the direct children. The rows of a table
-- stand in the order of their creation.
pub get_lineage : AgentTable → String → Result (List AgentRecord × List AgentRecord)
unfolding climb get_agent
get_lineage db agent_id = do
  leaf ← get_agent db agent_id
  ok (climb 32 db (leaf.agent_id ∷ []) leaf (leaf ∷ []), where_rows (is_child_of agent_id) db)

abbrev matches_state : Option LifecycleState → AgentRecord → Bool
matches_state none r = is_active_state r.lifecycle_state
matches_state (some s) r = same_state r.lifecycle_state s

abbrev matches_parent : Option String → AgentRecord → Bool
matches_parent none r = true
matches_parent (some p) r = is_child_of p r

abbrev matches_capability : Option String → AgentRecord → Bool
matches_capability none r = true
matches_capability (some c) r = contains c r.capabilities

-- The two queries and the filter in Python; the newest row comes first.
pub discover_agents :
    AgentTable → Option String → Option LifecycleState → Option String → List AgentRecord
discover_agents db capability state parent_id =
    where_rows (matches_capability capability)
      (reverse (where_rows (λ r. matches_state state r && matches_parent parent_id r) db))

pub list_agents : AgentTable → List AgentRecord
list_agents db = reverse db
