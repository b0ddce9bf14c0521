-- ===== src/Containment/Graduated.antt =====
-- pillar5_containment/graduated.py and models.py: the tiers of containment. A drift score is a number
-- of ten-thousandths: the detector rounds it to four decimals.
pub mod Ladder
pub mod Rows
use acr_framework.Prelude.{
  ℕ, String, Bool, true, false, not, ◌&&◌, Option, none, some, List, [], ◌∷◌, ◌++◌, leb,
  if◌then◌else◌,
}
use acr_framework.Errors.{AcrError, Result, ok, err}
use acr_framework.Exec.{Exec}
use acr_framework.Redis.{Redis, put, set_ex}
use acr_framework.Containment.KillSwitch.{KillState, ServiceConfig, Headers, kill_agent}

-- ContainmentTier, which is `no_tier` where the source says NONE.
pub data ContainmentTier : Type 0 where
  no_tier throttle restrict isolate kill : ContainmentTier

-- DRIFT_THRESHOLDS
pub threshold : ContainmentTier → ℕ
threshold no_tier = 0
threshold throttle = 6000
threshold restrict = 7500
threshold isolate = 9000
threshold kill = 9500

unfoldable pub tier_for_score : ℕ → ContainmentTier
unfolding threshold
tier_for_score score =
    if leb (threshold kill) score
    then kill
    else if leb (threshold isolate) score
    then isolate
    else if leb (threshold restrict) score
    then restrict
    else if leb (threshold throttle) score
    then throttle
    else no_tier

abbrev enforcement_ttl : ℕ
enforcement_ttl = 3600

-- The key that a tier writes; nothing for the other tiers.
write_key : ContainmentTier → ℕ → String → Redis → Redis
write_key throttle now a r = record r {
  throttle = put a (set_ex now enforcement_ttl 50) r.throttle;
}
write_key restrict now a r = record r {
  restrict = put a (set_ex now enforcement_ttl []) r.restrict;
}
write_key isolate now a r = record r { isolate = put a (set_ex now enforcement_ttl "1") r.isolate }
write_key _ now a r = r

-- `_enforce_tier_redis`: without a client, or when the write fails, the key is not written, and the
-- caller is not told.
pub enforce_tier_redis : Bool → Bool → ContainmentTier → ℕ → String → Redis → Redis
unfolding write_key
enforce_tier_redis connected write_fails tier now a r =
    if connected && not write_fails then write_key tier now a r else r

abbrev pub action_type : ContainmentTier → String
action_type no_tier = "none"
action_type throttle = "throttle"
action_type restrict = "restrict"
action_type isolate = "isolate"
action_type kill = "kill"

-- ContainmentAction, and the row of the containment_actions table with the same fields.
pub record ContainmentAction : Type 0 where
  pub agent_id : String
  pub tier : ContainmentTier
  pub action_type : String
  pub reason : String
  pub drift_score : ℕ
  pub correlation_id : Option String

-- The outside of one call: the clock, whether Redis and the kill switch service answer, the
-- credentials of the service, and the text of a reason (a formatted score).
pub record Surroundings : Type 0 where
  pub now : ℕ
  pub connected : Bool
  pub write_fails : Bool
  pub service_up : Bool
  pub service : ServiceConfig
  pub headers : Headers
  pub killed_at : String
  pub reason : ℕ → ContainmentTier → String

-- The rows of the session, and Redis.
pub record ContainmentState : Type 0 where
  pub rows : List ContainmentAction
  pub redis : Redis

pub action_for : Surroundings → ContainmentTier → String → ℕ → Option String → ContainmentAction
action_for env tier a score cid = record {
  agent_id = a;
  tier = tier;
  action_type = action_type tier;
  reason = env.reason score tier;
  drift_score = score;
  correlation_id = cid;
}

-- The outcome of the call of the kill switch: its error is raised after the row was added.
after_kill :
    ContainmentAction
    → List ContainmentAction
    → Result KillState × Redis
    → Result (Option ContainmentAction) × ContainmentState
after_kill action rows (ok s, r) = (ok (some action), record { rows = rows; redis = r })
after_kill action rows (err e, r) = (err e, record { rows = rows; redis = r })

-- Enforcement of a tier whose row is already added.
unfoldable pub enforce :
    Surroundings
    → ContainmentTier
    → ContainmentAction
    → Exec ContainmentState (Option ContainmentAction)
unfolding enforce_tier_redis after_kill
enforce env kill action s = after_kill action s.rows (
    kill_agent env.service_up env.service env.headers env.killed_at action.agent_id action.reason
      (some "acr-drift-detector") s.redis)
enforce env tier action s = (
  ok (some action),
  record s {
    redis = enforce_tier_redis env.connected env.write_fails tier env.now action.agent_id s.redis;
  },
)

abbrev pub is_none : ContainmentTier → Bool
is_none no_tier = true
is_none _ = false

unfoldable pub apply_graduated_response :
    Surroundings → String → ℕ → Option String → Exec ContainmentState (Option ContainmentAction)
apply_graduated_response env a score cid s =
    let tier = tier_for_score score in
    let action = action_for env tier a score cid in
    if is_none tier
    then (ok none, s)
    else enforce env tier action (record s { rows = s.rows ++ action ∷ [] })
