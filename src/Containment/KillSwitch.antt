-- ===== src/Containment/KillSwitch.antt =====
-- The kill switch: the independent service (pillar5_containment/service.py), the client of the gateway
-- (pillar5_containment/killswitch.py), and the gateway's read of the switch.
pub mod Switch
use acr_framework.Prelude.{
  ℕ, String, Bool, true, false, not, ◌&&◌, ◌||◌, Option, none, some, List, [], ◌∷◌, ◌==◌,
  if◌then◌else◌, contains, is_empty, map,
}
use acr_framework.Errors.{Result, ok, err, http, kill_switch, unexpected, same_digest, guard}
use acr_framework.Exec.{Exec, lift, gets, modify_state, ◌>>=◌, ◌>>◌}
use acr_framework.Redis.{Redis, KillEntry, put}

pub record KillState : Type 0 where
  pub agent_id : String
  pub is_killed : Bool
  pub reason : Option String
  pub killed_at : Option String
  pub killed_by : Option String

pub record Identity : Type 0 where
  pub subject : String
  pub roles : List String

-- The configuration of the service: KILLSWITCH_SECRET and the decoded OPERATOR_API_KEYS_JSON; and
-- whether Redis answers its command.
pub record ServiceConfig : Type 0 where
  pub secret : String
  pub operators : List (String × Identity)
  pub redis_up : Bool

-- The two headers of a request.
pub record Headers : Type 0 where
  pub secret : Option String
  pub operator_key : Option String

-- `compare_digest` raises on a text that is not ASCII.
pub require_secret : ServiceConfig → Headers → Result (Unit {0})
require_secret c h = elim h.secret [
  | none ↦ err (http 401)
  | some s ↦ if s == "" then err (http 401) else elim (same_digest s c.secret) [
    | err e ↦ err e
    | ok same ↦ if same then ok tt else err (http 401)
  ]
]

intersects : List String → List String → Bool
intersects [] ys = false
intersects (x ∷ xs) ys = contains x ys || intersects xs ys

-- The loop over the identities: the first key that fits decides.
match_operator : String → List String → List (String × Identity) → Result String
match_operator key required [] = err (http 401)
match_operator key required ((expected, identity) ∷ rest) =
    let later = match_operator key required rest in
    elim (same_digest key expected) [
      | err e ↦ err e
      | ok same ↦
          if same
          then (if not (is_empty required) && not (intersects identity.roles required)
              then err (http 403)
              else ok (if identity.subject == "" then "operator" else identity.subject))
          else later
    ]

pub require_operator : ServiceConfig → Headers → List String → Result String
unfolding match_operator intersects
require_operator c h required = elim h.operator_key [
  | none ↦ err (http 401)
  | some key ↦ if key == "" then err (http 401) else match_operator key required c.operators
]

abbrev pub writer_roles : List String
writer_roles = "security_admin" ∷ "killswitch_operator" ∷ []

abbrev reader_roles : List String
reader_roles = "security_admin" ∷ "killswitch_operator" ∷ "auditor" ∷ []

-- `operator_id or operator_subject`
abbrev pub named_or : Option String → String → String
named_or none s = s
named_or (some o) s = if o == "" then s else o

abbrev pub entry_of : String → String → String → KillEntry
entry_of reason killed_at killed_by = record {
  is_killed = "1";
  reason = reason;
  killed_at = killed_at;
  killed_by = killed_by;
}

abbrev pub killed_state : String → String → String → String → KillState
killed_state agent_id reason killed_at killed_by = record {
  agent_id = agent_id;
  is_killed = true;
  reason = some reason;
  killed_at = some killed_at;
  killed_by = some killed_by;
}

-- The command of a handler, of a client that is there and gets an answer.
redis_client : ServiceConfig → Result (Unit {0})
redis_client c = guard c.redis_up unexpected

-- POST /acr/kill of the service.
pub service_kill :
    ServiceConfig → Headers → String → String → String → Option String → Exec Redis KillState
unfolding redis_client
service_kill c h killed_at agent_id reason operator_id = do
  lift (require_secret c h)
  subject ← lift (require_operator c h writer_roles)
  lift (redis_client c)
  modify_state
      (λ r. record r {
        kill =
            put agent_id (some (entry_of reason killed_at (named_or operator_id subject))) r.kill;
      })
      (killed_state agent_id reason killed_at (named_or operator_id subject))

abbrev pub alive : String → KillState
alive agent_id = record {
  agent_id = agent_id;
  is_killed = false;
  reason = none;
  killed_at = none;
  killed_by = none;
}

-- POST /acr/kill/restore of the service.
pub service_restore : ServiceConfig → Headers → String → Exec Redis KillState
unfolding redis_client
service_restore c h agent_id = do
  lift (require_secret c h)
  lift (require_operator c h writer_roles)
  lift (redis_client c)
  modify_state (λ r. record r { kill = put agent_id none r.kill }) (alive agent_id)

state_of : String → Option KillEntry → KillState
state_of agent_id none = alive agent_id
state_of agent_id (some e) = record {
  agent_id = agent_id;
  is_killed = e.is_killed == "1";
  reason = some e.reason;
  killed_at = some e.killed_at;
  killed_by = some e.killed_by;
}

-- GET /acr/kill/status/{agent_id} of the service.
pub service_status : ServiceConfig → Headers → String → Exec Redis KillState
unfolding state_of redis_client
service_status c h agent_id = do
  lift (require_secret c h)
  lift (require_operator c h reader_roles)
  lift (redis_client c)
  gets (λ r. state_of agent_id (r.kill agent_id))

abbrev pub flag_set : Option KillEntry → Bool
flag_set none = false
flag_set (some e) = e.is_killed == "1"

-- `is_agent_killed`: no client, or a read that fails, is an error and never "not killed".
pub is_agent_killed : Bool → Bool → String → Redis → Result Bool
is_agent_killed connected read_fails agent_id r =
    if connected && not read_fails then ok (flag_set (r.kill agent_id)) else err kill_switch

-- The error handling of the client: an HTTP error and an unreachable service are KillSwitchError.
client_result : Result KillState → Result KillState
client_result (ok s) = ok s
client_result (err e) = err kill_switch

-- `kill_agent` of the client, with the service behind it.
pub kill_agent :
    Bool → ServiceConfig → Headers → String → String → String → Option String → Exec Redis KillState
unfolding service_kill client_result
kill_agent reachable c h killed_at agent_id reason operator_id r =
    if reachable
    then (let (res, r') = service_kill c h killed_at agent_id reason operator_id r in
        (client_result res, r'))
    else (err kill_switch, r)

-- `restore_agent` of the client, with the service behind it.
pub restore_agent : Bool → ServiceConfig → Headers → String → Exec Redis KillState
unfolding service_restore client_result
restore_agent reachable c h agent_id r =
    if reachable
    then (let (res, r') = service_restore c h agent_id r in (client_result res, r'))
    else (err kill_switch, r)

-- GET /acr/kill/status of the service; `keys` are the agents that KEYS finds, in its order.
pub service_list : ServiceConfig → Headers → List String → Exec Redis (List KillState)
unfolding state_of redis_client
service_list c h keys = do
  lift (require_secret c h)
  lift (require_operator c h reader_roles)
  lift (redis_client c)
  gets (λ r. map (λ a. state_of a (r.kill a)) keys)

-- `get_kill_status` of the client, with the service behind it.
pub get_kill_status : Bool → ServiceConfig → Headers → String → Exec Redis KillState
unfolding service_status client_result
get_kill_status reachable c h agent_id r =
    if reachable
    then (let (res, r') = service_status c h agent_id r in (client_result res, r'))
    else (err kill_switch, r)

listed : Result (List KillState) → Result (List KillState)
listed (ok states) = ok states
listed (err e) = err kill_switch

-- `list_kill_status` of the client, with the service behind it.
pub list_kill_status : Bool → ServiceConfig → Headers → List String → Exec Redis (List KillState)
unfolding service_list listed
list_kill_status reachable c h keys r =
    if reachable
    then (let (res, r') = service_list c h keys r in (listed res, r'))
    else (err kill_switch, r)
