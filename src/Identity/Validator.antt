-- ===== src/Identity/Validator.antt =====
-- pillar1_identity/validator.py: may an agent act?
use acr_framework.Prelude.{String, ◌≡◌, ◌↔◌, true, not, some, arith, if◌then◌else◌}
use acr_framework.Prelude.Table.{find}
use acr_framework.Errors.{
  AcrError, Result, ok, err, agent_not_found, agent_not_registered, agent_lifecycle,
}
use acr_framework.Identity.Models.{AgentRecord}
use acr_framework.Identity.Registry.{AgentTable, agent_key, is_active_state, get_agent}

-- The two checks on a row that was found.
check_row : AgentRecord → Result AgentRecord
check_row r =
    if not r.is_active
    then err agent_not_registered
    else if is_active_state r.lifecycle_state
    then ok r
    else err agent_lifecycle

-- `except AgentNotFoundError`
unknown_agent : AcrError → AcrError
unknown_agent agent_not_found = agent_not_registered
unknown_agent e = e

pub validate_agent_identity : AgentTable → String → Result AgentRecord
unfolding check_row unknown_agent get_agent
validate_agent_identity db agent_id = elim (get_agent db agent_id) [
  | ok r ↦ check_row r
  | err e ↦ err (unknown_agent e)
]

-- Validation returns a row exactly when it is the agent's row, is marked active, and is in one of
-- the two lifecycle states that may act.
pub validate_iff :
    (db : AgentTable) (a : String) (r : AgentRecord)
    → (validate_agent_identity db a ≡ ok r) ↔ (
        (find agent_key a db ≡ some r)
        × (r.is_active ≡ true)
        × (is_active_state r.lifecycle_state ≡ true))
unfolding validate_agent_identity
validate_iff db a r = ground arith
