-- ===== src/Tests/Identity.antt =====
-- Agents in a table, their history and their lineage.
use acr_framework.Prelude.{
  ℕ, ◌≡◌, refl, ◌↔◌, true, none, some, List, [], ◌∷◌, where_rows, contains, false,
}
use acr_framework.Prelude.Table.{find}
use acr_framework.Errors.{ok}
use acr_framework.Identity.Models.{AgentRecord, active, deprecated, retired}
use acr_framework.Identity.Registry.{
  AgentTable, agent_key, is_active_state, is_child_of, get_lineage,
}
use acr_framework.Identity.Registry.History.{Call, transition, deregister, run_all, retired_forever}
use acr_framework.Identity.Registry.Invariant.{IsWellFormed, run_all-IsWellFormed}
use acr_framework.Identity.Registry.Lineage.{IsLineage, get_lineage_lem}
use acr_framework.Identity.Validator.{validate_agent_identity, validate_iff}
use acr_framework.Tests.Fixtures.{agent}

abbrev root : AgentRecord
root = agent "root" none active

abbrev child : AgentRecord
child = agent "bot" (some "root") deprecated

abbrev gone : AgentRecord
gone = record (agent "old" none retired) { is_active = false }

abbrev family : AgentTable
family = root ∷ child ∷ gone ∷ []

abbrev calls : List (ℕ × Call)
calls = (10, transition "old" active) ∷ (20, deregister "bot") ∷ []

retired_forever_example :
    (r' : AgentRecord) × (find agent_key "old" (run_all calls family) ≡ some r')
    × (r'.lifecycle_state ≡ retired)
unfolding find
retired_forever_example = retired_forever calls family "old" gone refl refl

family-IsWellFormed : IsWellFormed family
unfolding contains
family-IsWellFormed = record {
  synced = (refl, (refl, (refl, tt)));
  unique = (refl, (refl, (refl, tt)));
}

run_all-IsWellFormed_example : IsWellFormed (run_all calls family)
run_all-IsWellFormed_example = run_all-IsWellFormed calls family family-IsWellFormed

get_lineage_lem_example :
    (out : List AgentRecord) × (get_lineage family "bot"
      ≡ ok (out, where_rows (is_child_of "bot") family))
    × IsLineage family child 33 out
unfolding find
get_lineage_lem_example = get_lineage_lem family "bot" child refl

validate_iff_example : (validate_agent_identity family "bot" ≡ ok child) ↔ (
    (find agent_key "bot" family ≡ some child)
    × (child.is_active ≡ true)
    × (is_active_state child.lifecycle_state ≡ true))
validate_iff_example = validate_iff family "bot" child
