-- ===== src/Identity/Dump.antt =====
-- `AgentManifest.model_dump()`: the document about the agent that the policy engine gets.
use acr_framework.Prelude.{String, none, some, List, [], ◌∷◌}
use acr_framework.Prelude.Int.{ℤ}
use acr_framework.Json.{null, int, float, str, arr, obj, Items, nil, item, Fields, end, field}
use acr_framework.Identity.Models.{
  RiskTier, low, medium, high, Permission, read, read_write, write, nothing, DataAccessEntry,
  AgentBoundaries, AgentManifest,
}

abbrev tier_name : RiskTier → String
tier_name low = "low"
tier_name medium = "medium"
tier_name high = "high"

abbrev permission_name : Permission → String
permission_name read = "READ"
permission_name read_write = "READ_WRITE"
permission_name write = "WRITE"
permission_name nothing = "NONE"

dump_texts : List String → Items
dump_texts [] = nil
dump_texts (s ∷ ss) = item (str s) (dump_texts ss)

dump_entries : List DataAccessEntry → Items
dump_entries [] = nil
dump_entries (e ∷ es) =
    item
      (obj (
        field "resource" (str e.resource)
          (field "permission" (str (permission_name e.permission)) end)))
      (dump_entries es)

dump_costs : List (String × ℤ) → Fields
dump_costs [] = end
dump_costs ((t, c) ∷ cs) = field t (float c) (dump_costs cs)

dump_boundaries : AgentBoundaries → Fields
unfolding dump_costs dump_texts
dump_boundaries b = field "max_actions_per_minute" (int b.max_actions_per_minute) (
    field "max_cost_per_hour_usd" (float b.max_cost_per_hour_usd) (
      field "default_action_cost_usd"
        (elim b.default_action_cost_usd [ none ↦ null | some c ↦ float c ])
        (field "tool_costs_usd" (obj (dump_costs b.tool_costs_usd)) (
          field "allowed_regions" (arr (dump_texts b.allowed_regions))
            (field "credential_rotation_days" (int b.credential_rotation_days) end)))))

pub dump_manifest : AgentManifest → Fields
unfolding dump_texts dump_entries dump_boundaries
dump_manifest m = field "agent_id" (str m.agent_id) (
    field "owner" (str m.owner) (
      field "purpose" (str m.purpose) (
        field "risk_tier" (str (tier_name m.risk_tier)) (
          field "allowed_tools" (arr (dump_texts m.allowed_tools)) (
            field "forbidden_tools" (arr (dump_texts m.forbidden_tools)) (
              field "data_access" (arr (dump_entries m.data_access)) (
                field "boundaries" (obj (dump_boundaries m.boundaries)) (
                  field "version" (str m.version) (
                    field "parent_agent_id"
                      (elim m.parent_agent_id [ none ↦ null | some p ↦ str p ])
                      (field "capabilities" (arr (dump_texts m.capabilities)) end))))))))))
