-- ===== src/Authority/Tiering.antt =====
-- pillar6_authority/tiering.py: the risk of an action, where the policy engine gives none.
use acr_framework.Prelude.{
  ℕ, String, Bool, true, false, List, [], ◌∷◌, ◌==◌, contains, if◌then◌else◌,
}

pub data RiskTier : Type 0 where
  low medium high : RiskTier

pub record TierResult : Type 0 where
  pub tier : RiskTier
  pub approval_queue : String
  pub sla_minutes : ℕ
  pub auto_approve : Bool

-- HIGH_RISK_TOOLS
abbrev high_risk_tools : List String
high_risk_tools =
    "delete_customer" ∷ "delete_record" ∷ "issue_refund" ∷ "modify_billing" ∷ "send_bulk_email"
    ∷ "drop_table" ∷ "execute_sql" ∷ []

-- MEDIUM_RISK_TOOLS
abbrev medium_risk_tools : List String
medium_risk_tools = "create_ticket" ∷ "update_customer" ∷ "send_email" ∷ "create_record" ∷ []

abbrev low_risk : TierResult
low_risk = record { tier = low; approval_queue = "default"; sla_minutes = 0; auto_approve = true }

-- The parameters of the action are not looked at.
pub classify_action : String → String → TierResult
classify_action tool_name agent_risk_tier =
    if contains tool_name high_risk_tools
    then record {
      tier = high;
      approval_queue = "high-risk-approvals";
      sla_minutes = 240;
      auto_approve = false;
    }
    else if contains tool_name medium_risk_tools
    then if agent_risk_tier == "high"
      then record {
        tier = medium;
        approval_queue = "medium-risk-approvals";
        sla_minutes = 60;
        auto_approve = false;
      }
      else low_risk
    else low_risk
