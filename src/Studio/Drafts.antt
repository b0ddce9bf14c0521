-- ===== src/Studio/Drafts.antt =====
-- policy_studio/service.py, and validate_policy_draft_record of releases.py.
use acr_framework.Prelude.{
  String, Bool, true, false, not, ◌||◌, Option, none, some, List, [], ◌∷◌, ◌++◌, ◌==◌, is_empty,
}
use acr_framework.Prelude.Table.{find, update}
use acr_framework.Prelude.Text.{includes, is_blank}
use acr_framework.Errors.{Result, ok, err, policy_draft_not_found, unexpected, ◌>>=◌}
use acr_framework.Json.{arr, str, Fields, get, truthy}

-- A row of policy_drafts, without its times.
pub record PolicyDraft : Type 0 where
  pub draft_id : String
  pub name : String
  pub agent_id : String
  pub template : String
  pub manifest : Fields
  pub rego_policy : String
  pub wizard_inputs : Fields
  pub created_by : Option String
  pub updated_by : Option String

-- PolicyDraftUpsertRequest
pub record UpsertRequest : Type 0 where
  pub name : String
  pub agent_id : String
  pub template : String
  pub manifest : Fields
  pub rego_policy : String
  pub wizard_inputs : Fields

abbrev pub draft_key : PolicyDraft → String
draft_key d = d.draft_id

unfoldable pub get_policy_draft : String → List PolicyDraft → Result PolicyDraft
get_policy_draft id rows = elim (find draft_key id rows) [
  | none ↦ err policy_draft_not_found
  | some d ↦ ok d
]

-- The identifier is a fresh one, and is unique in the table.
pub create_policy_draft :
    String → UpsertRequest → String → List PolicyDraft → Result (PolicyDraft × List PolicyDraft)
create_policy_draft id req actor rows =
    let d : PolicyDraft = record {
      draft_id = id;
      name = req.name;
      agent_id = req.agent_id;
      template = req.template;
      manifest = req.manifest;
      rego_policy = req.rego_policy;
      wizard_inputs = req.wizard_inputs;
      created_by = some actor;
      updated_by = some actor;
    } in
    elim (find draft_key id rows) [ some _ ↦ err unexpected | none ↦ ok (d, rows ++ d ∷ []) ]

abbrev pub rewritten : UpsertRequest → String → PolicyDraft → PolicyDraft
rewritten req actor d = record d {
  name = req.name;
  agent_id = req.agent_id;
  template = req.template;
  manifest = req.manifest;
  rego_policy = req.rego_policy;
  wizard_inputs = req.wizard_inputs;
  updated_by = some actor;
}

pub update_policy_draft :
    String → UpsertRequest → String → List PolicyDraft → Result (PolicyDraft × List PolicyDraft)
unfolding get_policy_draft
update_policy_draft id req actor rows = do
  d ← get_policy_draft id rows
  ok (rewritten req actor d, update draft_key id (rewritten req actor) rows)

-- PolicyValidationResponse; the draft is valid when there are no issues.
pub record Validation : Type 0 where
  pub issues : List String
  pub warnings : List String

-- `d.get(k)` is present and true.
abbrev pub is_given : String → Fields → Bool
is_given k d = elim (get k d) [ none ↦ false | some v ↦ truthy v ]

-- `isinstance(d.get(k), list)`, and not empty.
abbrev pub lists_some : String → Fields → Bool
lists_some k d = elim (get k d) [ some (arr xs) ↦ truthy (arr xs) | _ ↦ false ]

-- `d.get(k) == text`
abbrev is_text : String → String → Fields → Bool
is_text k t d = elim (get k d) [ some (str s) ↦ s == t | _ ↦ false ]

-- `if not test: issues.append(text)`
abbrev unless : Bool → String → List String
unless true t = []
unless false t = t ∷ []

unfoldable pub issues_of : PolicyDraft → List String
unfolding get truthy
issues_of d =
    unless (is_given "agent_id" d.manifest) "Manifest is missing agent_id"
    ++ (unless (is_given "purpose" d.manifest) "Manifest is missing purpose"
        ++ (unless (lists_some "allowed_tools" d.manifest)
              "Manifest must include at least one allowed tool"
            ++ (unless (not (is_blank d.rego_policy)) "Rego policy cannot be empty"
                ++ unless (includes "package acr" d.rego_policy)
                    "Rego policy must declare 'package acr'")))

warnings_of : PolicyDraft → List String
warnings_of d =
    unless (not (is_given "escalate_tool" d.wizard_inputs) || includes "escalate" d.rego_policy)
      "Wizard defines an escalation tool but generated policy does not include an escalate rule"
    ++ unless (not (is_text "risk_tier" "high" d.manifest))
        "High-risk agent: require approval before enabling in production"

unfoldable pub validate_policy_draft_record : PolicyDraft → Validation
unfolding issues_of warnings_of
validate_policy_draft_record d = record { issues = issues_of d; warnings = warnings_of d }

abbrev pub is_valid : Validation → Bool
is_valid v = is_empty v.issues
