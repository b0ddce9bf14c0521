-- ===== src/Gateway/Effective.antt =====
-- gateway/router.py: the action that remains of the requested one, after the policy engine's
-- modification and the output filter.
pub mod Kept
use Prim.Native.String.{◌++◌ as join_text}
use acr_framework.Prelude.{
  String, Bool, true, false, not, ◌&&◌, Option, none, some, List, [], ◌∷◌, ◌++◌, ◌==◌,
  if◌then◌else◌, is_some,
}
use acr_framework.Errors.{Result, ok, err, unexpected}
use acr_framework.Json.{
  Json, null, bool, int, float, str, arr, obj, Fields, end, field, get, set, merge, truthy,
}
use acr_framework.Policy.Filter.{PiiType, ssn, credit_card, email, phone, was_modified}
use acr_framework.Policy.Engine.{
  Decision, allow, deny, modify, escalate, PolicyDecision, PolicyEvaluationResult,
}
use acr_framework.Gateway.Models.{EvaluateRequest, dump_action}

-- `candidate_tool_name == req.action.tool_name`
same_tool : String → Option Json → Bool
same_tool tool none = true
same_tool tool (some (str t)) = t == tool
same_tool tool (some _) = false

-- `d.setdefault(k, v)`
set_default : String → Json → Fields → Fields
set_default k v d = if is_some (get k d) then d else set k v d

abbrev description_of : EvaluateRequest → Json
description_of req = elim req.description [ none ↦ null | some s ↦ str s ]

-- The payload of a modification replaces fields of the action, the name of its tool excepted.
transformed_by : EvaluateRequest → Fields → Option Fields
unfolding same_tool set_default
transformed_by req m =
    if same_tool req.tool_name (get "tool_name" m)
    then some (set_default "description" (description_of req) (merge (dump_action req) m))
    else none

with_parameters : EvaluateRequest → Option Fields → Fields
with_parameters req none = dump_action req
with_parameters req (some p) = set "parameters" (obj p) (dump_action req)

-- Step [5] up to the filter; `none` is the answer INVALID_MODIFY_DECISION.
unfoldable pub effective_action : EvaluateRequest → PolicyEvaluationResult → Option Fields
unfolding transformed_by with_parameters
effective_action req v = elim v.final_decision [
  | modify ↦ elim v.modified_action [
    | some m ↦ transformed_by req m
    | none ↦ some (with_parameters req v.modified_parameters)
  ]
  | _ ↦ some (dump_action req)
]

as_dict : Json → Result Fields
as_dict (obj d) = ok d
as_dict _ = err unexpected

-- `effective_action.get("parameters") or {}`, which the filter iterates over as a dictionary.
pub parameters_of : Fields → Result Fields
unfolding as_dict
parameters_of action = elim (get "parameters" action) [
  | none ↦ ok end
  | some v ↦ if truthy v then as_dict v else ok end
]

-- `effective_action["tool_name"]`
pub tool_of : Fields → String
tool_of action = elim (get "tool_name" action) [ some (str t) ↦ t | _ ↦ "" ]

abbrev type_name : PiiType → String
type_name ssn = "ssn"
type_name credit_card = "credit_card"
type_name email = "email"
type_name phone = "phone"

join_names : List PiiType → String
join_names [] = ""
join_names (t ∷ []) = type_name t
join_names (t ∷ ts) = join_text (type_name t) (join_text ", " (join_names ts))

-- `_filter_reason`
pub filter_reason : List PiiType → Option String
unfolding join_names
filter_reason types =
    if was_modified types
    then some (
        join_text "Sensitive fields were redacted by output controls ("
          (join_text (join_names types) ")"))
    else none

-- The decision of the response, its reason and its list of decisions.
pub record Verdict : Type 0 where
  pub decision : Decision
  pub reason : Option String
  pub decisions : List PolicyDecision

abbrev or_text : Option String → String → Option String
or_text none s = some s
or_text (some t) s = some t

abbrev is_blank : Option String → Bool
is_blank none = true
is_blank (some s) = s == ""

pub response_verdict : PolicyEvaluationResult → List PiiType → Verdict
unfolding filter_reason
response_verdict v types = elim v.final_decision [
  | allow ↦
      if was_modified types
      then record {
        decision = modify;
        reason = filter_reason types;
        decisions =
            v.decisions
            ++ record {
              policy_id = "acr-output-modify";
              decision = modify;
              reason = filter_reason types;
            }
              ∷ [];
      }
      else record { decision = allow; reason = v.reason; decisions = v.decisions }
  | modify ↦ record {
    decision = modify;
    reason =
        if is_blank v.reason
        then or_text (filter_reason types) "Action transformed by runtime policy"
        else v.reason;
    decisions = v.decisions;
  }
  | d ↦ record { decision = d; reason = v.reason; decisions = v.decisions }
]
