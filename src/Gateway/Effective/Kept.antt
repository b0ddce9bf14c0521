-- ===== src/Gateway/Effective/Kept.antt =====
-- What the modification of an action and the output filter leave as it was.
use mathlib.Core.Path.{subst}
use acr_framework.Prelude.{
  String, ◌≡◌, refl, inl, inr, true, false, Option, none, some, List, arith, ◌==◌, str_iff,
  Bool-cases,
}
use acr_framework.Json.{Json, str, Fields, get, set, merge}
use acr_framework.Json.Dict.{IsDict, or_else, get-set, get-merge}
use acr_framework.Policy.Filter.{PiiType}
use acr_framework.Policy.Engine.{Decision, allow, deny, modify, escalate, PolicyEvaluationResult}
use acr_framework.Policy.Engine.Verdict.{Permits}
use acr_framework.Gateway.Models.{EvaluateRequest, is_allowed, dump_action}
use acr_framework.Gateway.Effective.{
  same_tool, transformed_by, with_parameters, description_of, set_default, effective_action,
  response_verdict,
}

-- The filter never turns a refusal into a permission.
pub verdict-Permits :
    (v : PolicyEvaluationResult) (types : List PiiType)
    → is_allowed (response_verdict v types).decision ≡ true
    → Permits v
unfolding response_verdict
verdict-Permits v types h = ground arith

same_tool_keeps :
    (tool : String) (o : Option Json)
    → same_tool tool o ≡ true
    → or_else o (some (str tool)) ≡ some (str tool)
unfolding same_tool
same_tool_keeps tool none h = refl
same_tool_keeps tool (some (str t)) h = ground (arith, str_iff t tool)
same_tool_keeps tool (some _) h = ground arith

get-set_default :
    (j k : String) (v : Json) (d : Fields) → (j == k) ≡ false → get k (set_default j v d) ≡ get k d
unfolding set_default
get-set_default j k v d h = ground (arith, get-set j k v d)

transformed_by_tool :
    (req : EvaluateRequest) (m action : Fields)
    → IsDict m
    → transformed_by req m ≡ some action
    → get "tool_name" action ≡ some (str req.tool_name)
unfolding transformed_by get set
transformed_by_tool req m action d e =
    elim (Bool-cases (same_tool req.tool_name (get "tool_name" m))) [
      | inl h ↦ ground (
        arith,
        same_tool_keeps req.tool_name (get "tool_name" m) h,
        get-merge "tool_name" (dump_action req) m d,
        get-set_default "description" "tool_name" (description_of req) (merge (dump_action req) m)
            refl,
      )
      | inr h ↦ ground arith
    ]

with_parameters_tool :
    (req : EvaluateRequest) (p : Option Fields)
    → get "tool_name" (with_parameters req p) ≡ some (str req.tool_name)
unfolding with_parameters get set
with_parameters_tool req none = refl
with_parameters_tool req (some p) = refl

abbrev pub IsPayload : Option Fields → Type 0
IsPayload none = Unit
IsPayload (some m) = IsDict m

-- The action that goes on to the output filter has the tool of the request, whatever the policy
-- engine asked to modify; the payload of a modification is a dictionary.
pub effective_action_tool :
    (req : EvaluateRequest) (v : PolicyEvaluationResult) (action : Fields)
    → IsPayload v.modified_action
    → effective_action req v ≡ some action
    → get "tool_name" action ≡ some (str req.tool_name)
unfolding effective_action get set
effective_action_tool req v action h e = go v.final_decision v.modified_action refl refl
  where
    go :
        (d : Decision) (o : Option Fields)
        → v.final_decision ≡ d
        → v.modified_action ≡ o
        → get "tool_name" action ≡ some (str req.tool_name)
    go modify (some m) x y = transformed_by_tool req m action (subst IsPayload y h) cc
    go modify none x y = ground (arith, with_parameters_tool req v.modified_parameters)
    go allow o x y = ground arith
    go deny o x y = ground arith
    go escalate o x y = ground arith
