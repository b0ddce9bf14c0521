-- ===== src/Gateway/Evaluate/Figures.antt =====
-- The context that the policy engine is shown.
use acr_framework.Prelude.{
  ℕ, String, ◌≡◌, refl, false, some, none, if◌then◌else◌, arith, ◌==◌, str_iff,
}
use acr_framework.Prelude.Int.{ℤ, pos}
use acr_framework.Json.{int, float, Fields, end, field, get, set}
use acr_framework.Json.Dict.{IsDict, or_else, get-set, get-merge, set-IsDict}
use acr_framework.Policy.Engine.{safe_context}
use acr_framework.Gateway.Evaluate.{enriched_context}

enriched-IsDict :
    (context : Fields) (count : ℕ) (projected : ℤ)
    → IsDict context
    → IsDict (enriched_context context count projected)
unfolding enriched_context
enriched-IsDict context count projected h =
    set-IsDict "hourly_spend_usd" (float projected)
      (set "actions_this_minute" (int (pos count)) context)
      (set-IsDict "actions_this_minute" (int (pos count)) context h)

abbrev defaults : Fields
defaults = field "actions_this_minute" (int (pos 0)) (field "hourly_spend_usd" (float (pos 0)) end)

shown :
    (context : Fields) (count : ℕ) (projected : ℤ) (k : String)
    → IsDict context
    → get k (safe_context (enriched_context context count projected))
      ≡ or_else
          (if "hourly_spend_usd" == k
            then some (float projected)
            else if "actions_this_minute" == k
            then some (int (pos count))
            else get k context)
          (get k defaults)
unfolding safe_context enriched_context
shown context count projected k h =
    rw
      (
        get-merge k defaults (enriched_context context count projected)
            (enriched-IsDict context count projected h),
        get-set "hourly_spend_usd" k (float projected)
            (set "actions_this_minute" (int (pos count)) context),
        get-set "actions_this_minute" k (int (pos count)) context,
      )
      refl

no_default :
    (k : String)
    → (k == "actions_this_minute") ≡ false
    → (k == "hourly_spend_usd") ≡ false
    → get k defaults ≡ none
unfolding get
no_default k a b = ground (
  arith,
  str_iff k "actions_this_minute",
  str_iff k "hourly_spend_usd",
  str_iff "actions_this_minute" k,
  str_iff "hourly_spend_usd" k,
)

-- An agent cannot report its own figures: whatever its context holds, the policy engine is shown the
-- count and the spend of the server. Every other entry of the context is passed on.
pub server_figures :
    (context : Fields) (count : ℕ) (projected : ℤ)
    → IsDict context
    → (get "actions_this_minute" (safe_context (enriched_context context count projected))
        ≡ some (int (pos count)))
      × (get "hourly_spend_usd" (safe_context (enriched_context context count projected))
          ≡ some (float projected))
      × ((k : String)
          → (k == "actions_this_minute") ≡ false
          → (k == "hourly_spend_usd") ≡ false
          → get k (safe_context (enriched_context context count projected)) ≡ get k context)
server_figures context count projected h = (
  shown context count projected "actions_this_minute" h,
  shown context count projected "hourly_spend_usd" h,
  λ k a b. ground (
    arith,
    shown context count projected k h,
    no_default k a b,
    str_iff k "actions_this_minute",
    str_iff k "hourly_spend_usd",
    str_iff "actions_this_minute" k,
    str_iff "hourly_spend_usd" k,
  ),
)
