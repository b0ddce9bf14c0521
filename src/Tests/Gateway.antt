-- ===== src/Tests/Gateway.antt =====
-- The gateway on a request of one agent.
use acr_framework.Prelude.{String, ◌≡◌, refl, ◌⊎◌, ◌==◌, ◌++◌, false, none, some, [], ◌∷◌, arith}
use acr_framework.Prelude.Int.{pos}
use acr_framework.Errors.{ok, err, downstream_execution}
use acr_framework.Json.{null, obj, set, merge, int, float, str, Fields, end, field, get}
use acr_framework.Policy.Engine.{safe_context, PolicyEvaluationResult, modify}
use acr_framework.Gateway.Models.{is_allowed}
use acr_framework.Gateway.Outside.{Outside}
use acr_framework.Gateway.Gates.{get_rate_count}
use acr_framework.Gateway.Gates.Counter.{IsCounted, InOneMinute, counts, numbered, counted_in_order}
use acr_framework.Gateway.Effective.{effective_action}
use acr_framework.Gateway.Effective.Kept.{effective_action_tool}
use acr_framework.Gateway.Spend.Ledger.{Nets}
use acr_framework.Gateway.Evaluate.{evaluate, enriched_context, charge_and_execute}
use acr_framework.Gateway.Evaluate.Secure.{IsAuthorized, evaluate_secure}
use acr_framework.Gateway.Evaluate.Figures.{server_figures}
use acr_framework.Gateway.Evaluate.Refund.{failed_execution_refunded}
use acr_framework.Tests.Fixtures.{
  settings, outside, services, request, world, execution, empty_redis,
}

evaluate_secure_example :
    ((is_allowed (evaluate settings outside services "bot" request world).0.decision ≡ false)
      × ((evaluate settings outside services "bot" request world).1.executions ≡ [])
      × ((evaluate settings outside services "bot" request world).1.redis.spend
          ≡ world.redis.spend))
    ⊎ IsAuthorized settings outside services "bot" request world
evaluate_secure_example = evaluate_secure settings outside services "bot" request world

-- A context in which the agent reports a count of its own.
abbrev boasting : Fields
boasting = field "actions_this_minute" (int (pos 0)) (field "region" (str "eu") end)

server_figures_example :
    (get "actions_this_minute" (safe_context (enriched_context boasting 31 (pos 400000)))
      ≡ some (int (pos 31)))
    × (get "hourly_spend_usd" (safe_context (enriched_context boasting 31 (pos 400000)))
        ≡ some (float (pos 400000)))
    × ((k : String)
        → (k == "actions_this_minute") ≡ false
        → (k == "hourly_spend_usd") ≡ false
        → get k (safe_context (enriched_context boasting 31 (pos 400000))) ≡ get k boasting)
server_figures_example = server_figures boasting 31 (pos 400000) (refl, (refl, tt))

failed_execution_refunded_example :
    ((charge_and_execute settings outside services "bot" (pos 250000) execution world).0
      ≡ err downstream_execution)
    × ((charge_and_execute settings outside services "bot"
          (pos 250000)
          execution
          world).1.executions
        ≡ [] ++ execution ∷ [])
    × Nets 7205 7205 "bot"
        (pos 250000)
        empty_redis
        (charge_and_execute settings outside services "bot" (pos 250000) execution world).1.redis
failed_execution_refunded_example =
    failed_execution_refunded settings outside services "bot" (pos 250000) execution world
      downstream_execution refl refl refl refl (omega arith) (omega arith) refl

-- An answer that moves the request to a smaller query.
abbrev smaller : PolicyEvaluationResult
smaller = record {
  final_decision = modify;
  decisions = [];
  reason = none;
  approval_queue = none;
  sla_minutes = none;
  modified_action = some (field "limit" (int (pos 10)) end);
  modified_parameters = none;
}

abbrev smaller_action : Fields
smaller_action = field "tool_name" (str "query_db") (
    field "parameters" (obj request.parameters)
      (field "description" null (field "limit" (int (pos 10)) end)))

effective_action_tool_example : get "tool_name" smaller_action ≡ some (str "query_db")
unfolding effective_action get set merge
effective_action_tool_example = effective_action_tool request smaller smaller_action (refl, tt) refl

abbrev seconds_later : Outside
seconds_later = record outside { clock = λ s. 7219 }

counted_in_order_example :
    counts settings "bot" (outside ∷ outside ∷ seconds_later ∷ []) empty_redis
    ≡ ok 1 ∷ ok 2 ∷ ok 3 ∷ []
unfolding get_rate_count numbered IsCounted InOneMinute
counted_in_order_example =
    counted_in_order settings "bot" outside (outside ∷ seconds_later ∷ []) empty_redis 1
      (refl, refl) (((refl, refl), omega arith, refl, ((refl, refl), omega arith, refl, tt))) refl
