-- ===== src/Tests/Policy.antt =====
-- The policy engine's client and the output filter on concrete answers.
use acr_framework.Prelude.{
  zero, suc, where_rows, ℕ, ◌≡◌, refl, ◌↔◌, ◌<◌, ◌⊎◌, inl, none, some, [], ◌∷◌, arith,
}
use acr_framework.Errors.{ok, err, policy_engine}
use acr_framework.Json.{str, end, field, truthy}
use acr_framework.Policy.Filter.{filter_parameters}
use acr_framework.Policy.Filter.Unchanged.{filter_unreported}
use acr_framework.Policy.Engine.{
  allow, modify, Reply, request_error, response, attempt_of, call_opa, judge, opa_input, result_of,
  evaluate_policy,
}
use acr_framework.Policy.Engine.Retry.{AllRetried, Ends, call_opa_lem, client_error_retried}
use acr_framework.Policy.Engine.Verdict.{
  IsAllowed, IsModified, judge_permits, IsBacked, evaluate_policy_secure,
}
use acr_framework.Tests.Fixtures.{allowing, closed, patterns, services, request}

judge_permits_example :
    (((judge allowing).final ≡ allow) ↔ IsAllowed allowing)
    × (((judge allowing).final ≡ modify) ↔ IsModified allowing)
judge_permits_example = judge_permits allowing

evaluate_policy_secure_example : IsBacked closed (services.post (opa_input end end end))
unfolding evaluate_policy truthy
evaluate_policy_secure_example =
    evaluate_policy_secure closed services.post end end end (result_of (some allowing)) refl
      (inl refl)

-- A service that is busy twice.
abbrev busy : ℕ → Reply
busy zero = response 503 none
busy (suc zero) = request_error
busy _ = response 200 (some allowing)

call_opa_lem_example :
    ((n : ℕ) × (n < 3) × AllRetried busy n × Ends busy n)
    ⊎ (AllRetried busy 3 × (call_opa busy ≡ (err policy_engine, 50 ∷ 100 ∷ [])))
call_opa_lem_example = call_opa_lem busy

abbrev refusing : ℕ → Reply
refusing zero = response 404 none
refusing _ = response 200 (some allowing)

client_error_retried_example : call_opa refusing ≡ (ok (some allowing), 50 ∷ [])
unfolding attempt_of
client_error_retried_example =
    client_error_retried refusing 404 none (some allowing) (omega arith) (omega arith) refl refl

filter_unreported_example :
    (filter_parameters patterns request.parameters).0 ≡ field "sql" (str "select 1") end
unfolding filter_parameters where_rows
filter_unreported_example = filter_unreported patterns request.parameters refl
