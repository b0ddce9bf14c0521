-- ===== src/Gateway/Evaluate/Called.antt =====
-- An execution that succeeds.
use acr_framework.Prelude.{String, ◌≡◌, sym, ap, [], ◌∷◌, ◌++◌}
use acr_framework.Prelude.Int.{ℤ, pos, ◌-ℤ◌}
use acr_framework.Errors.{AcrError, Result, ok, err}
use acr_framework.Exec.Steps.{bind-eq-ok}
use acr_framework.Json.{Fields}
use acr_framework.Gateway.Outside.{Settings, Outside, spend_charge, spend_refund}
use acr_framework.Gateway.Models.{Execution, World, Services}
use acr_framework.Gateway.Spend.{adjust_spend}
use acr_framework.Gateway.Evaluate.{call_executor, refund_on_error, charge_and_execute, on_redis}

never_ok : (e : AcrError) (x : Fields) → err e ≡ ok x → ⊥
never_ok e x h = cc

kept_result :
    (c : Settings) (env : Outside) (a : String) (cost : ℤ) (r : Result Fields) (x : Fields)
    (w w' : World)
    → refund_on_error c env a cost r w ≡ (ok x, w')
    → (r ≡ ok x) × (w ≡ w')
unfolding refund_on_error
kept_result c env a cost (ok y) x w w' h = (ap (λ o. o.0) h, ap (λ o. o.1) h)
kept_result c env a cost (err e) x w w' h =
    let (u, refunded, raised) =
      bind-eq-ok (on_redis (adjust_spend c env spend_refund a (pos 0 -ℤ cost))) _ w w' x h in
    absurd (never_ok e x (ap (λ o. o.0) raised))

-- The executor was called once, and its answer is the result; no table of the database has changed.
pub charge_and_execute-calls :
    (c : Settings) (env : Outside) (svc : Services) (a : String) (cost : ℤ) (e : Execution)
    (x : Fields) (w w' : World)
    → charge_and_execute c env svc a cost e w ≡ (ok x, w')
    → (svc.execute e ≡ ok x)
      × (w'.executions ≡ w.executions ++ e ∷ [])
      × (w'.approvals ≡ w.approvals)
unfolding charge_and_execute call_executor
charge_and_execute-calls c env svc a cost e x w w' h =
    let (u, charged, rest) =
      bind-eq-ok (on_redis (adjust_spend c env spend_charge a cost)) _ w w' x h in
    let (answered, same) = kept_result c env a cost (svc.execute e) x _ w' rest in
    (answered, sym (ap (λ v. v.executions) same), sym (ap (λ v. v.approvals) same))
