-- ===== src/Gateway/Evaluate/Refund.antt =====
-- The ledger after an execution that failed.
use acr_framework.Prelude.{
  String, ◌≡◌, ◌≤◌, ◌<◌, ◌+◌, refl, sym, ap, ◌++◌, [], ◌∷◌, ◌∙◌, true, false, ◌++◌, ◌∷◌, [],
}
use acr_framework.Prelude.Int.{ℤ, pos, ◌-ℤ◌}
use acr_framework.Errors.{AcrError, ok, err}
use acr_framework.Gateway.Outside.{Settings, Outside, spend_charge, spend_refund, works}
use acr_framework.Gateway.Models.{Execution, World, Services}
use acr_framework.Gateway.Spend.{is_zero, adjust_spend}
use mathlib.Core.Path.{subst}
use acr_framework.Exec.{continue}
use acr_framework.Gateway.Spend.Ledger.{
  adjust_spend_works, is_zero_negated, charge_refund_lem, Nets,
}
use acr_framework.Gateway.Evaluate.{charge_and_execute, refund_on_error}

refund_on_error_works :
    (c : Settings) (env : Outside) (a : String) (cost : ℤ) (x : AcrError) (w : World)
    → (adjust_spend c env spend_refund a (pos 0 -ℤ cost) w.redis).0 ≡ ok tt
    → refund_on_error c env a cost (err x) w
      ≡ (err x, record w { redis = (adjust_spend c env spend_refund a (pos 0 -ℤ cost) w.redis).1 })
unfolding refund_on_error
refund_on_error_works c env a cost x w h =
    ap
      (λ o.
        continue o (λ _ s. (err x, s))
          (record w { redis = (adjust_spend c env spend_refund a (pos 0 -ℤ cost) w.redis).1 }))
      h

-- The world in which the executor was called after the charge.
abbrev called : Settings → Outside → String → ℤ → Execution → World → World
called c env a cost e w = record w {
  redis = (adjust_spend c env spend_charge a cost w.redis).1;
  executions = w.executions ++ e ∷ [];
}

charge_and_execute_fails :
    (c : Settings) (env : Outside) (svc : Services) (a : String) (cost : ℤ) (e : Execution)
    (w : World) (x : AcrError)
    → svc.execute e ≡ err x
    → (adjust_spend c env spend_charge a cost w.redis).0 ≡ ok tt
    → charge_and_execute c env svc a cost e w
      ≡ refund_on_error c env a cost (err x) (called c env a cost e w)
unfolding charge_and_execute
charge_and_execute_fails c env svc a cost e w x hx h =
    ap
      (λ o.
        continue o
          (λ _ s.
            refund_on_error c env a cost (svc.execute e)
              (record s { executions = s.executions ++ e ∷ [] }))
          (record w { redis = (adjust_spend c env spend_charge a cost w.redis).1 }))
      h
    ∙ ap (λ r. refund_on_error c env a cost r (called c env a cost e w)) hx

-- With a Redis that works, an action that costs something and whose execution fails raises the error
-- of the executor, which was called once. The refund within two hours leaves the ledger of the hour
-- of the charge as it was before, if it comes in that hour; else that hour stays charged, and the
-- refund is taken from the hour it comes in.
pub failed_execution_refunded :
    (c : Settings) (env : Outside) (svc : Services) (a : String) (cost : ℤ) (e : Execution)
    (w : World) (x : AcrError)
    → svc.execute e ≡ err x
    → env.connected ≡ true
    → env.fault spend_charge ≡ works
    → env.fault spend_refund ≡ works
    → env.clock spend_charge ≤ env.clock spend_refund
    → env.clock spend_refund < env.clock spend_charge + 7200
    → is_zero cost ≡ false
    → ((charge_and_execute c env svc a cost e w).0 ≡ err x)
      × ((charge_and_execute c env svc a cost e w).1.executions ≡ w.executions ++ e ∷ [])
      × Nets
          (env.clock spend_charge)
          (env.clock spend_refund)
          a
          cost
          w.redis
          (charge_and_execute c env svc a cost e w).1.redis
failed_execution_refunded c env svc a cost e w x hx h f g t k z =
    subst
      (λ o.
        (o.0 ≡ err x)
        × (o.1.executions ≡ w.executions ++ e ∷ [])
        × Nets (env.clock spend_charge) (env.clock spend_refund) a cost w.redis o.1.redis)
      (sym (
        charge_and_execute_fails c env svc a cost e w x hx charged
        ∙ refund_on_error_works c env a cost x (called c env a cost e w) refunded))
      (refl, refl, charge_refund_lem c env a cost w.redis h f g t k z)
  where
    charged : (adjust_spend c env spend_charge a cost w.redis).0 ≡ ok tt
    charged = ap (λ o. o.0) (adjust_spend_works c env spend_charge a cost w.redis h f z)

    refunded :
        (adjust_spend c env spend_refund a
          (pos 0 -ℤ cost)
          (adjust_spend c env spend_charge a cost w.redis).1).0
        ≡ ok tt
    refunded =
        ap (λ o. o.0)
          (adjust_spend_works c env spend_refund a (pos 0 -ℤ cost)
            (adjust_spend c env spend_charge a cost w.redis).1 h g (is_zero_negated cost z))
