-- ===== src/Gateway/Evaluate/Refusal.antt =====
-- A step of the endpoint is refused, with no trace, unless something holds.
use acr_framework.Prelude.{
  ◌≡◌, refl, ◌⊎◌, inl, inr, Bool, true, false, Option, none, some, arith, ◌∙◌, if◌then◌else◌,
}
use acr_framework.Prelude.Int.{ℤ}
use acr_framework.Errors.{AcrError, Result, ok, err}
use acr_framework.Json.{Fields}
use acr_framework.Redis.{Redis}
use acr_framework.Exec.{lift, continue, ◌>>=◌, Exec, lift}
use acr_framework.Policy.Filter.{filter_parameters}
use acr_framework.Policy.Engine.{Decision, allow, deny, modify, escalate, PolicyEvaluationResult}
use acr_framework.Policy.Engine.Verdict.{Permits}
use acr_framework.Gateway.Outside.{Settings, Outside}
use acr_framework.Gateway.Models.{EvaluateRequest, Response, World, Services, is_allowed}
use acr_framework.Gateway.Effective.{effective_action, parameters_of}
use acr_framework.Gateway.Effective.Kept.{verdict-Permits}
use acr_framework.Gateway.Evaluate.{Prepared, answer_of, denial_of, carry_out, after_policy, act_on}

-- The answer permits nothing, the executor was not called, and the ledger is as it was.
abbrev pub IsRefusal : World → Result Response × World → Type 0
IsRefusal w out =
    (is_allowed (answer_of out.0).decision ≡ false)
    × (out.1.executions ≡ w.executions)
    × (out.1.redis.spend ≡ w.redis.spend)

abbrev pub RefusedUnless : Type 0 → World → Result Response × World → Type 0
RefusedUnless P w out = IsRefusal w out ⊎ P

denial_refuses : (e : AcrError) → is_allowed (denial_of e).decision ≡ false
unfolding denial_of
denial_refuses e = ground arith

pub raised : (P : Type 0) (w : World) (e : AcrError) → RefusedUnless P w (err e, w)
unfolding answer_of
raised P w e = inl (denial_refuses e, refl, refl)

carry_out-RefusedUnless :
    (P : Type 0) (c : Settings) (env : Outside) (svc : Services) (req : EvaluateRequest)
    (p : Prepared) (w : World)
    → (is_allowed p.verdict.decision ≡ true → P)
    → RefusedUnless P w (carry_out c env svc req p w)
unfolding carry_out answer_of
carry_out-RefusedUnless P c env svc req p w h = go p.verdict.decision refl
  where
    go : (d : Decision) → p.verdict.decision ≡ d → RefusedUnless P w (carry_out c env svc req p w)
    go allow e = inr (h (rw e refl))
    go modify e = inr (h (rw e refl))
    go deny e = inl (rw e (refl, refl, refl))
    go escalate e = inl (rw e (refl, refl, refl))

-- A step that may raise.
pub lift-RefusedUnless :
    {A : Type 0} (P : Type 0) (w : World) (r : Result A) (f : A → Exec World Response)
    → ((a : A) → r ≡ ok a → RefusedUnless P w (f a w))
    → RefusedUnless P w ((lift r >>= f) w)
lift-RefusedUnless P w (ok a) f h = h a refl
lift-RefusedUnless P w (err e) f h = raised P w e

act_on-RefusedUnless :
    (P : Type 0) (c : Settings) (env : Outside) (svc : Services) (req : EvaluateRequest)
    (cost projected : ℤ) (v : PolicyEvaluationResult) (o : Option Fields) (w : World)
    → (Permits v → P)
    → RefusedUnless P w (act_on c env svc req cost projected v o w)
unfolding act_on answer_of
act_on-RefusedUnless P c env svc req cost projected v none w h = inl (refl, refl, refl)
act_on-RefusedUnless P c env svc req cost projected v (some action) w h =
    lift-RefusedUnless P w (parameters_of action) _ (λ ps e.
      carry_out-RefusedUnless P c env svc req _ w
        (λ a. h (verdict-Permits v (filter_parameters svc.patterns ps).1 a)))

pub after_policy-RefusedUnless :
    (P : Type 0) (c : Settings) (env : Outside) (svc : Services) (req : EvaluateRequest)
    (cost projected : ℤ) (v : PolicyEvaluationResult) (w : World)
    → (Permits v → P)
    → RefusedUnless P w (after_policy c env svc req cost projected v w)
unfolding after_policy
after_policy-RefusedUnless P c env svc req cost projected v w =
    act_on-RefusedUnless P c env svc req cost projected v (effective_action req v) w

-- A refusal is measured from the world before a step that keeps the executions and the ledger.
from_before :
    (P : Type 0) (w : World) (r : Redis) (out : Result Response × World)
    → r.spend ≡ w.redis.spend
    → RefusedUnless P (record w { redis = r }) out
    → RefusedUnless P w out
from_before P w r out h (inl (refused, kept, spent)) = inl (refused, kept, spent ∙ h)
from_before P w r out h (inr p) = inr p

-- A step on Redis that keeps the ledger, and may raise.
pub redis-RefusedUnless :
    {A : Type 0} (P : Type 0) (w : World) (r : Result A) (redis' : Redis)
    (f : A → Exec World Response)
    → redis'.spend ≡ w.redis.spend
    → ((a : A)
        → r ≡ ok a
        → RefusedUnless P (record w { redis = redis' }) (f a (record w { redis = redis' })))
    → RefusedUnless P w (continue r f (record w { redis = redis' }))
redis-RefusedUnless P w r redis' f h k =
    from_before P w redis' (continue r f (record w { redis = redis' })) h
      (lift-RefusedUnless P (record w { redis = redis' }) r f k)

-- A test with an answer for each outcome.
pub if-RefusedUnless :
    (P : Type 0) (w : World) (b : Bool) (x y : Exec World Response)
    → (b ≡ true → RefusedUnless P w (x w))
    → (b ≡ false → RefusedUnless P w (y w))
    → RefusedUnless P w ((if b then x else y) w)
if-RefusedUnless P w true x y h k = h refl
if-RefusedUnless P w false x y h k = k refl
