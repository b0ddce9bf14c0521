-- ===== src/Authority/Endpoint/Inversion.antt =====
-- The steps of the endpoints, taken apart where they succeed.
use acr_framework.Prelude.{
  ℕ, String, ◌≡◌, refl, sym, ap, ◌∙◌, ◌⊎◌, inl, inr, Bool, true, false, Option, some, [], ◌∷◌, ◌++◌,
  arith, if◌then◌else◌,
}
use acr_framework.Prelude.Table.{find, update}
use acr_framework.Errors.Steps.{bind-eq-ok as result-eq-ok, guard-eq-ok, ok_injective}
use acr_framework.Errors.{guard, approval_conflict, AcrError, Result, ok, err}
use acr_framework.Exec.{lift, pure, Exec, ◌>>=◌}
use acr_framework.Exec.Steps.{bind-eq-ok}
use acr_framework.Json.{Fields}
use acr_framework.Gateway.Outside.{Settings, Outside}
use acr_framework.Gateway.Models.{World, Services}
use acr_framework.Gateway.Evaluate.{charge_and_execute}
use acr_framework.Gateway.Evaluate.Called.{charge_and_execute-calls}
use acr_framework.Authority.Approval.{
  ApprovalRecord, ApprovalTable, request_key, approved, pending, decide, approve,
  get_approval_request, is_approved, settle, ApprovalStatus, is_pending, executed, record_execution,
}
use acr_framework.Authority.Endpoint.{
  execution_for, execute_approval, decided, with_session, get_manifest, lift,
  resolve_action_cost_usd,
}

-- What an execution writes in the world.
pub execute_approval-calls :
    (c : Settings) (env : Outside) (svc : Services) (r : ApprovalRecord) (x : Fields) (w w' : World)
    → execute_approval c env svc r w ≡ (ok x, w')
    → (svc.execute (execution_for r) ≡ ok x)
      × (w'.executions ≡ w.executions ++ execution_for r ∷ [])
      × (w'.approvals ≡ update request_key r.request_id (executed x) w.approvals)
unfolding execute_approval record_execution
execute_approval-calls c env svc r x w w' h =
    let (m, hm, h1) = bind-eq-ok (λ v. (get_manifest v.agents r.agent_id, v)) _ w w' x h in
    let (cost, hc, h2) =
      bind-eq-ok (lift (resolve_action_cost_usd c m.boundaries r.tool_name)) _ w w' x h1 in
    let done = charge_and_execute c env svc r.agent_id cost (execution_for r) w in
    let (y, hy, h3) =
      bind-eq-ok (charge_and_execute c env svc r.agent_id cost (execution_for r)) _ w w' x h2 in
    let (answer, calls, kept) =
      charge_and_execute-calls c env svc r.agent_id cost (execution_for r) y w done.1
        (ap (λ o. (o, done.1)) hy) in
    (
      answer ∙ ap (λ o. o.0) h3,
      sym (ap (λ o. o.1.executions) h3) ∙ calls,
      sym (ap (λ o. o.1.approvals) h3)
          ∙ ap (update request_key r.request_id (executed y)) kept
          ∙ ap (λ z. update request_key r.request_id (executed z) w.approvals)
              (ok_injective (ap (λ o. o.0) h3)),
    )

pub if_allowed :
    (b : Bool) (m : Exec World Fields) (w w' : World) (u : Unit {0})
    → (if b then (m >>= λ result. pure tt) else pure tt) w ≡ (ok u, w')
    → ((b ≡ true) × ((x : Fields) × (m w ≡ (ok x, w')))) ⊎ ((b ≡ false) × (w ≡ w'))
if_allowed true m w w' u h =
    let (x, e, last) = bind-eq-ok m _ w w' u h in
    inl (refl, (x, ap (λ o. (o, (m w).1)) e ∙ ap (λ s. (ok x, s)) (ap (λ o. o.1) last)))
if_allowed false m w w' u h = inr (refl, ap (λ o. o.1) h)

pub decided-eq-ok :
    (m : Result (ApprovalRecord × ApprovalTable)) (w : World) (r : ApprovalRecord)
    → (decided m w).0 ≡ ok r
    → (db : ApprovalTable) × (m ≡ ok (r, db)) × ((decided m w).1 ≡ record w { approvals = db })
decided-eq-ok (ok (r', db)) w r h = (db, ap (λ x. ok (x, db)) (ok_injective h), refl)
decided-eq-ok (err e) w r h = absurd cc

pub found_row :
    (db : ApprovalTable) (id : String) (r : ApprovalRecord)
    → get_approval_request db id ≡ ok r
    → find request_key id db ≡ some r
unfolding get_approval_request
found_row db id r h = ground arith

pending_status : (s : ApprovalStatus) → is_pending s ≡ true → s ≡ pending
pending_status s h = ground arith

-- A decision that succeeds was on a pending row.
pub approve-eq-ok :
    (now : ℕ) (db db' : ApprovalTable) (id by : String) (reason : Option String)
    (r : ApprovalRecord)
    → approve now db id by reason ≡ ok (r, db')
    → (old : ApprovalRecord) × (find request_key id db ≡ some old)
      × (old.status ≡ pending)
      × (r ≡ decide approved is_approved by reason now old)
      × (db' ≡ update request_key id (decide approved is_approved by reason now) db)
unfolding approve settle
approve-eq-ok now db db' id by reason r h =
    let (old, found, h1) = result-eq-ok (get_approval_request db id) _ (r, db') h in
    let (u, waiting, h2) =
      result-eq-ok (guard (is_pending old.status) approval_conflict) _ (r, db') h1 in
    (
      old,
      found_row db id old found,
      pending_status old.status (guard-eq-ok (is_pending old.status) approval_conflict waiting),
      sym (ap (λ p. p.0) (ok_injective h2)),
      sym (ap (λ p. p.1) (ok_injective h2)),
    )

never_ok : {A : Type 0} (e : AcrError) (a : A) → err e ≡ ok a → ⊥
never_ok e a h = cc

pub some_injective : {A : Type 0} {x y : A} → some x ≡ some y → x ≡ y
some_injective h = cc

pub pair_of :
    {A B : Type 0} (a : A) (b : B) (a' : A) (b' : B)
    → a ≡ a'
    → b ≡ b'
    → ◌≡◌ {A = A × B} (a, b) (a', b')
pair_of a b a' b' p q = ap (λ x. (x, b)) p ∙ ap (λ y. (a', y)) q

pub with_session-eq-ok :
    {A : Type 0} (before : World) (r : Result A) (v w' : World) (a : A)
    → with_session before (r, v) ≡ (ok a, w')
    → (r ≡ ok a) × (v ≡ w')
with_session-eq-ok before (ok x) v w' a h = (ap (λ o. o.0) h, ap (λ o. o.1) h)
with_session-eq-ok before (err e) v w' a h = absurd (never_ok e a (ap (λ o. o.0) h))
