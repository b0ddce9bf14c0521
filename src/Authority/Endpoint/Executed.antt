-- ===== src/Authority/Endpoint/Executed.antt =====
-- An approval executes the stored action, once.
use mathlib.Core.Path.{subst}
use acr_framework.Prelude.{
  ℕ, String, ◌≡◌, refl, sym, ap, ◌∙◌, inl, inr, Bool, Option, some, List, [], ◌∷◌, ◌++◌, str_refl,
  if◌then◌else◌,
}
use acr_framework.Prelude.Table.{find, update, find-update, key-find}
use acr_framework.Errors.{Result, ok}
use acr_framework.Exec.{lift, ◌>>◌}
use acr_framework.Exec.Steps.{bind-eq-ok}
use acr_framework.Gateway.Outside.{Settings, Outside}
use acr_framework.Gateway.Models.{Execution, World, Services}
use acr_framework.Authority.Approval.{
  ApprovalRecord, ApprovalTable, request_key, approved, pending, decide, approve, is_approved,
  executed,
}
use acr_framework.Authority.Endpoint.{
  execution_for, execute_approval, execute_if_allowed, decided, approve_steps, approve_endpoint,
  lift, refreshed,
}
use acr_framework.Authority.Endpoint.Inversion.{
  execute_approval-calls, if_allowed, decided-eq-ok, found_row, approve-eq-ok, some_injective,
  pair_of, with_session-eq-ok,
}

changed_row :
    (f : ApprovalRecord → ApprovalRecord) (id : String) (db : ApprovalTable) (old : ApprovalRecord)
    → ((r : ApprovalRecord) → request_key (f r) ≡ request_key r)
    → find request_key id db ≡ some old
    → find request_key id (update request_key id f db) ≡ some (f old)
changed_row f id db old keeps found =
    find-update request_key f keeps id id db ∙ rw (str_refl id, found) refl

-- What an approval that succeeds has seen and left.
pub record IsApproval (c : Settings) (operator : Result String) (id : String) (w : World)
    (row : ApprovalRecord) (w' : World) : Type 0 where
  pub by : String
  pub identified : operator ≡ ok by
  pub old : ApprovalRecord
  pub found : find request_key id w.approvals ≡ some old
  pub waiting : old.status ≡ pending
  pub stored : find request_key id w'.approvals ≡ some row
  pub settled : row.status ≡ approved
  pub signed : row.decided_by ≡ some by
  pub called :
      w'.executions
      ≡ (if c.execute_allowed_actions then w.executions ++ execution_for old ∷ [] else w.executions)

-- The row and the log after the decision and what may follow it.
pub record IsCarriedOut (c : Settings) (id : String) (new : ApprovalRecord) (w₁ w₂ : World)
    : Type 0 where
  pub last : ApprovalRecord
  pub kept_status : last.status ≡ new.status
  pub kept_by : last.decided_by ≡ new.decided_by
  pub there : find request_key id w₂.approvals ≡ some last
  pub log : w₂.executions ≡ (
      if c.execute_allowed_actions then w₁.executions ++ execution_for new ∷ [] else w₁.executions)

carried_out :
    (c : Settings) (env : Outside) (svc : Services) (id : String) (new : ApprovalRecord)
    (w₁ w₂ : World) (u : Unit {0})
    → find request_key id w₁.approvals ≡ some new
    → new.request_id ≡ id
    → execute_if_allowed c env svc new w₁ ≡ (ok u, w₂)
    → IsCarriedOut c id new w₁ w₂
unfolding execute_if_allowed
carried_out c env svc id new w₁ w₂ u found key h =
    elim (if_allowed c.execute_allowed_actions (execute_approval c env svc new) w₁ w₂ u h) [
      | inl (on, (x, e)) ↦
          let (answer, calls, rows) = execute_approval-calls c env svc new x w₁ w₂ e in
          record {
            last = executed x new;
            kept_status = refl;
            kept_by = refl;
            there =
                ap (find request_key id)
                  (rows ∙ ap (λ k. update request_key k (executed x) w₁.approvals) key)
                ∙ changed_row (executed x) id w₁.approvals new (λ r. refl) found;
            log = rw on calls;
          }
      | inr (off, same) ↦ record {
        last = new;
        kept_status = refl;
        kept_by = refl;
        there = subst (λ v. find request_key id v.approvals ≡ some new) same found;
        log = rw off (sym (ap (λ v. v.executions) same));
      }
    ]

decide_keeps :
    (by : String) (reason : Option String) (now : ℕ) (r : ApprovalRecord)
    → request_key (decide approved is_approved by reason now r) ≡ request_key r
unfolding decide
decide_keeps by reason now r = refl

decide_status :
    (by : String) (reason : Option String) (now : ℕ) (r : ApprovalRecord)
    → ((decide approved is_approved by reason now r).status ≡ approved)
      × ((decide approved is_approved by reason now r).decided_by ≡ some by)
      × (execution_for (decide approved is_approved by reason now r) ≡ execution_for r)
unfolding decide
decide_status by reason now r = (refl, refl, refl)

-- The world between the decision and the execution.
approved_world :
    (now : ℕ) (id by : String) (reason : Option String) (w : World) (r : ApprovalRecord)
    → (decided (approve now w.approvals id by reason) w).0 ≡ ok r
    → (old : ApprovalRecord) × (find request_key id w.approvals ≡ some old)
      × (old.status ≡ pending)
      × (r ≡ decide approved is_approved by reason now old)
      × (find request_key id (decided (approve now w.approvals id by reason) w).1.approvals
          ≡ some r)
      × (r.request_id ≡ id)
      × ((decided (approve now w.approvals id by reason) w).1.executions ≡ w.executions)
approved_world now id by reason w r hd =
    let (db, ha, hw) = decided-eq-ok (approve now w.approvals id by reason) w r hd in
    let (old, found, waiting, same_r, same_db) =
      approve-eq-ok now w.approvals db id by reason r ha in
    (
      old,
      found,
      waiting,
      same_r,
      ap (find request_key id) (ap (λ v. v.approvals) hw ∙ same_db)
          ∙ changed_row (decide approved is_approved by reason now) id w.approvals old
              (decide_keeps by reason now) found
          ∙ sym (ap some same_r),
      ap request_key same_r
          ∙ decide_keeps by reason now old
          ∙ key-find request_key id w.approvals found,
      ap (λ v. v.executions) hw,
    )

same_log :
    {xs ys : List Execution} {e f : Execution} (b : Bool)
    → xs ≡ ys
    → e ≡ f
    → (if b then xs ++ e ∷ [] else xs) ≡ (if b then ys ++ f ∷ [] else ys)
same_log {xs = xs} {ys = ys} {e = e} {f = f} b p q =
    ap (λ zs. if b then zs ++ e ∷ [] else zs) p ∙ ap (λ g. if b then ys ++ g ∷ [] else ys) q

-- From the decision to the answer.
IsApproval-from :
    (c : Settings) (env : Outside) (svc : Services) (now : ℕ) (operator : Result String)
    (id by : String) (reason : Option String) (w w' : World) (r row : ApprovalRecord)
    → operator ≡ ok by
    → (decided (approve now w.approvals id by reason) w).0 ≡ ok r
    → (execute_if_allowed c env svc r >> refreshed id)
        (decided (approve now w.approvals id by reason) w).1
      ≡ (ok row, w')
    → IsApproval c operator id w row w'
IsApproval-from c env svc now operator id by reason w w' r row hop hd h2 =
    let (old, found, waiting, same_r, stored, key, quiet) =
      approved_world now id by reason w r hd in
    let (u, hu, h3) =
      bind-eq-ok (execute_if_allowed c env svc r) _
        (decided (approve now w.approvals id by reason) w).1 w' row h2 in
    let w₂ =
      (execute_if_allowed c env svc r (decided (approve now w.approvals id by reason) w).1).1 in
    let done =
      carried_out c env svc id r (decided (approve now w.approvals id by reason) w).1 w₂ u stored
        key (ap (λ o. (o, w₂)) hu) in
    let (kept, signed, same_action) = decide_status by reason now old in
    let this : done.last ≡ row =
      some_injective (sym done.there ∙ found_row w₂.approvals id row (ap (λ o. o.0) h3)) in
    record {
      by = by;
      identified = hop;
      old = old;
      found = found;
      waiting = waiting;
      stored =
          ap (λ v. find request_key id v.approvals) (sym (ap (λ o. o.1) h3))
          ∙ done.there
          ∙ ap some this;
      settled = sym (ap (λ x. x.status) this) ∙ done.kept_status ∙ ap (λ x. x.status) same_r ∙ kept;
      signed =
          sym (ap (λ x. x.decided_by) this) ∙ done.kept_by ∙ ap (λ x. x.decided_by) same_r ∙ signed;
      called =
          sym (ap (λ o. o.1.executions) h3)
          ∙ done.log
          ∙ same_log c.execute_allowed_actions quiet (ap execution_for same_r ∙ same_action);
    }

-- When the endpoint answers an approval, the operator was identified and the row was pending before.
-- The row is now approved and signed by the operator; and with execution switched on the executor was
-- called once, for the action that the row has stored, else not at all.
pub approve_endpoint_lem :
    (c : Settings) (env : Outside) (svc : Services) (now : ℕ) (operator : Result String)
    (id : String) (reason : Option String) (w w' : World) (row : ApprovalRecord)
    → approve_endpoint c env svc now operator id reason w ≡ (ok row, w')
    → IsApproval c operator id w row w'
unfolding approve_endpoint approve_steps
approve_endpoint_lem c env svc now operator id reason w w' row h =
    let steps = approve_steps c env svc now operator id reason w in
    let (hr, hv) = with_session-eq-ok w steps.0 steps.1 w' row h in
    let (by, hop, h1) =
      bind-eq-ok (lift operator) _ w w' row (pair_of steps.0 steps.1 (ok row) w' hr hv) in
    let (r, hd, h2) =
      bind-eq-ok (λ v. decided (approve now v.approvals id by reason) v) _ w w' row h1 in
    IsApproval-from c env svc now operator id by reason w w' r row hop hd h2
