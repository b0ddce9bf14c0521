-- ===== src/Authority/Approval/Trace.antt =====
-- Every approval request is decided at most once, and a decision is final.
-- An execution is here what it writes in the queue, with the executor's answer as an argument; the
-- call of the executor is in Authority/Endpoint.antt.
use mathlib.Core.Path.{subst}
use mathlib.Core.Option
use acr_framework.Prelude.{
  ℕ, String, ◌≡◌, ◌≢◌, refl, ap, ◌⊎◌, inl, inr, true, false, Option, some, List, [], ◌∷◌, arith,
  Bool-cases, Option-cases, ◌∙◌, if◌then◌else◌, ◌==◌,
}
use acr_framework.Prelude.Table.{find, update, find-append_some, update_relates, find-update}
use acr_framework.Errors.{Result, ok, err}
use acr_framework.Authority.Approval.{
  ApprovalStatus, pending, approved, denied, overridden, Outcome, is_approved, is_denied,
  is_overridden, ApprovalRecord, ApprovalTable, request_key, NewApproval, new_approval,
  create_approval_request, is_pending, decide, settle, approve, deny, override, has_expired, is_due,
  time_out, expire_timed_out_approvals, record_execution, Fields, executed,
}

-- A call that changes the queue, with the time at which it runs.
pub data Call : Type 0 where
  create : String → NewApproval → Call
  approve_call deny_call : String → String → Option String → Call
  override_call : String → String → String → Call
  execute_call : String → Fields → Call
  expire_call : Call

abbrev table_of : ApprovalTable → Result (ApprovalRecord × ApprovalTable) → ApprovalTable
table_of db (ok (r, db')) = db'
table_of db (err e) = db

unfoldable pub run : ℕ → Call → ApprovalTable → ApprovalTable
run now (create id n) db = (create_approval_request now id n db).1
run now (approve_call id by reason) db = table_of db (approve now db id by reason)
run now (deny_call id by reason) db = table_of db (deny now db id by reason)
run now (override_call id by reason) db = table_of db (override now db id by reason)
run now (execute_call id result) db = record_execution db id result
run now expire_call db = (expire_timed_out_approvals now db).1

unfoldable pub run_all : List (ℕ × Call) → ApprovalTable → ApprovalTable
run_all [] db = db
run_all ((now, c) ∷ cs) db = run_all cs (run now c db)

-- What one call leaves as the execution result of one request, and what a sequence of calls does: the
-- answer of the last execution of that request, if there is one.
abbrev pub result_after : String → Call → Option Fields → Option Fields
result_after id (execute_call other result) old = if other == id then some result else old
result_after id _ old = old

unfoldable pub last_result : String → List (ℕ × Call) → Option Fields → Option Fields
last_result id [] old = old
last_result id ((now, c) ∷ cs) old = last_result id cs (result_after id c old)

-- What one call may do to one request.
pub data Moves (now : ℕ) (r : ApprovalRecord) : ApprovalRecord → Type 0 where
  stay : Moves now r r
  decided :
      (s : ApprovalStatus) (o : Outcome) (by : String) (reason : Option String)
      → r.status ≡ pending
      → s ≢ pending
      → Moves now r (decide s o by reason now r)
  lapsed : r.status ≡ pending → has_expired now r.expires_at ≡ true → Moves now r (time_out now r)

abbrev with_result : Option Fields → ApprovalRecord → ApprovalRecord
with_result o r = record r { execution_result = o }

-- Every row stays in the table, and moves from where `left` has put its execution result.
abbrev Keeps : ℕ → (String → Option Fields → Option Fields) → ApprovalTable → ApprovalTable → Type 0
Keeps now left db db' =
    (j : String) (r : ApprovalRecord)
    → find request_key j db ≡ some r
    → (r' : ApprovalRecord) × (find request_key j db' ≡ some r')
      × Moves now (with_result (left j r.execution_result) r) r'

decide_key :
    (s : ApprovalStatus) (o : Outcome) (by : String) (reason : Option String) (now : ℕ)
    (r : ApprovalRecord)
    → (decide s o by reason now r).request_id ≡ r.request_id
unfolding decide
decide_key s o by reason now r = refl

time_out_not_due : (now : ℕ) (r : ApprovalRecord) → is_due now r ≡ false → time_out now r ≡ r
unfolding time_out
time_out_not_due now r h = ground arith

settle_cases :
    (s : ApprovalStatus) (o : Outcome) (now : ℕ) (db : ApprovalTable) (id by : String)
    (reason : Option String)
    → (table_of db (settle s o now db id by reason) ≡ db)
      ⊎ ((row : ApprovalRecord) × (find request_key id db ≡ some row)
          × (row.status ≡ pending)
          × (table_of db (settle s o now db id by reason)
              ≡ update request_key id (decide s o by reason now) db))
unfolding settle
settle_cases s o now db id by reason = elim (Option-cases (find request_key id db)) [
  | inl missing ↦ inl (ground arith)
  | inr (row, found) ↦ elim (Bool-cases (is_pending row.status)) [
    | inl waits ↦ inr (row, found, ground arith, ground arith)
    | inr closed ↦ inl (ground arith)
  ]
]

settle-Keeps :
    (s : ApprovalStatus) (o : Outcome) (now : ℕ) (db : ApprovalTable) (id by : String)
    (reason : Option String)
    → s ≢ pending
    → Keeps now (λ j o. o) db (table_of db (settle s o now db id by reason))
settle-Keeps s o now db id by reason final = elim (settle_cases s o now db id by reason) [
  | inl same ↦ rw same (λ j r h. (r, h, stay))
  | inr (row, found, waits, changed) ↦ rw changed (
      update_relates request_key (decide s o by reason now) (λ r. decide_key s o by reason now r)
        (Moves now) id db (λ r. stay)
        (λ r h.
          let same : row ≡ r = cc in
          decided s o by reason (subst (λ x. x.status ≡ pending) same waits) final))
]

find-expire :
    (now : ℕ) (j : String) (db : ApprovalTable)
    → find request_key j (expire_timed_out_approvals now db).1
      ≡ Option.map (time_out now) (find request_key j db)
unfolding expire_timed_out_approvals find
find-expire now j [] = refl
find-expire now j (r ∷ db) = ground (arith, find-expire now j db)

time_out-Moves : (now : ℕ) (r : ApprovalRecord) → Moves now r (time_out now r)
time_out-Moves now r = elim (Bool-cases (is_due now r)) [
  | inl due ↦ lapsed (unfold is_due in ground arith) (unfold is_due in ground arith)
  | inr not_due ↦ rw (time_out_not_due now r not_due) stay
]

-- An execution writes in the row of its request only.
find-execution :
    (db : ApprovalTable) (id other : String) (result : Fields) (r : ApprovalRecord)
    → find request_key id db ≡ some r
    → find request_key id (record_execution db other result)
      ≡ some (with_result (if other == id then some result else r.execution_result) r)
unfolding record_execution
find-execution db id other result r found = elim (Bool-cases (other == id)) [
  | inl here ↦
      find-update request_key (executed result) (λ x. refl) other id db ∙ rw (here, found) refl
  | inr there ↦
      find-update request_key (executed result) (λ x. refl) other id db ∙ rw (there, found) refl
]

run-Keeps :
    (now : ℕ) (c : Call) (db : ApprovalTable)
    → Keeps now (λ j o. result_after j c o) db (run now c db)
unfolding run approve deny override create_approval_request
run-Keeps now (create id n) db =
    λ j r h. (r, find-append_some request_key j db (new_approval now id n) h, stay)
run-Keeps now (approve_call id by reason) db =
    settle-Keeps approved is_approved now db id by reason (λ e. cc)
run-Keeps now (deny_call id by reason) db =
    settle-Keeps denied is_denied now db id by reason (λ e. cc)
run-Keeps now (override_call id by reason) db =
    settle-Keeps overridden is_overridden now db id by (some reason) (λ e. cc)
run-Keeps now (execute_call other result) db = λ j r h. (
  with_result (result_after j (execute_call other result) r.execution_result) r,
  find-execution db j other result r h,
  stay,
)
run-Keeps now expire_call db =
    λ j r h. (time_out now r, rw (find-expire now j db, h) refl, time_out-Moves now r)

Moves-final : {now : ℕ} {r r' : ApprovalRecord} → Moves now r r' → r.status ≢ pending → r' ≡ r
Moves-final stay final = refl
Moves-final (decided s o by reason waits _) final = absurd (final waits)
Moves-final (lapsed waits due) final = absurd (final waits)

-- A decision is final: once a request is no longer pending, no call in any order, at any time, changes
-- its status, its decision or any other field of its row but the execution result; and that is the
-- answer of the last execution of this request, or as before when it was not executed.
pub decision_final :
    (cs : List (ℕ × Call)) (db : ApprovalTable) (id : String) (r : ApprovalRecord)
    → find request_key id db ≡ some r
    → r.status ≢ pending
    → find request_key id (run_all cs db)
      ≡ some (record r { execution_result = last_result id cs r.execution_result })
unfolding run_all last_result
decision_final [] db id r found final = found
decision_final ((now, c) ∷ cs) db id r found final =
    let ran = with_result (result_after id c r.execution_result) r in
    let (r', found', moved) = run-Keeps now c db id r found in
    let same : r' ≡ ran = Moves-final moved final in
    decision_final cs (run now c db) id ran (found' ∙ ap some same) final
