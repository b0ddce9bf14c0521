-- ===== src/Authority/Approval.antt =====
-- pillar6_authority/approval.py and the approval_requests table of db/models.py: the queue of actions
-- that wait for a human decision. An operation returns the changed table; where it raises, the
-- session is rolled back and the table is as before.
pub mod Trace
use acr_framework.Prelude.{
  ℕ, zero, suc, ◌+◌, ◌*◌, String, Bool, true, false, not, ◌&&◌, Option, none, some, List, [], ◌∷◌,
  ◌++◌, ltb, leb, map, if◌then◌else◌, where_rows, count_if,
}
use acr_framework.Prelude.Table.{find, update}
use acr_framework.Errors.{
  Result, ok, err, approval_not_found, approval_conflict, ◌>>=◌, ◌>>◌, guard,
}
use acr_framework.Json.{Json, Fields}

pub data ApprovalStatus : Type 0 where
  pending approved denied overridden timed_out : ApprovalStatus

-- The values of the column `decision`.
pub data Outcome : Type 0 where
  is_approved is_denied is_overridden : Outcome

-- A row of approval_requests; times are in seconds. The column risk_tier always has its default.
pub record ApprovalRecord : Type 0 where
  pub request_id : String
  pub correlation_id : String
  pub agent_id : String
  pub tool_name : String
  pub parameters : Fields
  pub description : Option Json
  pub approval_queue : String
  pub status : ApprovalStatus
  pub decision : Option Outcome
  pub decided_by : Option String
  pub decision_reason : Option String
  pub sla_minutes : ℕ
  pub expires_at : Option ℕ
  pub decided_at : Option ℕ
  pub execution_result : Option Fields

abbrev pub ApprovalTable : Type 0
ApprovalTable = List ApprovalRecord

abbrev pub request_key : ApprovalRecord → String
request_key r = r.request_id

-- The arguments of `create_approval_request`.
pub record NewApproval : Type 0 where
  pub correlation_id : String
  pub agent_id : String
  pub tool_name : String
  pub parameters : Fields
  pub description : Option Json
  pub approval_queue : String
  pub sla_minutes : ℕ

abbrev pub expiry : ℕ → ℕ → Option ℕ
expiry now sla_minutes = if ltb 0 sla_minutes then some (now + sla_minutes * 60) else none

pub new_approval : ℕ → String → NewApproval → ApprovalRecord
new_approval now request_id n = record {
  request_id = request_id;
  correlation_id = n.correlation_id;
  agent_id = n.agent_id;
  tool_name = n.tool_name;
  parameters = n.parameters;
  description = n.description;
  approval_queue = n.approval_queue;
  status = pending;
  decision = none;
  decided_by = none;
  decision_reason = none;
  sla_minutes = n.sla_minutes;
  expires_at = expiry now n.sla_minutes;
  decided_at = none;
  execution_result = none;
}

-- The identifier is a fresh uuid. The webhook that may follow cannot fail the request.
pub create_approval_request :
    ℕ → String → NewApproval → ApprovalTable → ApprovalRecord × ApprovalTable
unfolding new_approval
create_approval_request now request_id n db =
    (new_approval now request_id n, db ++ new_approval now request_id n ∷ [])

or_not_found : Option ApprovalRecord → Result ApprovalRecord
or_not_found none = err approval_not_found
or_not_found (some r) = ok r

unfoldable pub get_approval_request : ApprovalTable → String → Result ApprovalRecord
unfolding or_not_found
get_approval_request db request_id = or_not_found (find request_key request_id db)

abbrev pub is_pending : ApprovalStatus → Bool
is_pending pending = true
is_pending _ = false

-- The rows of a table stand in the order of their creation.
pub list_pending_approvals : ApprovalTable → List ApprovalRecord
list_pending_approvals db = where_rows (λ r. is_pending r.status) db

-- The fields that a decision writes.
unfoldable pub decide :
    ApprovalStatus → Outcome → String → Option String → ℕ → ApprovalRecord → ApprovalRecord
decide status outcome by reason now r = record r {
  status = status;
  decision = some outcome;
  decided_by = some by;
  decision_reason = reason;
  decided_at = some now;
}

-- What `approve`, `deny` and `override` have in common, under a lock on the row.
unfoldable pub settle :
    ApprovalStatus
    → Outcome
    → ℕ
    → ApprovalTable
    → String
    → String
    → Option String
    → Result (ApprovalRecord × ApprovalTable)
unfolding decide get_approval_request
settle status outcome now db request_id by reason = do
  r ← get_approval_request db request_id
  guard (is_pending r.status) approval_conflict
  ok (
    decide status outcome by reason now r,
    update request_key request_id (decide status outcome by reason now) db,
  )

unfoldable pub approve :
    ℕ → ApprovalTable → String → String → Option String → Result (ApprovalRecord × ApprovalTable)
unfolding settle
approve now db request_id by reason = settle approved is_approved now db request_id by reason

pub deny :
    ℕ → ApprovalTable → String → String → Option String → Result (ApprovalRecord × ApprovalTable)
unfolding settle
deny now db request_id by reason = settle denied is_denied now db request_id by reason

pub override :
    ℕ → ApprovalTable → String → String → String → Result (ApprovalRecord × ApprovalTable)
unfolding settle
override now db request_id by reason =
    settle overridden is_overridden now db request_id by (some reason)

-- What `execute_approval` writes in the row, once the executor has answered: the result, whatever the
-- row's status is.
abbrev pub executed : Fields → ApprovalRecord → ApprovalRecord
executed result r = record r { execution_result = some result }

unfoldable pub record_execution : ApprovalTable → String → Fields → ApprovalTable
record_execution db request_id result = update request_key request_id (executed result) db

abbrev pub has_expired : ℕ → Option ℕ → Bool
has_expired now none = false
has_expired now (some t) = leb t now

-- The query of the expiry loop.
pub is_due : ℕ → ApprovalRecord → Bool
is_due now r = is_pending r.status && has_expired now r.expires_at

abbrev pub expiry_reason : String
expiry_reason = "Approval SLA expired — auto-denied"

pub time_out : ℕ → ApprovalRecord → ApprovalRecord
unfolding is_due
time_out now r =
    if is_due now r
    then record r {
      status = timed_out;
      decision = some is_denied;
      decision_reason = some expiry_reason;
      decided_at = some now;
    }
    else r

pub expire_timed_out_approvals : ℕ → ApprovalTable → ℕ × ApprovalTable
unfolding time_out is_due
expire_timed_out_approvals now db = (count_if (is_due now) db, map (time_out now) db)
