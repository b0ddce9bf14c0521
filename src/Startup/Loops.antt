-- ===== src/Startup/Loops.antt =====
-- main.py: one round of each loop that the application launches, and its readiness. A round whose
-- query or commit fails is rolled back, and the loop goes on.
use acr_framework.Prelude.{
  ℕ, ◌+◌, ltb, String, Bool, not, ◌&&◌, List, [], ◌∷◌, if◌then◌else◌, where_rows, ◌*◌,
}
use acr_framework.Prelude.Int.{ℤ, pos, negsuc}
use acr_framework.Identity.Registry.{AgentTable, sweep_stale_heartbeats}
use acr_framework.Authority.Approval.{ApprovalTable, expire_timed_out_approvals}
use acr_framework.Drift.Baseline.{Sample}

-- `_approval_expiry_loop`
pub approval_expiry_round : Bool → ℕ → ApprovalTable → ApprovalTable
approval_expiry_round fails now db = if fails then db else (expire_timed_out_approvals now db).1

-- `_heartbeat_sweep_loop`: a threshold of 0 or less turns the loop off.
pub heartbeat_sweep_round : Bool → ℤ → ℕ → AgentTable → AgentTable
heartbeat_sweep_round fails (negsuc threshold) now db = db
heartbeat_sweep_round fails (pos threshold) now db =
    if ltb 0 threshold && not fails then (sweep_stale_heartbeats now threshold db).1 else db

-- `created_at < cutoff`, for the cutoff of 90 days ago.
abbrev is_outdated : ℕ → ℕ → Bool
is_outdated now created_at = ltb (created_at + 90 * 86400) now

-- `_retention_loop`, on the events, of which `created` gives the times, and on the samples: one
-- transaction.
pub retention_round :
    {E : Type 0} → (E → ℕ) → Bool → ℕ → List E × List Sample → List E × List Sample
retention_round created fails now (events, samples) = if fails then (events, samples) else (
  where_rows (λ e. not (is_outdated now (created e))) events,
  where_rows (λ s. not (is_outdated now s.created_at)) samples,
)

pub record Readiness : Type 0 where
  pub status_code : ℕ
  pub checks : List (String × Bool)

-- GET /acr/ready: whether the database, Redis and the policy engine answer.
pub ready : Bool → Bool → Bool → Readiness
ready database redis opa = record {
  status_code = if database && redis && opa then 200 else 503;
  checks = ("database", database) ∷ ("redis", redis) ∷ ("opa", opa) ∷ [];
}
