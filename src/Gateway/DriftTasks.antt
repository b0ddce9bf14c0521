-- ===== src/Gateway/DriftTasks.antt =====
-- gateway/router.py: the work on an agent's drift that a request leaves to the background.
pub mod Quiet
pub mod Due
use acr_framework.Prelude.{
  ℕ, suc, ◌+◌, ◌*◌, ◌%◌, ltb, leb, eqb, not, String, Bool, true, false, ◌&&◌, Option, none, some,
  List, [], ◌∷◌, ◌++◌, ◌==◌, if◌then◌else◌, length, where_rows, count_if, ◌||◌,
}
use acr_framework.Prelude.Int.{ℤ, pos}
use acr_framework.Errors.{Result, ok, err, ◌>>=◌}
use acr_framework.Json.{Fields}
use acr_framework.Redis.{Redis, Entry, live, put, set_ex}
use acr_framework.Drift.Signals.{Floats}
use acr_framework.Drift.Baseline.{Sample, Counts, record_metric_sample}
use acr_framework.Drift.Governance.{DriftState}
use acr_framework.Drift.Detector.{DriftScore, CheckState, run_drift_check}
use acr_framework.Containment.Graduated.{Surroundings, ContainmentState}

-- The outside of a task: that of the graduated response, and which other calls fail.
pub record TaskOutside : Type 0 where
  pub env : Surroundings
  pub flush_fails : Bool
  pub commit_fails : Bool
  pub incr_fails : Bool
  pub expire_fails : Bool
  pub cache_fails : Bool

-- `_record_drift_sample`: nothing is stored when the flush or the commit fails.
unfoldable pub record_drift_sample :
    TaskOutside → String → String → Bool → ℕ → CheckState → CheckState
unfolding record_metric_sample
record_drift_sample o a tool policy_denied latency_ms w =
    if o.flush_fails || o.commit_fails then w else record w {
      drift = record w.drift {
        samples =
            record_metric_sample o.env.now a (some tool) policy_denied (some latency_ms)
              w.drift.samples;
      };
    }

-- INCR: the TTL of the key stays.
incr : ℕ → Option (Entry ℕ) → Entry ℕ
incr now none = record { value = 1; expires = none }
incr now (some e) = elim (live now (some e)) [
  | none ↦ record { value = 1; expires = none }
  | some k ↦ record { value = suc k; expires = e.expires }
]

-- _DRIFT_CHECK_EVERY_N
abbrev drift_check_every_n : ℕ
drift_check_every_n = 10

-- `_should_run_drift_check`, with the counter it leaves.
unfoldable pub should_run_drift_check : TaskOutside → String → Redis → Bool × Redis
unfolding incr
should_run_drift_check o a r =
    if not o.env.connected || o.incr_fails
    then (false, r)
    else (let counted = incr o.env.now (r.drift_counter a) in
        if o.expire_fails
        then (false, record r { drift_counter = put a (some counted) r.drift_counter })
        else (
          eqb (counted.value % drift_check_every_n) 0,
          record r { drift_counter = put a (set_ex o.env.now 3600 counted.value) r.drift_counter },
        ))

-- After a rollback Redis is the only trace.
abbrev rolled_back : CheckState → CheckState → CheckState
rolled_back w left = record w {
  containment = record w.containment { redis = left.containment.redis };
}

module _ (n : Floats) (formulas : Counts → Fields) where
  -- The score is cached for five minutes.
  cache_score : TaskOutside → String → DriftScore n → CheckState → CheckState
  cache_score o a d w =
      if o.env.connected && d.is_baseline_ready && not o.cache_fails
      then record w {
        containment = record w.containment {
          redis = record w.containment.redis {
            drift_score =
                put a (set_ex o.env.now 300 (pos d.score)) w.containment.redis.drift_score;
          };
        };
      }
      else w

  -- The commit, and the cache after it.
  commit_check : TaskOutside → String → DriftScore n → CheckState → CheckState → CheckState
  unfolding cache_score
  commit_check o a d w left = if o.commit_fails then rolled_back w left else cache_score o a d left

  -- The outcome of the check; an exception is logged, and the session is rolled back.
  close_check : TaskOutside → String → CheckState → Result (DriftScore n) × CheckState → CheckState
  unfolding commit_check
  close_check o a w (ok d, left) = commit_check o a d w left
  close_check o a w (err _, left) = rolled_back w left

  -- `_run_drift_check`
  unfoldable pub drift_check_task : TaskOutside → String → CheckState → CheckState
  unfolding close_check run_drift_check
  drift_check_task o a w = close_check o a w (run_drift_check n o.env formulas a w)

  unfoldable pub run_if_due : TaskOutside → String → CheckState → Bool × Redis → CheckState
  unfolding drift_check_task
  run_if_due o a w (due, redis) =
      let counted = record w { containment = record w.containment { redis = redis } } in
      if due then drift_check_task o a counted else counted

  -- `_maybe_run_drift_check`
  unfoldable pub maybe_run_drift_check : TaskOutside → String → CheckState → CheckState
  unfolding should_run_drift_check run_if_due
  maybe_run_drift_check o a w = run_if_due o a w (should_run_drift_check o a w.containment.redis)
