-- ===== src/Drift/Detector.antt =====
-- pillar3_drift/detector.py: the drift score of an agent, and the check that hands it to the
-- graduated response. A score is a number of ten-thousandths, since it is rounded to four decimals.
pub mod Bounds
pub mod Quiet
use acr_framework.Prelude.{
  ℕ, ◌+◌, ◌*◌, ltb, leb, String, Bool, true, false, ◌&&◌, Option, none, some, List, [], ◌∷◌, ◌==◌,
  if◌then◌else◌, length, where_rows, count_if,
}
use acr_framework.Errors.{Result, ok, err, ◌>>=◌}
use acr_framework.Exec.{Exec}
use acr_framework.Json.{Fields}
use acr_framework.Drift.Signals.{
  Floats, RawMetrics, DriftSignal, compute_signals, composite_drift_score,
}
use acr_framework.Drift.Baseline.{
  Sample, Baseline, Counts, tool_counts, is_error, get_or_create_baseline, recompute_baseline,
}
use acr_framework.Drift.Governance.{
  DriftState, BaselineVersion, VersionStatus, get_active_baseline_version,
}
use acr_framework.Containment.Graduated.{
  Surroundings, ContainmentState, ContainmentAction, apply_graduated_response,
}

-- MIN_BASELINE_SAMPLES
abbrev pub min_baseline_samples : ℕ
min_baseline_samples = 30

-- The database session and Redis.
pub record CheckState : Type 0 where
  pub drift : DriftState
  pub containment : ContainmentState

module _ (n : Floats) where
  pub record DriftScore : Type 0 where
    pub agent_id : String
    pub score : ℕ
    pub signals : List (DriftSignal n)
    pub sample_count : ℕ
    pub is_baseline_ready : Bool
    pub baseline_version_id : Option String
    pub baseline_status : Option VersionStatus

  -- `created_at >= utcnow() - timedelta(minutes=window_minutes)`
  abbrev is_recent : ℕ → ℕ → String → Sample → Bool
  is_recent now window_minutes a s = s.agent_id == a && leb now (s.created_at + window_minutes * 60)

  metrics_of : ℕ → List Sample → RawMetrics n
  unfolding tool_counts
  metrics_of window_minutes [] = record {
    tool_calls_per_minute = n.lit 0;
    denial_rate = n.lit 0;
    error_rate = n.lit 0;
    action_diversity = n.lit 0;
  }
  metrics_of window_minutes (first ∷ rest) =
      let samples = first ∷ rest in
      record {
        tool_calls_per_minute = n.ratio (length samples) window_minutes;
        denial_rate = n.ratio (count_if (λ s. s.policy_denied) samples) (length samples);
        error_rate = n.ratio (count_if is_error samples) (length samples);
        action_diversity = n.diversity (tool_counts samples []) (length samples);
      }

  collect_recent_metrics : ℕ → ℕ → String → List Sample → RawMetrics n
  unfolding metrics_of
  collect_recent_metrics now window_minutes a samples =
      metrics_of window_minutes (where_rows (is_recent now window_minutes a) samples)

  abbrev pub not_ready : String → ℕ → Option String → Option VersionStatus → DriftScore
  not_ready a count version status = record {
    agent_id = a;
    score = 0;
    signals = [];
    sample_count = count;
    is_baseline_ready = false;
    baseline_version_id = version;
    baseline_status = status;
  }

  -- The score against a baseline's data.
  score_against :
      ℕ
      → String
      → Fields
      → ℕ
      → Option String
      → Option VersionStatus
      → DriftState
      → Result (DriftScore × DriftState)
  unfolding collect_recent_metrics compute_signals
  score_against now a baseline_data count version status s = do
    signals ← compute_signals n (collect_recent_metrics now 60 a s.samples) baseline_data
    ok (
      record {
        agent_id = a;
        score = n.round4 (composite_drift_score n signals);
        signals = signals;
        sample_count = count;
        is_baseline_ready = true;
        baseline_version_id = version;
        baseline_status = status;
      },
      s,
    )

  score_version : ℕ → String → BaselineVersion → DriftState → Result (DriftScore × DriftState)
  unfolding score_against
  score_version now a v s =
      if ltb v.sample_count min_baseline_samples
      then ok (not_ready a v.sample_count (some v.baseline_version_id) (some v.status), s)
      else score_against now a v.baseline_data v.sample_count (some v.baseline_version_id)
          (some v.status) s

  -- Without an active version: the live baseline, which is recomputed over 30 days.
  score_live : (Counts → Fields) → ℕ → String → DriftState → Result (DriftScore × DriftState)
  unfolding score_against get_or_create_baseline recompute_baseline
  score_live formulas now a s =
      let (b, rows) = get_or_create_baseline now a s.baselines in
      if ltb b.sample_count min_baseline_samples
      then ok (not_ready a b.sample_count none none, record s { baselines = rows })
      else (let (b', rows') = recompute_baseline formulas now 30 a s.samples rows in
          score_against now a b'.baseline_data b'.sample_count none none
            (record s { baselines = rows' }))

  score_found :
      (Counts → Fields)
      → ℕ
      → String
      → DriftState
      → Option BaselineVersion
      → Result (DriftScore × DriftState)
  unfolding score_version score_live
  score_found formulas now a s none = score_live formulas now a s
  score_found formulas now a s (some v) = score_version now a v s

  unfoldable pub compute_drift_score :
      (Counts → Fields) → ℕ → String → DriftState → Result (DriftScore × DriftState)
  unfolding score_found get_active_baseline_version
  compute_drift_score formulas now a s =
      get_active_baseline_version a s.versions >>= score_found formulas now a s

  -- The outcome of the graduated response: its exception is the check's.
  responded :
      DriftScore
      → DriftState
      → Result (Option ContainmentAction) × ContainmentState
      → Result DriftScore × CheckState
  responded d s (ok _, c) = (ok d, record { drift = s; containment = c })
  responded d s (err e, c) = (err e, record { drift = s; containment = c })

  unfoldable pub respond :
      Surroundings → String → DriftScore → DriftState → Exec CheckState DriftScore
  unfolding responded apply_graduated_response
  respond env a d s w =
      if d.is_baseline_ready && ltb 0 d.score
      then responded d s (apply_graduated_response env a d.score none w.containment)
      else (ok d, record w { drift = s })

  unfoldable pub run_drift_check :
      Surroundings → (Counts → Fields) → String → Exec CheckState DriftScore
  unfolding compute_drift_score respond
  run_drift_check env formulas a w = elim (compute_drift_score formulas env.now a w.drift) [
    | err e ↦ (err e, w)
    | ok (d, s) ↦ respond env a d s w
  ]
