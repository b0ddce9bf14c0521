-- ===== src/Drift/Governance/Profile.antt =====
-- `get_baseline_profile` of pillar3_drift/baseline.py: the baseline in force, as it is shown.
use acr_framework.Prelude.{ℕ, String, Bool, true, false, Option, none, some}
use acr_framework.Errors.{Result, ok, ◌>>=◌}
use acr_framework.Json.{Fields}
use acr_framework.Drift.Baseline.{Baseline, get_or_create_baseline}
use acr_framework.Drift.Governance.{
  DriftState, BaselineVersion, VersionStatus, get_active_baseline_version,
}

-- Times are shown in the ISO format of themselves.
pub record BaselineProfile : Type 0 where
  pub agent_id : String
  pub metrics : Fields
  pub sample_count : ℕ
  pub collection_started_at : Option ℕ
  pub last_updated_at : Option ℕ
  pub baseline_version_id : Option String
  pub baseline_status : Option VersionStatus
  pub is_governed : Bool

version_profile : String → BaselineVersion → BaselineProfile
version_profile a v = record {
  agent_id = a;
  metrics = v.baseline_data;
  sample_count = v.sample_count;
  collection_started_at = none;
  last_updated_at = v.activated_at;
  baseline_version_id = some v.baseline_version_id;
  baseline_status = some v.status;
  is_governed = true;
}

live_profile : String → Baseline → BaselineProfile
live_profile a b = record {
  agent_id = a;
  metrics = b.baseline_data;
  sample_count = b.sample_count;
  collection_started_at = b.collection_started_at;
  last_updated_at = some b.last_updated_at;
  baseline_version_id = none;
  baseline_status = none;
  is_governed = false;
}

pub get_baseline_profile : ℕ → String → DriftState → Result (BaselineProfile × DriftState)
unfolding version_profile live_profile
get_baseline_profile now a s = do
  active ← get_active_baseline_version a s.versions
  elim active [
    | some v ↦ ok (version_profile a v, s)
    | none ↦
        let (b, rows) = get_or_create_baseline now a s.baselines in
        ok (live_profile a b, record s { baselines = rows })
  ]
