-- ===== src/Tests/Drift.antt =====
-- Two versions of a baseline, one of them in force.
use acr_framework.Prelude.{
  ℕ, String, ◌≡◌, refl, true, none, some, List, [], ◌∷◌, arith, contains, count_if, where_rows,
}
use acr_framework.Prelude.Table.{find}
use acr_framework.Errors.{ok}
use acr_framework.Json.{int, end, field}
use acr_framework.Prelude.Int.{pos}
use acr_framework.Drift.Baseline.{Baseline, baseline_key, write_baseline}
use acr_framework.Drift.Governance.{
  DriftState, BaselineVersion, VersionStatus, approved, active, activated_rows, activate_row,
  take_data, may_activate, get_baseline_version, get_active_baseline_version,
  activate_baseline_version,
}
use acr_framework.Drift.Governance.Sole.{IsGoverned}
use acr_framework.Drift.Governance.History.{Call, activate, reject, run_all, run_all-IsGoverned}
use acr_framework.Drift.Governance.Activation.{activate_lem}

abbrev pub version : String → VersionStatus → BaselineVersion
version id status = record {
  baseline_version_id = id;
  agent_id = "bot";
  baseline_data = field "count" (int (pos 40)) end;
  sample_count = 40;
  window_days = 30;
  status = status;
  notes = none;
  created_by = some "ann";
  approved_by = none;
  approved_at = none;
  activated_by = none;
  activated_at = none;
  rejected_by = none;
  rejected_at = none;
}

abbrev two : DriftState
two = record {
  samples = [];
  baselines = [];
  versions = version "blv-1" active ∷ version "blv-2" approved ∷ [];
}

two-IsGoverned : IsGoverned two.versions
unfolding contains count_if
two-IsGoverned = record { unique = (refl, (refl, tt)); sole = λ a. ground arith }

abbrev calls : List (ℕ × Call)
calls = (5, activate "bot" "blv-2" "ann" none) ∷ (9, reject "bot" "blv-1" "ann" none) ∷ []

run_all-IsGoverned_example : IsGoverned (run_all (λ c. end) calls two).versions
run_all-IsGoverned_example = run_all-IsGoverned (λ c. end) calls two two-IsGoverned

abbrev switched : DriftState
switched = record two {
  baselines = (write_baseline 5 "bot" (take_data 5 (version "blv-2" approved)) []).1;
  versions = activated_rows 5 "bot" "blv-2" "ann" none two.versions;
}

activate_lem_example :
    (r : BaselineVersion) × (get_baseline_version "bot" "blv-2" two.versions ≡ ok r)
    × (may_activate r.status ≡ true)
    × (get_active_baseline_version "bot" switched.versions
        ≡ ok (some (activate_row 5 "ann" none r)))
    × ((b : Baseline) × (find baseline_key "bot" switched.baselines ≡ some b)
        × (b.baseline_data ≡ r.baseline_data)
        × (b.sample_count ≡ r.sample_count))
unfolding activate_baseline_version get_baseline_version where_rows
activate_lem_example = activate_lem 5 "bot" "blv-2" "ann" none two switched refl
