-- ===== src/Drift/Detector/Quiet.antt =====
-- Drift checks of agents whose baseline is not ready.
use acr_framework.Prelude.{
  inl, inr, refl, ◌≡◌, ℕ, String, true, false, none, some, List, [], ◌∷◌, All, ltb, arith,
  where_rows, Option-cases, All-append,
}
use acr_framework.Prelude.Table.{find}
use acr_framework.Errors.{ok}
use acr_framework.Json.{Fields}
use acr_framework.Drift.Signals.{Floats}
use acr_framework.Drift.Baseline.{Baseline, baseline_key, get_or_create_baseline, Counts}
use acr_framework.Drift.Governance.{
  DriftState, BaselineVersion, is_active, is_active_of, get_active_baseline_version,
}
use acr_framework.Drift.Detector.{
  DriftScore, CheckState, compute_drift_score, run_drift_check, min_baseline_samples, respond,
  not_ready,
}
use acr_framework.Containment.Graduated.{Surroundings}

abbrev pub HasFew : Baseline → Type 0
HasFew b = ltb b.sample_count min_baseline_samples ≡ true

abbrev pub IsIdle : BaselineVersion → Type 0
IsIdle v = is_active v ≡ false

-- No live baseline has 30 samples, and no version is active.
unfoldable pub IsUnready : DriftState → Type 0
IsUnready s = All HasFew s.baselines × All IsIdle s.versions

find-HasFew :
    (a : String) (rows : List Baseline) {b : Baseline}
    → All HasFew rows
    → find baseline_key a rows ≡ some b
    → HasFew b
unfolding find
find-HasFew a [] few e = ground arith
find-HasFew a (r ∷ rows) {b = c} few e = ground (arith, find-HasFew a rows {b = c} few.1)

created-HasFew :
    (now : ℕ) (a : String) (rows : List Baseline)
    → All HasFew rows
    → HasFew (get_or_create_baseline now a rows).0
      × All HasFew (get_or_create_baseline now a rows).1
unfolding get_or_create_baseline
created-HasFew now a rows few = elim (Option-cases (find baseline_key a rows)) [
  | inl absent ↦ rw (get_or_create_baseline, absent) (refl, All-append HasFew rows _ few (refl, tt))
  | inr (b, found) ↦ rw (get_or_create_baseline, found) (find-HasFew a rows few found, few)
]

no_active :
    (a : String) (rows : List BaselineVersion)
    → All IsIdle rows
    → where_rows (is_active_of a) rows ≡ []
unfolding where_rows
no_active a [] idle = refl
no_active a (r ∷ rows) idle = ground (arith, no_active a rows idle.1)

module _ (n : Floats) (formulas : Counts → Fields) where
  compute-IsUnready :
      (now : ℕ) (a : String) (s : DriftState)
      → IsUnready s
      → (d : DriftScore n) × (s' : DriftState) × (compute_drift_score n formulas now a s
          ≡ ok (d, s'))
        × (d.is_baseline_ready ≡ false)
        × IsUnready s'
  unfolding compute_drift_score get_active_baseline_version IsUnready
  compute-IsUnready now a s (few, idle) =
      let (one, all) = created-HasFew now a s.baselines few in
      (
        not_ready n a (get_or_create_baseline now a s.baselines).0.sample_count none none,
        record s { baselines = (get_or_create_baseline now a s.baselines).1 },
        rw (no_active a s.versions idle, one) refl,
        refl,
        (all, idle),
      )

  unready_stops :
      (env : Surroundings) (a : String) (w : CheckState) (d : DriftScore n) (s' : DriftState)
      → compute_drift_score n formulas env.now a w.drift ≡ ok (d, s')
      → d.is_baseline_ready ≡ false
      → run_drift_check n env formulas a w ≡ (ok d, record w { drift = s' })
  unfolding run_drift_check
  unready_stops env a w d s' computed off = rw (run_drift_check, computed, respond, off) refl

  pub check-IsUnready :
      (env : Surroundings) (a : String) (w : CheckState)
      → IsUnready w.drift
      → (d : DriftScore n) × (s' : DriftState) × (run_drift_check n env formulas a w
          ≡ (ok d, record w { drift = s' }))
        × (d.is_baseline_ready ≡ false)
        × IsUnready s'
  check-IsUnready env a w unready =
      let (d, s', computed, off, still) = compute-IsUnready env.now a w.drift unready in
      (d, s', unready_stops env a w d s' computed off, off, still)
