-- ===== src/Drift/Detector/Bounds.antt =====
-- The range of the scores that the detector computes, and what a check does with one.
use acr_framework.Prelude.{
  Bool-cases, inl, inr, refl, ◌≡◌, ◌≤◌, ◌<◌, ◌⊎◌, ℕ, String, true, false, Option, none, some, List,
  [], ◌∷◌, ◌++◌, ltb, arith, ◌&&◌,
}
use mathlib.Core.Path.{subst}
use acr_framework.Json.{Fields}
use acr_framework.Errors.{Result, ok, err, ◌>>=◌}
use acr_framework.Drift.Signals.{
  Floats, IsOrdered, IsShare, composite-IsShare, composite_drift_score, DriftSignal,
  compute_signals,
}
use acr_framework.Drift.Baseline.{Counts, get_or_create_baseline, recompute_baseline}
use acr_framework.Drift.Governance.{
  DriftState, BaselineVersion, get_active_baseline_version, VersionStatus,
}
use acr_framework.Drift.Detector.{
  DriftScore, CheckState, compute_drift_score, run_drift_check, score_against, score_version,
  score_live, score_found, min_baseline_samples, collect_recent_metrics, respond, responded,
}
use acr_framework.Containment.Graduated.Rows.{response_rows}
use acr_framework.Containment.Graduated.{
  Surroundings, ContainmentAction, ContainmentState, apply_graduated_response, tier_for_score,
  action_for,
}

module _ (n : Floats) where
  -- What a check that returns `d` and leaves `w'` has done.
  pub Answered : Surroundings → String → CheckState → DriftScore n → CheckState → Type 0
  Answered env a w d w' =
      ((w'.containment ≡ w.containment) × ((d.is_baseline_ready ≡ false) ⊎ (d.score < 6000)))
      ⊎ ((d.is_baseline_ready ≡ true)
          × (6000 ≤ d.score)
          × (w'.containment.rows
              ≡ w.containment.rows ++ action_for env (tier_for_score d.score) a d.score none ∷ []))

module _ (n : Floats) (o : IsOrdered n) where
  -- What a computation that does not raise makes true of its score.
  abbrev Bounded : Result (DriftScore n × DriftState) → Type 0
  Bounded (ok (d, s)) = d.score ≤ 10000
  Bounded (err e) = Unit

  rounded_score :
      (signals : List (DriftSignal n)) → n.round4 (composite_drift_score n signals) ≤ 10000
  unfolding IsShare
  rounded_score signals = o.rounded _ (composite-IsShare n signals o).1

  Bounded-bind :
      {V : Type 0} (r : Result V) (k : V → Result (DriftScore n × DriftState))
      → ((v : V) → Bounded (k v))
      → Bounded (r >>= k)
  Bounded-bind (ok v) k h = h v
  Bounded-bind (err e) k h = tt

  against-Bounded :
      (now : ℕ) (a : String) (stats : Fields) (count : ℕ) (id : Option String)
      (status : Option VersionStatus) (s : DriftState)
      → Bounded (score_against n now a stats count id status s)
  unfolding score_against
  against-Bounded now a stats count id status s =
      Bounded-bind (compute_signals n (collect_recent_metrics n now 60 a s.samples) stats) _
        rounded_score

  version-Bounded :
      (now : ℕ) (a : String) (v : BaselineVersion) (s : DriftState)
      → Bounded (score_version n now a v s)
  unfolding score_version
  version-Bounded now a v s = elim (Bool-cases (ltb v.sample_count min_baseline_samples)) [
    | inl e ↦ rw (score_version, e) (omega arith)
    | inr e ↦
        rw (score_version, e)
          (against-Bounded now a v.baseline_data v.sample_count (some v.baseline_version_id)
            (some v.status) s)
  ]

  live-Bounded :
      (formulas : Counts → Fields) (now : ℕ) (a : String) (s : DriftState)
      → Bounded (score_live n formulas now a s)
  unfolding score_live
  live-Bounded formulas now a s =
      let (b, rows) = get_or_create_baseline now a s.baselines in
      let (b', rows') = recompute_baseline formulas now 30 a s.samples rows in
      elim (Bool-cases (ltb b.sample_count min_baseline_samples)) [
        | inl e ↦ rw (score_live, e) (omega arith)
        | inr e ↦
            rw (score_live, e)
              (against-Bounded now a b'.baseline_data b'.sample_count none none
                (record s { baselines = rows' }))
      ]

  found-Bounded :
      (formulas : Counts → Fields) (now : ℕ) (a : String) (s : DriftState)
      (found : Option BaselineVersion)
      → Bounded (score_found n formulas now a s found)
  unfolding score_found
  found-Bounded formulas now a s none = live-Bounded formulas now a s
  found-Bounded formulas now a s (some v) = version-Bounded now a v s

  score-Bounded :
      (formulas : Counts → Fields) (now : ℕ) (a : String) (s : DriftState)
      → Bounded (compute_drift_score n formulas now a s)
  unfolding compute_drift_score
  score-Bounded formulas now a s =
      Bounded-bind (get_active_baseline_version a s.versions) _ (found-Bounded formulas now a s)

  -- The score of a check that returned, and what it left.
  abbrev Sound : Surroundings → String → CheckState → Result (DriftScore n) × CheckState → Type 0
  Sound env a w (ok d, w') = (d.score ≤ 10000) × Answered n env a w d w'
  Sound env a w (err _, w') = Unit

  responded-Sound :
      (env : Surroundings) (a : String) (w : CheckState) (d : DriftScore n) (s : DriftState)
      (r : Result (Option ContainmentAction) × ContainmentState)
      → d.score ≤ 10000
      → d.is_baseline_ready ≡ true
      → ((d.score < 6000) × (r.1 ≡ w.containment))
        ⊎ ((6000 ≤ d.score)
            × (r.1.rows
                ≡ w.containment.rows
                  ++ action_for env (tier_for_score d.score) a d.score none ∷ []))
      → Sound env a w (responded n d s r)
  unfolding responded Answered
  responded-Sound env a w d s (ok _, c) small ready (inl (low, same)) = (small, inl (same, inr low))
  responded-Sound env a w d s (ok _, c) small ready (inr (high, added)) =
      (small, inr (ready, high, added))
  responded-Sound env a w d s (err _, c) small ready rows = tt

  respond-Sound :
      (env : Surroundings) (a : String) (w : CheckState) (d : DriftScore n) (s : DriftState)
      → d.score ≤ 10000
      → Sound env a w (respond n env a d s w)
  unfolding respond Answered
  respond-Sound env a w d s small = elim (Bool-cases (d.is_baseline_ready && ltb 0 d.score)) [
    | inl e ↦
        rw (respond, e)
          (responded-Sound env a w d s (apply_graduated_response env a d.score none w.containment)
            small (ground arith) (response_rows env a d.score none w.containment))
    | inr e ↦ rw (respond, e) (small, inl (refl, quiet e))
  ]
    where
      quiet :
          d.is_baseline_ready && ltb 0 d.score ≡ false
          → (d.is_baseline_ready ≡ false) ⊎ (d.score < 6000)
      quiet e = ground arith

  check-Sound :
      (env : Surroundings) (formulas : Counts → Fields) (a : String) (w : CheckState)
      (r : Result (DriftScore n × DriftState))
      → compute_drift_score n formulas env.now a w.drift ≡ r
      → Bounded r
      → Sound env a w (run_drift_check n env formulas a w)
  unfolding run_drift_check
  check-Sound env formulas a w (ok (d, s)) e small =
      rw (run_drift_check, e) (respond-Sound env a w d s small)
  check-Sound env formulas a w (err x) e small = rw (run_drift_check, e) tt

-- A check that returns a score returns one of at most 10000 ten-thousandths, whatever the metrics and
-- the baselines are; the containment is unchanged if the baseline is not ready or the score is below
-- 6000, and else one row is added, of the tier of that score for that agent.
pub run_drift_check_lem :
    (n : Floats) (o : IsOrdered n) (env : Surroundings) (formulas : Counts → Fields) (a : String)
    (w w' : CheckState) (d : DriftScore n)
    → run_drift_check n env formulas a w ≡ (ok d, w')
    → (d.score ≤ 10000) × Answered n env a w d w'
run_drift_check_lem n o env formulas a w w' d returned =
    subst (Sound n o env a w) returned
      (check-Sound n o env formulas a w _ refl (score-Bounded n o formulas env.now a w.drift))
