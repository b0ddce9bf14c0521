-- ===== src/Gateway/DriftTasks/Quiet.antt =====
-- Histories of the background tasks, from a state where no agent has a baseline that is ready.
use acr_framework.Prelude.{
  inl, inr, refl, ◌≡◌, ℕ, String, Bool, true, false, Option, some, List, [], ◌∷◌, Bool-cases, not,
  ◌||◌, ◌∙◌,
}
use acr_framework.Json.{Fields}
use acr_framework.Redis.{Redis, Entry}
use acr_framework.Drift.Signals.{Floats}
use acr_framework.Drift.Baseline.{Counts}
use acr_framework.Drift.Governance.{DriftState}
use acr_framework.Drift.Detector.{DriftScore, CheckState}
use acr_framework.Drift.Detector.Quiet.{IsUnready, check-IsUnready}
use acr_framework.Containment.Graduated.{ContainmentState}
use acr_framework.Gateway.DriftTasks.{
  TaskOutside, record_drift_sample, should_run_drift_check, drift_check_task, maybe_run_drift_check,
  commit_check, run_if_due, incr, cache_score, put, set_ex,
}

pub data Task : Type 0 where
  sample : TaskOutside → String → String → Bool → ℕ → Task
  check : TaskOutside → String → Task

-- Only the counters of the checks may differ.
pub Counted : ContainmentState → ContainmentState → Type 0
Counted c c' =
    (counters : String → Option (Entry ℕ)) × (c'
      ≡ record c { redis = record c.redis { drift_counter = counters } })

pub Quiet : CheckState → CheckState → Type 0
unfolding Counted
Quiet w w' = IsUnready w'.drift × Counted w.containment w'.containment

Quiet-trans : (w w' w'' : CheckState) → Quiet w w' → Quiet w' w'' → Quiet w w''
unfolding Quiet Counted
Quiet-trans w w' w'' (_, (_, first)) (still, (counters, second)) =
    (still, (counters, second ∙ rw first refl))

should_run_counts :
    (o : TaskOutside) (a : String) (r : Redis)
    → (counters : String → Option (Entry ℕ)) × ((should_run_drift_check o a r).1
        ≡ record r { drift_counter = counters })
unfolding should_run_drift_check
should_run_counts o a r = elim (Bool-cases (not o.env.connected || o.incr_fails)) [
  | inl e ↦ (r.drift_counter, rw (should_run_drift_check, e) refl)
  | inr e ↦
      let counted = incr o.env.now (r.drift_counter a) in
      elim (Bool-cases o.expire_fails) [
        | inl f ↦ (put a (some counted) r.drift_counter, rw (should_run_drift_check, e, f) refl)
        | inr f ↦ (
          put a (set_ex o.env.now 3600 counted.value) r.drift_counter,
          rw (should_run_drift_check, e, f) refl,
        )
      ]
]

module _ (n : Floats) (formulas : Counts → Fields) where
  pub run : List Task → CheckState → CheckState
  run [] w = w
  run (sample o a tool policy_denied latency_ms ∷ tasks) w =
      run tasks (record_drift_sample o a tool policy_denied latency_ms w)
  run (check o a ∷ tasks) w = run tasks (maybe_run_drift_check n formulas o a w)

  commit-IsUnready :
      (o : TaskOutside) (a : String) (d : DriftScore n) (w : CheckState) (s' : DriftState)
      → d.is_baseline_ready ≡ false
      → IsUnready w.drift
      → IsUnready s'
      → IsUnready (commit_check n formulas o a d w (record w { drift = s' })).drift
        × ((commit_check n formulas o a d w (record w { drift = s' })).containment ≡ w.containment)
  unfolding drift_check_task
  commit-IsUnready o a d w s' off unready still = elim (Bool-cases o.commit_fails) [
    | inl e ↦ rw (commit_check, e) (unready, refl)
    | inr e ↦ elim (Bool-cases o.env.connected) [
      | inl f ↦ rw (commit_check, e, cache_score, f, off) (still, refl)
      | inr f ↦ rw (commit_check, e, cache_score, f) (still, refl)
    ]
  ]

  task-IsUnready :
      (o : TaskOutside) (a : String) (w : CheckState)
      → IsUnready w.drift
      → IsUnready (drift_check_task n formulas o a w).drift
        × ((drift_check_task n formulas o a w).containment ≡ w.containment)
  unfolding drift_check_task
  task-IsUnready o a w unready =
      let (d, s', checked, off, still) = check-IsUnready n formulas o.env a w unready in
      rw (drift_check_task, checked) (commit-IsUnready o a d w s' off unready still)

  if_due-Quiet :
      (o : TaskOutside) (a : String) (w : CheckState) (due : Bool) (r : Redis)
      → (counters : String → Option (Entry ℕ)) × (r
          ≡ record w.containment.redis { drift_counter = counters })
      → IsUnready w.drift
      → Quiet w (run_if_due n formulas o a w (due, r))
  unfolding run_if_due Quiet Counted
  if_due-Quiet o a w false r (counters, same) unready = (unready, (counters, rw same refl))
  if_due-Quiet o a w true r (counters, same) unready =
      let (still, kept) =
        task-IsUnready o a (record w { containment = record w.containment { redis = r } })
          unready in
      (still, (counters, kept ∙ rw same refl))

  -- A check leaves the counters, and nothing else that is outside the baselines.
  maybe_run-Quiet :
      (o : TaskOutside) (a : String) (w : CheckState)
      → IsUnready w.drift
      → Quiet w (maybe_run_drift_check n formulas o a w)
  unfolding maybe_run_drift_check
  maybe_run-Quiet o a w unready =
      if_due-Quiet o a w (should_run_drift_check o a w.containment.redis).0
        (should_run_drift_check o a w.containment.redis).1
        (should_run_counts o a w.containment.redis) unready

  record-Quiet :
      (o : TaskOutside) (a tool : String) (policy_denied : Bool) (latency_ms : ℕ) (w : CheckState)
      → IsUnready w.drift
      → Quiet w (record_drift_sample o a tool policy_denied latency_ms w)
  unfolding record_drift_sample Quiet Counted IsUnready
  record-Quiet o a tool policy_denied latency_ms w unready =
      elim (Bool-cases (o.flush_fails || o.commit_fails)) [
        | inl e ↦ rw (record_drift_sample, e) (unready, (w.containment.redis.drift_counter, refl))
        | inr e ↦ rw (record_drift_sample, e) (unready, (w.containment.redis.drift_counter, refl))
      ]

  -- From a state where no live baseline has 30 samples and no baseline version is active, whatever
  -- samples are stored and whatever checks are run, and whichever calls fail, it stays so: no agent is
  -- contained, no score is cached, and Redis differs in the counters of the checks only.
  pub unready_checks_inert :
      (tasks : List Task) (w : CheckState) → IsUnready w.drift → Quiet w (run tasks w)
  unfolding Quiet Counted run
  unready_checks_inert [] w unready = (unready, (w.containment.redis.drift_counter, refl))
  unready_checks_inert (sample o a tool policy_denied latency_ms ∷ tasks) w unready =
      let first = record-Quiet o a tool policy_denied latency_ms w unready in
      let w' = record_drift_sample o a tool policy_denied latency_ms w in
      Quiet-trans w w' (run tasks w') first (unready_checks_inert tasks w' first.0)
  unready_checks_inert (check o a ∷ tasks) w unready =
      let first = maybe_run-Quiet o a w unready in
      let w' = maybe_run_drift_check n formulas o a w in
      Quiet-trans w w' (run tasks w') first (unready_checks_inert tasks w' first.0)
