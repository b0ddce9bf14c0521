-- ===== src/Drift/Governance/History.antt =====
-- Any history of calls on the versions of baselines.
use acr_framework.Prelude.{
  Bool, true, false, not, eqb, if◌then◌else◌, ◌||◌, ℕ, String, ◌≡◌, refl, Option, none, some, List,
  [], ◌∷◌,
}
use acr_framework.Errors.{◌>>=◌, guard, baseline_not_found, Result, ok, err}
use acr_framework.Json.{truthy, obj, Fields}
use acr_framework.Drift.Baseline.{Counts, Baseline, recompute_baseline, reset_baseline}
use acr_framework.Drift.Governance.{
  DriftState, BaselineVersion, propose_baseline_version, approve_baseline_version,
  reject_baseline_version, activate_baseline_version, sync_baseline_from_active_version,
  get_baseline_version, approve_row, reject_row, is_version, new_version,
  get_active_baseline_version, insert_version, may_activate,
}
use acr_framework.Drift.Governance.Sole.{
  IsGoverned, reviewed-IsGoverned, activated_rows-IsGoverned, insert_version-IsGoverned,
  approve_row_key, approve_row_off, reject_row_key, reject_row_off,
}

pub data Call : Type 0 where
  propose : (id a actor : String) → ℕ → Option String → Call
  approve reject activate : (a v actor : String) → Option String → Call
  sync reset : String → Call
  recompute : ℕ → String → Call

abbrev left_by : DriftState → Result DriftState → DriftState
left_by s (ok s') = s'
left_by s (err e) = s

abbrev synced : DriftState → Result (Option Baseline × DriftState) → DriftState
synced s (ok (b, s')) = s'
synced s (err e) = s

-- A call that looks something up, and then goes on or raises.
kept :
    {V : Type 0} (s : DriftState) (r : Result V) (k : V → Result DriftState)
    → ((x : V) → r ≡ ok x → IsGoverned (left_by s (k x)).versions)
    → IsGoverned s.versions
    → IsGoverned (left_by s (r >>= k)).versions
kept s (ok x) k h g = h x refl
kept s (err e) k h g = g

kept_unless :
    (s : DriftState) (b : Bool) (k : Result DriftState)
    → IsGoverned (left_by s k).versions
    → IsGoverned s.versions
    → IsGoverned (left_by s (if b then err baseline_not_found else k)).versions
kept_unless s true k h g = g
kept_unless s false k h g = h

kept_sync :
    (now : ℕ) (a : String) (s : DriftState) (r : Result (Option BaselineVersion))
    → get_active_baseline_version a s.versions ≡ r
    → IsGoverned s.versions
    → IsGoverned (synced s (sync_baseline_from_active_version now a s)).versions
unfolding sync_baseline_from_active_version
kept_sync now a s (ok none) e g = rw e g
kept_sync now a s (ok (some x)) e g = rw e g
kept_sync now a s (err x) e g = rw e g

module _ (formulas : Counts → Fields) where
  -- The state after a call at a time; a call that raises is rolled back.
  pub run : ℕ → Call → DriftState → DriftState
  run now (propose id a actor days notes) s =
      left_by s (propose_baseline_version formulas now id a actor days notes s)
  run now (approve a v actor notes) s = left_by s (approve_baseline_version now a v actor notes s)
  run now (reject a v actor notes) s = left_by s (reject_baseline_version now a v actor notes s)
  run now (activate a v actor notes) s = left_by s (activate_baseline_version now a v actor notes s)
  run now (sync a) s = synced s (sync_baseline_from_active_version now a s)
  run now (reset a) s = record s { baselines = (reset_baseline now a s.baselines).1 }
  run now (recompute days a) s = record s {
    baselines = (recompute_baseline formulas now days a s.samples s.baselines).1;
  }

  pub run_all : List (ℕ × Call) → DriftState → DriftState
  unfolding run
  run_all [] s = s
  run_all ((now, c) ∷ cs) s = run_all cs (run now c s)

  -- The versions after a call are governed if those before it are.
  run-IsGoverned :
      (now : ℕ) (c : Call) (s : DriftState)
      → IsGoverned s.versions
      → IsGoverned (run now c s).versions
  unfolding run propose_baseline_version approve_baseline_version reject_baseline_version
      activate_baseline_version
  run-IsGoverned now (propose id a actor days notes) s g =
      let b = (recompute_baseline formulas now days a s.samples s.baselines).0 in
      let r = new_version id a days notes actor b in
      kept_unless s (eqb b.sample_count 0 || not (truthy (obj b.baseline_data))) _
        (kept s (insert_version r s.versions) _
          (λ rows e. insert_version-IsGoverned r s.versions rows refl e g) g)
        g
  run-IsGoverned now (approve a v actor notes) s g =
      kept s (get_baseline_version a v s.versions) _
        (λ r e.
          reviewed-IsGoverned (is_version a v) (approve_row now actor notes) s.versions
            (approve_row_key now actor notes) (approve_row_off now actor notes) g)
        g
  run-IsGoverned now (reject a v actor notes) s g =
      kept s (get_baseline_version a v s.versions) _
        (λ r e.
          reviewed-IsGoverned (is_version a v) (reject_row now actor notes) s.versions
            (reject_row_key now actor notes) (reject_row_off now actor notes) g)
        g
  run-IsGoverned now (activate a v actor notes) s g =
      kept s (get_baseline_version a v s.versions) _
        (λ r e.
          kept s (guard (may_activate r.status) baseline_not_found) _
            (λ _ _. activated_rows-IsGoverned now a v actor notes s.versions g) g)
        g
  run-IsGoverned now (sync a) s g =
      kept_sync now a s (get_active_baseline_version a s.versions) refl g
  run-IsGoverned now (reset a) s g = g
  run-IsGoverned now (recompute days a) s g = g

  -- After any calls, at any times, identifiers of versions are unique and no agent has two active
  -- versions, if this holds before them.
  pub run_all-IsGoverned :
      (cs : List (ℕ × Call)) (s : DriftState)
      → IsGoverned s.versions
      → IsGoverned (run_all cs s).versions
  unfolding run_all
  run_all-IsGoverned [] s g = g
  run_all-IsGoverned ((now, c) ∷ cs) s g =
      run_all-IsGoverned cs (run now c s) (run-IsGoverned now c s g)
