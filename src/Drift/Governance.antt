-- ===== src/Drift/Governance.antt =====
-- pillar3_drift/governance.py: versions of a baseline that are proposed, reviewed and activated.
pub mod Sole
pub mod History
pub mod Activation
pub mod Profile
use acr_framework.Prelude.{
  ℕ, String, Bool, true, false, not, ◌&&◌, ◌||◌, Option, none, some, List, [], ◌∷◌, ◌++◌, ◌==◌, eqb,
  if◌then◌else◌, map, where_rows,
}
use acr_framework.Prelude.Table.{find}
use acr_framework.Prelude.Change.{change_where}
use acr_framework.Errors.{
  one_or_none, Result, ok, err, ◌>>=◌, ◌>>◌, guard, baseline_not_found, unexpected,
}
use acr_framework.Json.{Fields, truthy, obj}
use acr_framework.Drift.Baseline.{Sample, Baseline, Counts, recompute_baseline, write_baseline}

pub data VersionStatus : Type 0 where
  candidate approved active rejected superseded : VersionStatus

-- A row of drift_baseline_versions.
pub record BaselineVersion : Type 0 where
  pub baseline_version_id : String
  pub agent_id : String
  pub baseline_data : Fields
  pub sample_count : ℕ
  pub window_days : ℕ
  pub status : VersionStatus
  pub notes : Option String
  pub created_by : Option String
  pub approved_by : Option String
  pub approved_at : Option ℕ
  pub activated_by : Option String
  pub activated_at : Option ℕ
  pub rejected_by : Option String
  pub rejected_at : Option ℕ

abbrev pub version_key : BaselineVersion → String
version_key r = r.baseline_version_id

-- The tables that drift governance reads and writes.
pub record DriftState : Type 0 where
  pub samples : List Sample
  pub baselines : List Baseline
  pub versions : List BaselineVersion

abbrev pub is_active : BaselineVersion → Bool
is_active r = elim r.status [ active ↦ true | _ ↦ false ]

abbrev pub is_active_of : String → BaselineVersion → Bool
is_active_of a r = r.agent_id == a && is_active r

-- `agent_id == ... and baseline_version_id == ...`
abbrev pub is_version : String → String → BaselineVersion → Bool
is_version a v r = r.agent_id == a && r.baseline_version_id == v

abbrev or_missing : {R : Type 0} → Option R → Result R
or_missing none = err baseline_not_found
or_missing (some r) = ok r

unfoldable pub get_baseline_version :
    String → String → List BaselineVersion → Result BaselineVersion
get_baseline_version a v rows = one_or_none (where_rows (is_version a v) rows) >>= or_missing

unfoldable pub get_active_baseline_version :
    String → List BaselineVersion → Result (Option BaselineVersion)
get_active_baseline_version a rows = one_or_none (where_rows (is_active_of a) rows)

-- `if notes: record.notes = notes`
abbrev noted : Option String → BaselineVersion → BaselineVersion
noted none r = r
noted (some n) r = if n == "" then r else record r { notes = some n }

-- The unique constraint on the identifier.
pub insert_version : BaselineVersion → List BaselineVersion → Result (List BaselineVersion)
insert_version r rows = elim (find version_key r.baseline_version_id rows) [
  | some _ ↦ err unexpected
  | none ↦ ok (rows ++ r ∷ [])
]

abbrev pub new_version : String → String → ℕ → Option String → String → Baseline → BaselineVersion
new_version id a window_days notes actor b = record {
  baseline_version_id = id;
  agent_id = a;
  baseline_data = b.baseline_data;
  sample_count = b.sample_count;
  window_days = window_days;
  status = candidate;
  notes = notes;
  created_by = some actor;
  approved_by = none;
  approved_at = none;
  activated_by = none;
  activated_at = none;
  rejected_by = none;
  rejected_at = none;
}

pub propose_baseline_version :
    (Counts → Fields)
    → ℕ
    → String
    → String
    → String
    → ℕ
    → Option String
    → DriftState
    → Result DriftState
unfolding insert_version
propose_baseline_version formulas now id a actor window_days notes s =
    let (b, baselines') = recompute_baseline formulas now window_days a s.samples s.baselines in
    if eqb b.sample_count 0 || not (truthy (obj b.baseline_data))
    then err baseline_not_found
    else (do
      versions' ← insert_version (new_version id a window_days notes actor b) s.versions
      ok (record s { baselines = baselines'; versions = versions' }))

abbrev pub approve_row : ℕ → String → Option String → BaselineVersion → BaselineVersion
approve_row now actor notes r =
    noted notes (record r { status = approved; approved_by = some actor; approved_at = some now })

pub approve_baseline_version :
    ℕ → String → String → String → Option String → DriftState → Result DriftState
unfolding get_baseline_version
approve_baseline_version now a v actor notes s = do
  r ← get_baseline_version a v s.versions
  ok (record s {
    versions = change_where (is_version a v) (approve_row now actor notes) s.versions;
  })

abbrev pub reject_row : ℕ → String → Option String → BaselineVersion → BaselineVersion
reject_row now actor notes r =
    noted notes (record r { status = rejected; rejected_by = some actor; rejected_at = some now })

pub reject_baseline_version :
    ℕ → String → String → String → Option String → DriftState → Result DriftState
unfolding get_baseline_version
reject_baseline_version now a v actor notes s = do
  r ← get_baseline_version a v s.versions
  ok (record s { versions = change_where (is_version a v) (reject_row now actor notes) s.versions })

abbrev pub may_activate : VersionStatus → Bool
may_activate approved = true
may_activate active = true
may_activate _ = false

abbrev pub activate_row : ℕ → String → Option String → BaselineVersion → BaselineVersion
activate_row now actor notes r =
    noted notes (record r { status = active; activated_by = some actor; activated_at = some now })

-- The other active versions of the agent.
abbrev pub is_rival : String → String → BaselineVersion → Bool
is_rival a v r = is_active_of a r && not (r.baseline_version_id == v)

pub activated_rows :
    ℕ → String → String → String → Option String → List BaselineVersion → List BaselineVersion
activated_rows now a v actor notes rows =
    change_where (is_version a v) (activate_row now actor notes)
      (change_where (is_rival a v) (λ r. record r { status = superseded }) rows)

-- The live baseline takes the data of a version.
abbrev pub take_data : ℕ → BaselineVersion → Baseline → Baseline
take_data now r b = record b {
  baseline_data = r.baseline_data;
  sample_count = r.sample_count;
  last_updated_at = now;
}

unfoldable pub activate_baseline_version :
    ℕ → String → String → String → Option String → DriftState → Result DriftState
unfolding get_baseline_version activated_rows
activate_baseline_version now a v actor notes s = do
  r ← get_baseline_version a v s.versions
  guard (may_activate r.status) baseline_not_found
  ok (record s {
    baselines = (write_baseline now a (take_data now r) s.baselines).1;
    versions = activated_rows now a v actor notes s.versions;
  })

pub sync_baseline_from_active_version :
    ℕ → String → DriftState → Result (Option Baseline × DriftState)
unfolding get_active_baseline_version
sync_baseline_from_active_version now a s = do
  found ← get_active_baseline_version a s.versions
  elim found [
    | none ↦ ok (none, s)
    | some r ↦
        let (b, baselines') = write_baseline now a (take_data now r) s.baselines in
        ok (some b, record s { baselines = baselines' })
  ]
