-- ===== src/Drift/Baseline.antt =====
-- pillar3_drift/baseline.py: the samples of an agent and the live baseline that is computed from them.
-- The floating-point formulas over the counts are a parameter.
pub mod Live
use acr_framework.Prelude.{
  ℕ, suc, ◌+◌, ◌*◌, String, Bool, true, false, ◌&&◌, Option, none, some, List, [], ◌∷◌, ◌++◌, ◌==◌,
  leb, if◌then◌else◌, is_empty, length, where_rows, count_if,
}
use acr_framework.Prelude.Table.{find, update}
use acr_framework.Json.{Fields, end}

-- A row of drift_metrics; times are in seconds.
pub record Sample : Type 0 where
  pub agent_id : String
  pub tool_name : Option String
  pub policy_denied : Bool
  pub latency_ms : Option ℕ
  pub created_at : ℕ

-- A row of drift_baselines.
pub record Baseline : Type 0 where
  pub agent_id : String
  pub baseline_data : Fields
  pub sample_count : ℕ
  pub collection_started_at : Option ℕ
  pub last_updated_at : ℕ

-- The row that is stored, its correlation id and its action type left out: nothing reads them.
unfoldable pub record_metric_sample :
    ℕ → String → Option String → Bool → Option ℕ → List Sample → List Sample
record_metric_sample now a tool_name policy_denied latency_ms rows =
    rows
    ++ record {
      agent_id = a;
      tool_name = tool_name;
      policy_denied = policy_denied;
      latency_ms = latency_ms;
      created_at = now;
    }
      ∷ []

abbrev pub baseline_key : Baseline → String
baseline_key b = b.agent_id

abbrev fresh_baseline : ℕ → String → Baseline
fresh_baseline now a = record {
  agent_id = a;
  baseline_data = end;
  sample_count = 0;
  collection_started_at = some now;
  last_updated_at = now;
}

unfoldable pub get_or_create_baseline : ℕ → String → List Baseline → Baseline × List Baseline
get_or_create_baseline now a rows = elim (find baseline_key a rows) [
  | some b ↦ (b, rows)
  | none ↦ (fresh_baseline now a, rows ++ fresh_baseline now a ∷ [])
]

-- The row of the agent, created if need be, is changed and flushed.
pub write_baseline : ℕ → String → (Baseline → Baseline) → List Baseline → Baseline × List Baseline
unfolding get_or_create_baseline
write_baseline now a f rows =
    let (b, rows') = get_or_create_baseline now a rows in (f b, update baseline_key a f rows')

-- The values of `tool_counts`, a dictionary in the order of first use.
count_tool : String → List (String × ℕ) → List (String × ℕ)
count_tool t [] = (t, 1) ∷ []
count_tool t ((u, n) ∷ rest) =
    let counted = count_tool t rest in if u == t then (u, suc n) ∷ rest else (u, n) ∷ counted

-- `s.tool_name or "_unknown"`
abbrev named : Option String → String
named none = "_unknown"
named (some t) = if t == "" then "_unknown" else t

unfoldable pub tool_counts : List Sample → List (String × ℕ) → List (String × ℕ)
unfolding count_tool
tool_counts [] counts = counts
tool_counts (s ∷ ss) counts = tool_counts ss (count_tool (named s.tool_name) counts)

abbrev pub is_error : Sample → Bool
is_error s = elim s.latency_ms [ none ↦ true | some _ ↦ false ]

-- What the formulas are applied to.
pub record Counts : Type 0 where
  pub window_minutes : ℕ
  pub samples : ℕ
  pub denials : ℕ
  pub errors : ℕ
  pub tools : List (String × ℕ)

pub counts_of : ℕ → List Sample → Counts
unfolding tool_counts
counts_of window_days samples = record {
  window_minutes = if leb 1 (window_days * 24 * 60) then window_days * 24 * 60 else 1;
  samples = length samples;
  denials = count_if (λ s. s.policy_denied) samples;
  errors = count_if is_error samples;
  tools = tool_counts samples [];
}

-- `created_at >= utcnow() - timedelta(days=window_days)`
abbrev in_window : ℕ → ℕ → String → Sample → Bool
in_window now window_days a s = s.agent_id == a && leb now (s.created_at + window_days * 86400)

unfoldable pub recompute_baseline :
    (Counts → Fields) → ℕ → ℕ → String → List Sample → List Baseline → Baseline × List Baseline
unfolding counts_of write_baseline
recompute_baseline formulas now window_days a samples rows =
    let chosen = where_rows (in_window now window_days a) samples in
    if is_empty chosen
    then get_or_create_baseline now a rows
    else write_baseline now a
        (λ b. record b {
          baseline_data = formulas (counts_of window_days chosen);
          sample_count = length chosen;
          last_updated_at = now;
        })
        rows

pub reset_baseline : ℕ → String → List Baseline → Baseline × List Baseline
unfolding write_baseline
reset_baseline now a rows =
    write_baseline now a
      (λ b. record b {
        baseline_data = end;
        sample_count = 0;
        collection_started_at = some now;
        last_updated_at = now;
      })
      rows
