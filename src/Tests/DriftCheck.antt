-- ===== src/Tests/DriftCheck.antt =====
-- A check of an agent with a version in force, and checks of one that has none.
use acr_framework.Prelude.{
  zero, suc, ℕ, ◌+◌, ◌-◌, ◌*◌, ◌/◌, ◌≤◌, ◌≡◌, refl, true, false, Option, none, some, List, [], ◌∷◌,
  ltb, arith, where_rows, count_if,
}
use acr_framework.Prelude.Int.{pos}
use acr_framework.Errors.{Result, ok, err}
use acr_framework.Json.{Json, int, float, Fields, end, field, obj, get}
use acr_framework.Drift.Signals.{Floats, IsOrdered, compute_signals, composite_drift_score}
use acr_framework.Drift.Baseline.{Sample}
use acr_framework.Drift.Governance.{BaselineVersion, active, get_active_baseline_version}
use acr_framework.Containment.Graduated.{tier_for_score, enforce}
use acr_framework.Drift.Detector.{DriftScore, CheckState, not_ready, run_drift_check}
use acr_framework.Drift.Detector.Quiet.{IsUnready}
use acr_framework.Drift.Detector.Bounds.{Answered, run_drift_check_lem}
use acr_framework.Gateway.DriftTasks.{TaskOutside}
use acr_framework.Tests.Fixtures.{empty_redis}
use acr_framework.Gateway.DriftTasks.Due.{IsUp, Hourly, comes_due, check_due_in_ten}
use acr_framework.Gateway.DriftTasks.Quiet.{Task, sample, check, run, Quiet, unready_checks_inert}
use acr_framework.Tests.Drift.{version}
use acr_framework.Tests.Containment.{surroundings, before}

abbrev number : Json → Option ℕ
number (int (pos k)) = some (k * 10000)
number (float (pos k)) = some (k / 100)
number _ = none

-- Numbers that are not negative, in ten-thousandths.
abbrev fixed_point : Floats
fixed_point = record {
  F = ℕ;
  lt = ltb;
  sub = λ a b. a - b;
  add = λ a b. a + b;
  mul = λ a b. a * b / 10000;
  div = λ a b. a * 10000 / b;
  abs = λ a. a;
  lit = λ n. n;
  tiny = 0;
  ratio = λ a b. a * 10000 / b;
  diversity = λ tools n. 10000;
  number = number;
  round4 = λ a. a;
}

fixed_point-IsOrdered : IsOrdered fixed_point
fixed_point-IsOrdered = record {
  asymmetric = λ a b h. ground arith;
  zero_one = refl;
  rounded = λ a h. ground arith;
}

abbrev narrow : Fields
narrow = field "std" (float (pos 10000)) end

abbrev in_force : BaselineVersion
in_force = record (version "blv-1" active) {
  baseline_data = field "tool_call_frequency" (obj narrow) (
      field "denial_rate" (obj narrow)
        (field "error_rate" (obj narrow) (field "action_diversity" (obj narrow) end)));
}

abbrev denied : Sample
denied = record {
  agent_id = "bot";
  tool_name = some "pay";
  policy_denied = true;
  latency_ms = none;
  created_at = 990;
}

abbrev governed : CheckState
governed = record {
  drift = record { samples = denied ∷ []; baselines = []; versions = in_force ∷ [] };
  containment = before;
}

abbrev taken : Result (DriftScore fixed_point) → DriftScore fixed_point
taken (ok d) = d
taken (err e) = not_ready fixed_point "bot" 0 none none

abbrev ran : Result (DriftScore fixed_point) × CheckState
ran = run_drift_check fixed_point surroundings (λ c. end) "bot" governed

score_of_ran : (taken ran.0).score ≡ 8330
unfolding run_drift_check get_active_baseline_version compute_signals where_rows get tier_for_score
    enforce composite_drift_score count_if
score_of_ran = refl

run_drift_check_lem_example :
    ((taken ran.0).score ≤ 10000)
    × Answered fixed_point surroundings "bot" governed (taken ran.0) ran.1
unfolding run_drift_check get_active_baseline_version compute_signals where_rows get tier_for_score
    enforce composite_drift_score count_if
run_drift_check_lem_example =
    run_drift_check_lem fixed_point fixed_point-IsOrdered surroundings (λ c. end) "bot" governed
      ran.1 (taken ran.0) refl

abbrev all_up : TaskOutside
all_up = record {
  env = surroundings;
  flush_fails = false;
  commit_fails = false;
  incr_fails = false;
  expire_fails = false;
  cache_fails = false;
}

abbrev new_agent : CheckState
new_agent = record {
  drift = record { samples = []; baselines = []; versions = [] };
  containment = before;
}

abbrev tasks : List Task
tasks = sample all_up "bot" "pay" true 12 ∷ check all_up "bot" ∷ check all_up "bot" ∷ []

unready_checks_inert_example : Quiet new_agent (run fixed_point (λ c. end) tasks new_agent)
unfolding IsUnready
unready_checks_inert_example = unready_checks_inert fixed_point (λ c. end) tasks new_agent (tt, tt)

abbrev copies : ℕ → List TaskOutside
copies zero = []
copies (suc n) = all_up ∷ copies n

up : IsUp all_up
unfolding IsUp
up = (refl, refl, refl)

copies-Hourly : (n : ℕ) → Hourly all_up (copies n)
unfolding Hourly
copies-Hourly zero = tt
copies-Hourly (suc n) = (up, omega arith, copies-Hourly n)

check_due_in_ten_example : comes_due (all_up ∷ copies 9) "bot" empty_redis ≡ true
check_due_in_ten_example =
    check_due_in_ten all_up (copies 9) "bot" empty_redis up (copies-Hourly 9) (omega arith)
