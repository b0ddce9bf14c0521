-- ===== src/Drift/Signals.antt =====
-- pillar3_drift/signals.py: the signals of a drift score. Floating-point numbers and the operations on
-- them that the code uses are a parameter.
use acr_framework.Prelude.{
  inl, inr, ℕ, String, ◌≡◌, ◌≤◌, Bool, true, false, Option, none, some, List, [], ◌∷◌, ◌==◌,
  if◌then◌else◌, Bool-cases,
}
use acr_framework.Errors.{Result, ok, err, unexpected, ◌>>=◌}
use acr_framework.Json.{Json, obj, Fields, end, get}

-- `lit n` is the number n / 10000, `tiny` is 1e-9, `ratio a b` is a / b, `diversity` is the entropy of
-- tool counts, over its largest value, `number v` is `float(v)`, and `round4 x` is `round(x, 4)` of a
-- number that is not negative, in ten-thousandths.
pub record Floats : Type 1 where
  pub F : Type 0
  pub lt : F → F → Bool
  pub sub : F → F → F
  pub add : F → F → F
  pub mul : F → F → F
  pub div : F → F → F
  pub abs : F → F
  pub lit : ℕ → F
  pub tiny : F
  pub ratio : ℕ → ℕ → F
  pub diversity : List (String × ℕ) → ℕ → F
  pub number : Json → Option F
  pub round4 : F → ℕ

-- What the code relies on: an order where no two numbers are each below the other, 0 and 1 in it, and
-- a rounding that stays within 1.
pub record IsOrdered (n : Floats) : Type 0 where
  pub asymmetric : (a b : n.F) → n.lt a b ≡ true → n.lt b a ≡ false
  pub zero_one : n.lt (n.lit 0) (n.lit 10000) ≡ true
  pub rounded : (a : n.F) → n.lt (n.lit 10000) a ≡ false → n.round4 a ≤ 10000

module _ (n : Floats) where
  open n use {F, lt, sub, add, mul, div, abs, lit, tiny, number}

  pub record RawMetrics : Type 0 where
    pub tool_calls_per_minute : F
    pub denial_rate : F
    pub error_rate : F
    pub action_diversity : F

  pub record DriftSignal : Type 0 where
    pub name : String
    pub current_value : F
    pub baseline_mean : F
    pub baseline_std : F
    pub z_score : F
    pub weight : F
    pub normalized_contribution : F

  -- `min(a, b)` and `max(a, b)` of Python keep the first unless the second is strictly better.
  abbrev pub min_of : F → F → F
  min_of a b = if lt b a then b else a

  abbrev pub max_of : F → F → F
  max_of a b = if lt a b then b else a

  pub compute_z_score : F → F → F → F
  compute_z_score current mean std = if lt std tiny then lit 0 else div (sub current mean) std

  pub z_to_drift_contribution : F → F
  z_to_drift_contribution z = div (min_of (abs z) (lit 50000)) (lit 50000)

  -- SIGNAL_WEIGHTS
  pub signal_weight : String → F
  signal_weight name =
      if name == "tool_call_frequency"
      then lit 2500
      else if name == "denial_rate"
      then lit 3500
      else if name == "error_rate"
      then lit 2000
      else if name == "action_diversity"
      then lit 2000
      else lit 10000

  or_raise : Option F → Result F
  or_raise none = err unexpected
  or_raise (some x) = ok x

  -- `float(stats.get(k, default))`
  float_at : String → F → Fields → Result F
  unfolding get or_raise
  float_at k default stats = elim (get k stats) [ none ↦ ok default | some v ↦ or_raise (number v) ]

  -- `baseline.get(name, {})`, which must have a `get`.
  stats_of : String → Fields → Result Fields
  unfolding get
  stats_of name baseline = elim (get name baseline) [
    | none ↦ ok end
    | some (obj d) ↦ ok d
    | some _ ↦ err unexpected
  ]

  signal_of : String → F → Fields → Result DriftSignal
  unfolding float_at stats_of compute_z_score z_to_drift_contribution signal_weight
  signal_of name current baseline = do
    stats ← stats_of name baseline
    mean ← float_at "mean" (lit 0) stats
    std ← float_at "std" (lit 10000) stats
    let z = compute_z_score current mean std
    ok (record {
      name = name;
      current_value = current;
      baseline_mean = mean;
      baseline_std = std;
      z_score = z;
      weight = signal_weight name;
      normalized_contribution = mul (z_to_drift_contribution z) (signal_weight name);
    })

  unfoldable pub compute_signals : RawMetrics → Fields → Result (List DriftSignal)
  unfolding signal_of
  compute_signals m baseline = do
    frequency ← signal_of "tool_call_frequency" m.tool_calls_per_minute baseline
    denials ← signal_of "denial_rate" m.denial_rate baseline
    errors ← signal_of "error_rate" m.error_rate baseline
    diversity ← signal_of "action_diversity" m.action_diversity baseline
    ok (frequency ∷ denials ∷ errors ∷ diversity ∷ [])

  -- `sum(...)` from 0, from the left.
  sum_from : F → List F → F
  sum_from acc [] = acc
  sum_from acc (x ∷ xs) = sum_from (add acc x) xs

  weights : List DriftSignal → List F
  weights [] = []
  weights (s ∷ ss) = s.weight ∷ weights ss

  contributions : List DriftSignal → List F
  contributions [] = []
  contributions (s ∷ ss) = s.normalized_contribution ∷ contributions ss

  unfoldable pub composite_drift_score : List DriftSignal → F
  unfolding sum_from weights contributions
  composite_drift_score signals =
      let total = sum_from (lit 0) (weights signals) in
      if lt total tiny
      then lit 0
      else min_of (lit 10000)
          (max_of (lit 0) (div (sum_from (lit 0) (contributions signals)) total))

irreflexive : (n : Floats) → IsOrdered n → (a : n.F) → n.lt a a ≡ false
irreflexive n o a = elim (Bool-cases (n.lt a a)) [ inl e ↦ o.asymmetric a a e | inr e ↦ e ]

max_of-Above : (n : Floats) (o : IsOrdered n) (low a : n.F) → n.lt (max_of n low a) low ≡ false
max_of-Above n o low a = elim (Bool-cases (n.lt low a)) [
  | inl e ↦ rw e (o.asymmetric low a e)
  | inr e ↦ rw e (irreflexive n o low)
]

min_of-Below : (n : Floats) (o : IsOrdered n) (high a : n.F) → n.lt high (min_of n high a) ≡ false
min_of-Below n o high a = elim (Bool-cases (n.lt a high)) [
  | inl e ↦ rw e (o.asymmetric a high e)
  | inr e ↦ rw e (irreflexive n o high)
]

-- A number between 0 and 1.
unfoldable pub IsShare : (n : Floats) → n.F → Type 0
IsShare n a = (n.lt a (n.lit 0) ≡ false) × (n.lt (n.lit 10000) a ≡ false)

zero-IsShare : (n : Floats) → IsOrdered n → IsShare n (n.lit 0)
unfolding IsShare
zero-IsShare n o = (irreflexive n o (n.lit 0), o.asymmetric (n.lit 0) (n.lit 10000) o.zero_one)

clamp-IsShare :
    (n : Floats) (o : IsOrdered n) (a : n.F)
    → IsShare n (min_of n (n.lit 10000) (max_of n (n.lit 0) a))
unfolding IsShare
clamp-IsShare n o a = (
  elim (Bool-cases (n.lt (max_of n (n.lit 0) a) (n.lit 10000))) [
    | inl e ↦ rw e (max_of-Above n o (n.lit 0) a)
    | inr e ↦ rw e (o.asymmetric (n.lit 0) (n.lit 10000) o.zero_one)
  ],
  min_of-Below n o (n.lit 10000) (max_of n (n.lit 0) a),
)

-- The score is neither below 0 nor above 1, whatever the signals are, not a number included.
pub composite-IsShare :
    (n : Floats) (signals : List (DriftSignal n))
    → IsOrdered n
    → IsShare n (composite_drift_score n signals)
unfolding composite_drift_score
composite-IsShare n signals o =
    elim (Bool-cases (n.lt (sum_from n (n.lit 0) (weights n signals)) n.tiny)) [
      | inl e ↦ rw e (zero-IsShare n o)
      | inr e ↦ rw e (clamp-IsShare n o _)
    ]
