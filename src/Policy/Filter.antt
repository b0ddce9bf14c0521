-- ===== src/Policy/Filter.antt =====
-- pillar2_policy/output_filter.py: redaction of personal data in action parameters. The regular
-- expression engine is a parameter: for each pattern, a search and a substitution.
pub mod Unchanged
use acr_framework.Prelude.{
  String, Bool, true, false, not, ◌||◌, List, [], ◌∷◌, ◌++◌, is_empty, where_rows, if◌then◌else◌,
  Option, none, some, get_or,
}
use acr_framework.Json.{
  Json, null, bool, int, float, str, arr, obj, Items, nil, item, Fields, end, field, get,
}

-- The names of _PII_PATTERNS, in its order.
pub data PiiType : Type 0 where
  ssn credit_card email phone : PiiType

-- `pattern.search(value)` and `pattern.sub("[REDACTED]", value)` of each compiled pattern.
pub record Patterns : Type 0 where
  pub search : PiiType → String → Bool
  pub sub : PiiType → String → String

abbrev pub same_type : PiiType → PiiType → Bool
same_type ssn ssn = true
same_type credit_card credit_card = true
same_type email email = true
same_type phone phone = true
same_type _ _ = false

pub has_type : PiiType → List PiiType → Bool
has_type t [] = false
has_type t (x ∷ xs) = same_type t x || has_type t xs

-- `sorted(set(found))`: each name once. The order of a set is not observable before it is sorted.
pub as_set : List PiiType → List PiiType
unfolding has_type
as_set found = where_rows (λ t. has_type t found) (credit_card ∷ email ∷ phone ∷ ssn ∷ [])

module _ (re : Patterns) where
  -- One round of the loop in `_redact_string`.
  pub redact_type : PiiType → String × List PiiType → String × List PiiType
  redact_type t (value, found) =
      if re.search t value then (re.sub t value, found ++ t ∷ []) else (value, found)

  pub redact_string : String → String × List PiiType
  unfolding redact_type
  redact_string value =
      redact_type phone (redact_type email (redact_type credit_card (redact_type ssn (value, []))))

  mutual
    unfolding as_set redact_string

    pub redact_value : Json → Json × List PiiType
    redact_value (str s) = let (s', found) = redact_string s in (str s', found)
    redact_value (obj d) = let (d', found) = redact_fields d in (obj d', as_set found)
    redact_value (arr xs) = let (xs', found) = redact_items xs in (arr xs', found)
    redact_value null = (null, [])
    redact_value (bool b) = (bool b, [])
    redact_value (int n) = (int n, [])
    redact_value (float n) = (float n, [])

    pub redact_items : Items → Items × List PiiType
    redact_items nil = (nil, [])
    redact_items (item x xs) =
        let (x', found) = redact_value x in
        let (xs', more) = redact_items xs in (item x' xs', found ++ more)

    pub redact_fields : Fields → Fields × List PiiType
    redact_fields end = (end, [])
    redact_fields (field k v d) =
        let (v', found) = redact_value v in
        let (d', more) = redact_fields d in (field k v' d', found ++ more)

  pub redact_parameters : Fields → Fields × List PiiType
  unfolding redact_value
  redact_parameters params = let (d, found) = redact_fields params in (d, as_set found)

  -- The ParameterFilterResult: the cleaned parameters and the sorted names.
  unfoldable pub filter_parameters : Fields → Fields × List PiiType
  unfolding redact_parameters as_set
  filter_parameters params = let (d, found) = redact_parameters params in (d, as_set found)

abbrev pub was_modified : List PiiType → Bool
was_modified redacted_types = not (is_empty redacted_types)
