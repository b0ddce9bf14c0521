-- ===== src/Policy/Filter/Unchanged.antt =====
-- When nothing is reported as redacted, nothing was changed; and keys are never changed.
use mathlib.Core.Path.{ap₂}
use acr_framework.Prelude.{
  String, ◌≡◌, refl, ap, ◌∙◌, inl, inr, List, [], ◌∷◌, ◌++◌, arith, Bool-cases, where_rows,
}
use acr_framework.Json.{
  Json, null, bool, int, float, str, arr, obj, Items, nil, item, Fields, end, field,
}
use acr_framework.Policy.Filter.{
  PiiType, ssn, credit_card, email, phone, Patterns, has_type, as_set, redact_type, redact_string,
  redact_value, redact_items, redact_fields, filter_parameters,
}

as_set-nil : (found : List PiiType) → as_set found ≡ [] → found ≡ []
unfolding as_set has_type where_rows
as_set-nil [] h = refl
as_set-nil (ssn ∷ found) h = ground arith
as_set-nil (credit_card ∷ found) h = ground arith
as_set-nil (email ∷ found) h = ground arith
as_set-nil (phone ∷ found) h = ground arith

append-nil_left : {A : Type 0} (xs ys : List A) → xs ++ ys ≡ [] → xs ≡ []
append-nil_left [] ys h = refl
append-nil_left (x ∷ xs) ys h = cc

append-nil_right : {A : Type 0} (xs ys : List A) → xs ++ ys ≡ [] → ys ≡ []
append-nil_right [] ys h = h
append-nil_right (x ∷ xs) ys h = cc

module _ (re : Patterns) where
  redact_type_nil :
      (t : PiiType) (s : String × List PiiType)
      → (redact_type re t s).1 ≡ []
      → (s.1 ≡ []) × ((redact_type re t s).0 ≡ s.0)
  unfolding redact_type
  redact_type_nil t (value, []) h = elim (Bool-cases (re.search t value)) [
    | inl hit ↦ ground arith
    | inr miss ↦ ground arith
  ]
  redact_type_nil t (value, x ∷ found) h = ground arith

  redact_string_nil :
      (value : String) → (redact_string re value).1 ≡ [] → (redact_string re value).0 ≡ value
  unfolding redact_string
  redact_string_nil value h =
      let s1 = redact_type re ssn (value, []) in
      let s2 = redact_type re credit_card s1 in
      let s3 = redact_type re email s2 in
      let (n3, e4) = redact_type_nil phone s3 h in
      let (n2, e3) = redact_type_nil email s2 n3 in
      let (n1, e2) = redact_type_nil credit_card s1 n2 in
      let (n0, e1) = redact_type_nil ssn (value, []) n1 in e4 ∙ e3 ∙ e2 ∙ e1

  mutual
    unfolding redact_value

    redact_value_nil : (v : Json) → (redact_value re v).1 ≡ [] → (redact_value re v).0 ≡ v
    redact_value_nil null h = refl
    redact_value_nil (bool b) h = refl
    redact_value_nil (int n) h = refl
    redact_value_nil (float n) h = refl
    redact_value_nil (str s) h = ap str (redact_string_nil s h)
    redact_value_nil (arr xs) h = ap arr (redact_items_nil xs h)
    redact_value_nil (obj d) h = ap obj (redact_fields_nil d (as_set-nil (redact_fields re d).1 h))

    redact_items_nil : (xs : Items) → (redact_items re xs).1 ≡ [] → (redact_items re xs).0 ≡ xs
    redact_items_nil nil h = refl
    redact_items_nil (item x xs) h =
        ap₂ item
          (redact_value_nil x (append-nil_left (redact_value re x).1 (redact_items re xs).1 h))
          (redact_items_nil xs (append-nil_right (redact_value re x).1 (redact_items re xs).1 h))

    redact_fields_nil : (d : Fields) → (redact_fields re d).1 ≡ [] → (redact_fields re d).0 ≡ d
    redact_fields_nil end h = refl
    redact_fields_nil (field k v d) h =
        ap₂ (field k)
          (redact_value_nil v (append-nil_left (redact_value re v).1 (redact_fields re d).1 h))
          (redact_fields_nil d (append-nil_right (redact_value re v).1 (redact_fields re d).1 h))

  -- If the filter reports no redacted type, the parameters it returns are the ones it was given.
  pub filter_unreported :
      (params : Fields)
      → (filter_parameters re params).1 ≡ []
      → (filter_parameters re params).0 ≡ params
  unfolding filter_parameters
  filter_unreported params h =
      redact_fields_nil params
        (as_set-nil (redact_fields re params).1 (as_set-nil (as_set (redact_fields re params).1) h))
