-- ===== src/Prelude/Select.antt =====
-- SELECT ... WHERE, as it goes with changes of the rows and with rows that are added.
use Prim.Native.String.{String}
use mathlib.Core.Path.{◌≡◌, refl, subst}
use mathlib.Core.Logic.{inl, inr}
use mathlib.Core.Bool.{Bool, true, false}
use mathlib.Core.Option.{some}
use mathlib.Core.List.{List, [], ◌∷◌, ◌++◌, map}
use native.Mathlib.Omega.{arith}
use acr_framework.Prelude.Tests.{◌==◌, str_iff, Bool-cases}
use acr_framework.Prelude.Lists.{where_rows, contains, Distinct, All}
use acr_framework.Prelude.Table.{find}
use acr_framework.Prelude.Keys.{keys}

module _ {R : Type 0} where
  pub where_rows-map :
      (p : R → Bool) (g : R → R) (rows : List R)
      → where_rows p (map g rows) ≡ map g (where_rows (λ r. p (g r)) rows)
  unfolding where_rows
  where_rows-map p g [] = refl
  where_rows-map p g (r ∷ rows) = ground (arith, where_rows-map p g rows)

  pub where_rows_same :
      (p q : R → Bool) (rows : List R)
      → ((r : R) → p r ≡ q r)
      → where_rows p rows ≡ where_rows q rows
  unfolding where_rows
  where_rows_same p q [] h = refl
  where_rows_same p q (r ∷ rows) h = ground (arith, h r, where_rows_same p q rows h)

  pub where_rows_first :
      (p : R → Bool) (rows rest : List R) (r : R) → where_rows p rows ≡ r ∷ rest → p r ≡ true
  unfolding where_rows
  where_rows_first p [] rest r h = ground arith
  where_rows_first p (x ∷ rows) rest r h = elim (Bool-cases (p x)) [
    | inl e ↦ subst (λ y. p y ≡ true) (the_first e) e
    | inr e ↦ where_rows_first p rows rest r (ground arith)
  ]
    where
      the_first : p x ≡ true → x ≡ r
      the_first e = ground arith

  -- Tests that agree on the rows select the same ones.
  pub where_rows_agree :
      (p q : R → Bool) (rows : List R)
      → All (λ r. p r ≡ q r) rows
      → where_rows p rows ≡ where_rows q rows
  unfolding where_rows
  where_rows_agree p q [] h = refl
  where_rows_agree p q (r ∷ rows) h = ground (arith, where_rows_agree p q rows h.1)

  pub where_rows-append_out :
      (p : R → Bool) (rows : List R) (r : R)
      → p r ≡ false
      → where_rows p (rows ++ r ∷ []) ≡ where_rows p rows
  unfolding where_rows
  where_rows-append_out p [] r h = ground arith
  where_rows-append_out p (x ∷ rows) r h = ground (arith, where_rows-append_out p rows r h)

-- The rows with a key, where keys are unique.
module _ {R : Type 0} (key : R → String) where
  where_key_absent :
      (k : String) (rows : List R)
      → contains k (keys key rows) ≡ false
      → where_rows (λ r. key r == k) rows ≡ []
  unfolding where_rows contains
  where_key_absent k [] h = refl
  where_key_absent k (r ∷ rows) h = ground (arith, where_key_absent k rows)

  pub where_key :
      (k : String) (rows : List R) (r : R)
      → Distinct (keys key rows)
      → find key k rows ≡ some r
      → where_rows (λ x. key x == k) rows ≡ r ∷ []
  unfolding where_rows find
  where_key k [] r d h = absurd (ground arith)
  where_key k (x ∷ rows) r d h = elim (Bool-cases (key x == k)) [
    | inl here ↦ ground (
      arith,
      where_key_absent k rows
          (subst (λ j. contains j (keys key rows) ≡ false) ((str_iff (key x) k).0 here) d.0),
    )
    | inr there ↦ ground (arith, where_key k rows r d.1)
  ]
