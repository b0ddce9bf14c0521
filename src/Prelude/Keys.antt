-- ===== src/Prelude/Keys.antt =====
-- Rows counted by a test, and rows told apart by a key.
use Prim.Native.Nat.{◌+◌, ◌≤◌}
use Prim.Native.String.{String}
use mathlib.Core.Path.{◌≡◌, refl, sym, subst, ◌∙◌, ap}
use mathlib.Core.Logic.{inl, inr}
use mathlib.Core.Bool.{Bool, true, false, ◌||◌}
use mathlib.Core.Option.{none, Option, some}
use mathlib.Core.List.{List, [], ◌∷◌, ◌++◌, map}
use native.Mathlib.Omega.{arith}
use acr_framework.Prelude.Tests.{◌==◌, str_iff, if◌then◌else◌, Bool-cases, is_some}
use acr_framework.Prelude.Lists.{count_if, contains, Distinct, All}
use acr_framework.Prelude.Table.{find}

module _ {R : Type 0} where
  pub count-map :
      (p : R → Bool) (g : R → R) (rows : List R)
      → count_if p (map g rows) ≡ count_if (λ r. p (g r)) rows
  unfolding count_if
  count-map p g [] = refl
  count-map p g (r ∷ rows) = ground (arith, count-map p g rows)

  pub count_mono :
      (p q : R → Bool) (rows : List R)
      → ((r : R) → p r ≡ true → q r ≡ true)
      → count_if p rows ≤ count_if q rows
  unfolding count_if
  count_mono p q [] h = omega arith
  count_mono p q (r ∷ rows) h = ground (arith, h r, count_mono p q rows h)

  pub count-append :
      (p : R → Bool) (rows : List R) (r : R)
      → count_if p (rows ++ r ∷ []) ≡ count_if p rows + (if p r then 1 else 0)
  unfolding count_if
  count-append p [] r = ground arith
  count-append p (x ∷ rows) r = ground (arith, count-append p rows r)

module _ {R : Type 0} (key : R → String) where
  abbrev pub keys : List R → List String
  keys [] = []
  keys (r ∷ rows) = key r ∷ keys rows

  pub keys-map :
      (g : R → R) (rows : List R) → ((r : R) → key (g r) ≡ key r) → keys (map g rows) ≡ keys rows
  keys-map g [] h = refl
  keys-map g (r ∷ rows) h = rw (h r, keys-map g rows h) refl

  contains-snoc :
      (k : String) (rows : List R) (r : R)
      → contains k (keys (rows ++ r ∷ [])) ≡ contains k (keys rows) || key r == k
  unfolding contains
  contains-snoc k [] r = ground arith
  contains-snoc k (x ∷ rows) r = ground (arith, contains-snoc k rows r)

  find-contains : (k : String) (rows : List R) → is_some (find key k rows) ≡ contains k (keys rows)
  unfolding find contains
  find-contains k [] = refl
  find-contains k (r ∷ rows) = ground (arith, find-contains k rows)

  -- Rows with the same keys lack the same ones.
  pub find_absent :
      (k : String) (rows rows' : List R)
      → keys rows' ≡ keys rows
      → find key k rows ≡ none
      → find key k rows' ≡ none
  find_absent k rows rows' same h =
      absent (find key k rows')
        (find-contains k rows' ∙ ap (contains k) same ∙ sym (find-contains k rows) ∙ ap is_some h)
    where
      absent : (o : Option R) → is_some o ≡ false → o ≡ none
      absent none e = refl
      absent (some r) e = absurd cc

  -- The row with a key is the one that is found.
  pub find_sole :
      (k : String) (rows : List R) (r : R)
      → Distinct (keys rows)
      → find key k rows ≡ some r
      → All (λ x. (key x == k) ≡ true → x ≡ r) rows
  unfolding find contains
  find_sole k [] r d h = tt
  find_sole k (x ∷ rows) r d h = elim (Bool-cases (key x == k)) [
    | inl here ↦ (
      λ e. ground arith,
      missing rows (subst (λ j. contains j (keys rows) ≡ false) ((str_iff (key x) k).0 here) d.0),
    )
    | inr there ↦ (λ e. absurd (ground arith), find_sole k rows r d.1 (ground arith))
  ]
    where
      missing :
          (ys : List R) → contains k (keys ys) ≡ false → All (λ y. (key y == k) ≡ true → y ≡ r) ys
      missing [] h = tt
      missing (y ∷ ys) h = (λ e. absurd (ground arith), missing ys (ground arith))

  -- A row whose key no other row has.
  pub Distinct-snoc :
      (rows : List R) (r : R)
      → Distinct (keys rows)
      → find key (key r) rows ≡ none
      → Distinct (keys (rows ++ r ∷ []))
  unfolding find contains
  Distinct-snoc [] r d new = (refl, tt)
  Distinct-snoc (x ∷ rows) r d new = ground (
    arith,
    contains-snoc (key x) rows r,
    Distinct-snoc rows r,
    str_iff (key x) (key r),
    str_iff (key r) (key x),
  )

  count_absent :
      (k : String) (p : R → Bool) (rows : List R)
      → ((r : R) → p r ≡ true → key r ≡ k)
      → contains k (keys rows) ≡ false
      → count_if p rows ≡ 0
  unfolding count_if contains
  count_absent k p [] h absent = refl
  count_absent k p (r ∷ rows) h absent =
      ground (arith, h r, count_absent k p rows h, str_iff (key r) k)

  -- Rows that all have one key are at most one row.
  pub count_sole :
      (k : String) (p : R → Bool) (rows : List R)
      → ((r : R) → p r ≡ true → key r ≡ k)
      → Distinct (keys rows)
      → count_if p rows ≤ 1
  unfolding count_if
  count_sole k p [] h d = omega arith
  count_sole k p (r ∷ rows) h d = elim (Bool-cases (p r)) [
    | inl here ↦ ground (arith, count_absent (key r) p rows (λ s q. h s q ∙ sym (h r here)) d.0)
    | inr there ↦ ground (arith, count_sole k p rows h d.1)
  ]
