-- ===== src/Prelude/Change.antt =====
-- UPDATE ... WHERE: the rows that pass a test are changed, and how this changes the rows that pass
-- another one.
use Prim.Native.Nat.{◌≤◌}
use Prim.Native.String.{String, ◌∷◌}
use mathlib.Core.Path.{◌≡◌, refl, subst, ◌∙◌}
use mathlib.Core.Logic.{inl, inr}
use mathlib.Core.Bool.{Bool, true, false}
use mathlib.Core.List.{List, [], ◌∷◌, map}
use native.Mathlib.Omega.{arith}
use acr_framework.Prelude.Tests.{if◌then◌else◌, Bool-cases}
use acr_framework.Prelude.Lists.{count_if, Distinct, All}
use acr_framework.Prelude.Keys.{keys, keys-map, count-map, count_mono}

module _ {R : Type 0} where
  unfoldable pub change_where : (R → Bool) → (R → R) → List R → List R
  change_where p f rows = map (λ r. if p r then f r else r) rows

  -- One row after a change that a test selects.
  abbrev pub changed : (R → Bool) → (R → R) → R → R
  changed p f r = if p r then f r else r

  changed_calm :
      (p q : R → Bool) (f : R → R)
      → ((r : R) → p r ≡ true → q (f r) ≡ true → q r ≡ true)
      → (r : R) → q (changed p f r) ≡ true
      → q r ≡ true
  changed_calm p q f calm r h = elim (Bool-cases (p r)) [
    | inl e ↦ calm r e (subst (λ b. q (if b then f r else r) ≡ true) e h)
    | inr e ↦ subst (λ b. q (if b then f r else r) ≡ true) e h
  ]

  -- A change that makes no row pass a test leaves no more rows that pass it.
  pub count-change_where_le :
      (p q : R → Bool) (f : R → R) (rows : List R)
      → ((r : R) → p r ≡ true → q (f r) ≡ true → q r ≡ true)
      → count_if q (change_where p f rows) ≤ count_if q rows
  unfolding change_where
  count-change_where_le p q f rows calm = omega (
    arith,
    count-map q (changed p f) rows,
    count_mono (λ r. q (changed p f r)) q rows (changed_calm p q f calm),
  )

  count_never : (q : R → Bool) (rows : List R) → ((r : R) → q r ≡ false) → count_if q rows ≡ 0
  unfolding count_if
  count_never q [] h = refl
  count_never q (r ∷ rows) h = ground (arith, h r, count_never q rows h)

  -- A change after which no row passes a test.
  pub count-change_where_none :
      (p q : R → Bool) (f : R → R) (rows : List R)
      → ((r : R) → q (changed p f r) ≡ false)
      → count_if q (change_where p f rows) ≡ 0
  unfolding change_where
  count-change_where_none p q f rows h =
      count-map q (changed p f) rows ∙ count_never (λ r. q (changed p f r)) rows h

  -- Tests that agree on the rows select the same changes.
  pub change_where_same :
      (p q : R → Bool) (f : R → R) (rows : List R)
      → All (λ r. p r ≡ q r) rows
      → change_where p f rows ≡ change_where q f rows
  unfolding change_where
  change_where_same p q f [] h = refl
  change_where_same p q f (r ∷ rows) h = ground (arith, change_where_same p q f rows h.1)

  pub All-change_where :
      (P Q : R → Type 0) (p : R → Bool) (f : R → R) (rows : List R)
      → ((r : R) → P r → Q (changed p f r))
      → All P rows
      → All Q (change_where p f rows)
  unfolding change_where
  All-change_where P Q p f [] keep h = tt
  All-change_where P Q p f (r ∷ rows) keep h = (keep r h.0, All-change_where P Q p f rows keep h.1)

module _ {R : Type 0} (key : R → String) where
  changed_key :
      (p : R → Bool) (f : R → R)
      → ((r : R) → key (f r) ≡ key r)
      → (r : R) → key (changed p f r) ≡ key r
  changed_key p f same r = ground (arith, same r)

  pub keys-change_where :
      (p : R → Bool) (f : R → R) (rows : List R)
      → ((r : R) → key (f r) ≡ key r)
      → keys key (change_where p f rows) ≡ keys key rows
  unfolding change_where
  keys-change_where p f rows same = keys-map key (changed p f) rows (changed_key p f same)

  pub change_where-Distinct :
      (p : R → Bool) (f : R → R) (rows : List R)
      → ((r : R) → key (f r) ≡ key r)
      → Distinct (keys key rows)
      → Distinct (keys key (change_where p f rows))
  change_where-Distinct p f rows same d = rw (keys-change_where p f rows same) d
