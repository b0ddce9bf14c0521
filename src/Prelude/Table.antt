-- ===== src/Prelude/Table.antt =====
-- A table of records with a text for a key, as the queries of the program use it: a row is found by
-- its key, changed in place, or added at the end.
use Prim.Native.String.{String}
use mathlib.Core.Path.{◌≡◌, refl}
use mathlib.Core.Logic.{inl, inr}
use mathlib.Core.Option.{Option, none, some}
use mathlib.Core.Option
use mathlib.Core.List.{List, [], ◌∷◌, ◌++◌}
use native.Mathlib.Omega.{arith}
use acr_framework.Prelude.Tests.{◌==◌, str_iff, if◌then◌else◌, Bool-cases}
use acr_framework.Prelude.Lists.{length, All}

module _ {R : Type 0} (key : R → String) where
  -- SELECT ... WHERE key = k, for a unique key.
  unfoldable pub find : String → List R → Option R
  find k [] = none
  find k (r ∷ rs) = if key r == k then some r else find k rs

  -- The row object with this key is changed and flushed.
  unfoldable pub update : String → (R → R) → List R → List R
  update k f [] = []
  update k f (r ∷ rs) = let rest = update k f rs in if key r == k then f r ∷ rest else r ∷ rest

  pub key-find : (k : String) (rs : List R) {r : R} → find k rs ≡ some r → key r ≡ k
  unfolding find
  key-find k [] h = ground arith
  key-find k (x ∷ rs) {r = s} h = ground (arith, str_iff (key x) k, key-find k rs {r = s})

  pub find-append_none :
      (k : String) (rs : List R) (r : R)
      → find k rs ≡ none
      → find k (rs ++ r ∷ []) ≡ (if key r == k then some r else none)
  unfolding find
  find-append_none k [] r h = refl
  find-append_none k (x ∷ rs) r h = ground (arith, find-append_none k rs r)

  pub find-append_some :
      (k : String) (rs : List R) (r : R) {a : R}
      → find k rs ≡ some a
      → find k (rs ++ r ∷ []) ≡ some a
  unfolding find
  find-append_some k [] r h = ground arith
  find-append_some k (x ∷ rs) r {a = b} h = ground (arith, find-append_some k rs r {a = b})

  pub length-update : (k : String) (f : R → R) (rs : List R) → length (update k f rs) ≡ length rs
  unfolding update
  length-update k f [] = refl
  length-update k f (r ∷ rs) = ground (arith, length-update k f rs)

-- A change that keeps the key is seen at its key and nowhere else.
module _ {R : Type 0} (key : R → String) (f : R → R) (keeps : (r : R) → key (f r) ≡ key r) where
  pub find-update :
      (k j : String) (rs : List R)
      → find key j (update key k f rs)
        ≡ (if k == j then Option.map f (find key j rs) else find key j rs)
  unfolding find update
  find-update k j [] = ground arith
  find-update k j (r ∷ rs) =
      ground (arith, keeps r, str_iff (key r) k, str_iff (key r) j, str_iff k j, find-update k j rs)

  -- What relates each row to itself, and the changed row to its change, relates every row to the row
  -- that has its key afterwards.
  pub update_relates :
      (Q : R → R → Type 0) (k : String) (rs : List R)
      → ((r : R) → Q r r)
      → ((r : R) → find key k rs ≡ some r → Q r (f r))
      → (j : String) (r : R) → find key j rs ≡ some r
      → (r' : R) × (find key j (update key k f rs) ≡ some r') × Q r r'
  update_relates Q k rs same change j r h = elim (Bool-cases (k == j)) [
    | inl here ↦
        (f r, rw (find-update k j rs, here, h) refl, change r (rw ((str_iff k j).0 here) h))
    | inr there ↦ (r, rw (find-update k j rs, there) h, same r)
  ]

-- What holds of every row still holds after a change in place that keeps it.
pub All-update :
    {R : Type 0} (key : R → String) (P : R → Type 0) (k : String) (f : R → R) (rs : List R)
    → ((r : R) → P r → P (f r))
    → All P rs
    → All P (update key k f rs)
unfolding update
All-update key P k f [] keep h = tt
All-update key P k f (r ∷ rs) keep h = elim (Bool-cases (key r == k)) [
  | inl here ↦ rw (here, if◌then◌else◌) (keep r h.0, All-update key P k f rs keep h.1)
  | inr there ↦ rw (there, if◌then◌else◌) (h.0, All-update key P k f rs keep h.1)
]
