-- ===== src/Json.antt =====
-- JSON values and Python dictionaries with text keys, as the handlers use them: parameters, context,
-- and the documents of the policy engine.
pub mod Dict
use acr_framework.Prelude.{
  ℕ, String, Bool, true, false, not, Option, none, some, ◌==◌, if◌then◌else◌, eqb,
}
use acr_framework.Prelude.Int.{ℤ, pos, negsuc}

-- `float n` is the number n / 1000000.
mutual
  pub data Json : Type 0 where
    null : Json
    bool : Bool → Json
    int : ℤ → Json
    float : ℤ → Json
    str : String → Json
    arr : Items → Json
    obj : Fields → Json

  pub data Items : Type 0 where
    nil : Items
    item : Json → Items → Items

  pub data Fields : Type 0 where
    end : Fields
    field : String → Json → Fields → Fields

-- `d.get(k)`
unfoldable pub get : String → Fields → Option Json
get k end = none
get k (field j v d) = if j == k then some v else get k d

-- `d[k] = v`: in place, or at the end.
unfoldable pub set : String → Json → Fields → Fields
set k v end = field k v end
set k v (field j w d) = let rest = set k v d in if j == k then field j v d else field j w rest

-- `d.update(e)`, which is also `{**d, **e}`.
unfoldable pub merge : Fields → Fields → Fields
unfolding set
merge d end = d
merge d (field k v e) = merge (set k v d) e

abbrev is_zero : ℤ → Bool
is_zero (pos n) = eqb n 0
is_zero (negsuc n) = false

-- `bool(v)`
unfoldable pub truthy : Json → Bool
truthy null = false
truthy (bool b) = b
truthy (int n) = not (is_zero n)
truthy (float n) = not (is_zero n)
truthy (str s) = not (s == "")
truthy (arr nil) = false
truthy (arr _) = true
truthy (obj end) = false
truthy (obj _) = true
