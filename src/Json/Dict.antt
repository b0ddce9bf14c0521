-- ===== src/Json/Dict.antt =====
-- Lookup laws of the dictionary operations.
use acr_framework.Prelude.{
  String, ◌≡◌, refl, Bool, false, ◌||◌, Option, none, some, arith, ◌==◌, str_iff, if◌then◌else◌,
}
use acr_framework.Json.{Json, Fields, end, field, get, set, merge}

-- A Python dictionary has each key once.
abbrev pub has_key : String → Fields → Bool
has_key k end = false
has_key k (field j v d) = j == k || has_key k d

abbrev pub IsDict : Fields → Type 0
IsDict end = Unit
IsDict (field k v d) = (has_key k d ≡ false) × IsDict d

abbrev pub or_else : Option Json → Option Json → Option Json
or_else (some v) o = some v
or_else none o = o

pub get-set :
    (k j : String) (v : Json) (d : Fields)
    → get j (set k v d) ≡ (if k == j then some v else get j d)
unfolding get set
get-set k j v end = refl
get-set k j v (field i w d) = ground (arith, str_iff i k, str_iff k j, str_iff i j, get-set k j v d)

pub get-missing : (k : String) (d : Fields) → has_key k d ≡ false → get k d ≡ none
unfolding get
get-missing k end h = refl
get-missing k (field j v d) h = ground (arith, get-missing k d)

has_key-set : (k j : String) (v : Json) (d : Fields) → has_key j (set k v d) ≡ k == j || has_key j d
unfolding set
has_key-set k j v end = refl
has_key-set k j v (field i w d) =
    ground (arith, str_iff i k, str_iff k j, str_iff i j, has_key-set k j v d)

pub set-IsDict : (k : String) (v : Json) (d : Fields) → IsDict d → IsDict (set k v d)
unfolding set
set-IsDict k v end h = (refl, tt)
set-IsDict k v (field i w d) h =
    ground (arith, str_iff k i, str_iff i k, has_key-set k i v d, set-IsDict k v d)

-- The entries of the second dictionary win.
pub get-merge :
    (k : String) (d e : Fields) → IsDict e → get k (merge d e) ≡ or_else (get k e) (get k d)
unfolding merge get
get-merge k d end h = refl
get-merge k d (field j v e) h =
    ground (arith, get-merge k (set j v d) e, get-set j k v d, get-missing k e, str_iff j k)
