-- ===== src/Drift/Governance/Sole.antt =====
-- At most one version of an agent's baseline is active.
use mathlib.Core.Path.{subst}
use acr_framework.Prelude.{
  ℕ, String, ◌≡◌, ◌≤◌, refl, inl, inr, Bool, true, false, Option, none, List, [], ◌∷◌, ◌++◌, map,
  arith, ◌==◌, str_iff, count_if, Distinct, Bool-cases, Option-cases,
}
use acr_framework.Prelude.Table.{find}
use acr_framework.Prelude.Keys.{keys, Distinct-snoc, count-map, count-append, count_sole}
use acr_framework.Prelude.Change.{
  change_where, changed, count-change_where_le, change_where-Distinct,
}
use acr_framework.Errors.{ok}
use acr_framework.Drift.Governance.{
  BaselineVersion, version_key, superseded, is_active, is_active_of, is_version, is_rival,
  approve_row, reject_row, activate_row, activated_rows, insert_version,
}

-- Identifiers are unique, and no agent has two active versions.
pub record IsGoverned (rows : List BaselineVersion) : Type 0 where
  pub unique : Distinct (keys version_key rows)
  pub sole : (a : String) → count_if (is_active_of a) rows ≤ 1

-- A change that makes no version of an agent active leaves it at most one.
change_where_sole :
    (p : BaselineVersion → Bool) (f : BaselineVersion → BaselineVersion) (a : String)
    (rows : List BaselineVersion)
    → ((r : BaselineVersion) → p r ≡ true → is_active_of a (f r) ≡ true → is_active_of a r ≡ true)
    → count_if (is_active_of a) rows ≤ 1
    → count_if (is_active_of a) (change_where p f rows) ≤ 1
change_where_sole p f a rows calm sole =
    omega (arith, count-change_where_le p (is_active_of a) f rows calm, sole)

pub reviewed-IsGoverned :
    (p : BaselineVersion → Bool) (f : BaselineVersion → BaselineVersion)
    (rows : List BaselineVersion)
    → ((r : BaselineVersion) → version_key (f r) ≡ version_key r)
    → ((a : String) (r : BaselineVersion) → is_active_of a (f r) ≡ false)
    → IsGoverned rows
    → IsGoverned (change_where p f rows)
reviewed-IsGoverned p f rows same off g = record {
  unique = change_where-Distinct version_key p f rows same g.unique;
  sole = λ a. change_where_sole p f a rows (λ r e h. absurd (ground (arith, off a r))) (g.sole a);
}

pub approve_row_key :
    (now : ℕ) (actor : String) (notes : Option String) (r : BaselineVersion)
    → version_key (approve_row now actor notes r) ≡ version_key r
approve_row_key now actor notes r = ground arith

pub approve_row_off :
    (now : ℕ) (actor : String) (notes : Option String) (a : String) (r : BaselineVersion)
    → is_active_of a (approve_row now actor notes r) ≡ false
approve_row_off now actor notes a r = ground arith

pub reject_row_key :
    (now : ℕ) (actor : String) (notes : Option String) (r : BaselineVersion)
    → version_key (reject_row now actor notes r) ≡ version_key r
reject_row_key now actor notes r = ground arith

pub reject_row_off :
    (now : ℕ) (actor : String) (notes : Option String) (a : String) (r : BaselineVersion)
    → is_active_of a (reject_row now actor notes r) ≡ false
reject_row_off now actor notes a r = ground arith

pub activate_row_key :
    (now : ℕ) (actor : String) (notes : Option String) (r : BaselineVersion)
    → version_key (activate_row now actor notes r) ≡ version_key r
activate_row_key now actor notes r = ground arith

activate_row_agent :
    (now : ℕ) (actor : String) (notes : Option String) (r : BaselineVersion)
    → (activate_row now actor notes r).agent_id ≡ r.agent_id
activate_row_agent now actor notes r = ground arith

abbrev pub supersede : BaselineVersion → BaselineVersion
supersede r = record r { status = superseded }

-- After an activation the only active version of the agent is the activated one.
activated_is :
    (now : ℕ) (a v actor : String) (notes : Option String) (r : BaselineVersion)
    → is_active_of a (
        changed
          (is_version a v)
          (activate_row now actor notes)
          (changed (is_rival a v) supersede r))
      ≡ true
    → version_key r ≡ v
activated_is now a v actor notes r h = ground (arith, str_iff r.baseline_version_id v)

one_left :
    (now : ℕ) (a v actor : String) (notes : Option String) (rows : List BaselineVersion)
    → Distinct (keys version_key rows)
    → count_if (is_active_of a) (activated_rows now a v actor notes rows) ≤ 1
unfolding activated_rows change_where
one_left now a v actor notes rows d = omega (
  arith,
  count-map (is_active_of a) (changed (is_version a v) (activate_row now actor notes))
      (map (changed (is_rival a v) supersede) rows),
  count-map (λ r. is_active_of a (changed (is_version a v) (activate_row now actor notes) r))
      (changed (is_rival a v) supersede) rows,
  count_sole version_key v
      (λ r. is_active_of a (
        changed (is_version a v) (activate_row now actor notes)
          (changed (is_rival a v) supersede r)))
      rows (activated_is now a v actor notes) d,
)

-- The versions of the other agents are not touched.
as_before :
    (now : ℕ) (a b v actor : String) (notes : Option String) (rows : List BaselineVersion)
    → (a == b) ≡ false
    → count_if (is_active_of b) rows ≤ 1
    → count_if (is_active_of b) (activated_rows now a v actor notes rows) ≤ 1
unfolding activated_rows
as_before now a b v actor notes rows other sole =
    change_where_sole (is_version a v) (activate_row now actor notes) b
      (change_where (is_rival a v) supersede rows)
      (λ r e h. ground (
        arith,
        activate_row_agent now actor notes r,
        str_iff r.agent_id a,
        str_iff r.agent_id b,
        str_iff a b,
      ))
      (change_where_sole (is_rival a v) supersede b rows (λ r e h. ground arith) sole)

pub activated_rows-IsGoverned :
    (now : ℕ) (a v actor : String) (notes : Option String) (rows : List BaselineVersion)
    → IsGoverned rows
    → IsGoverned (activated_rows now a v actor notes rows)
unfolding activated_rows
activated_rows-IsGoverned now a v actor notes rows g = record {
  unique =
      change_where-Distinct version_key (is_version a v) (activate_row now actor notes)
        (change_where (is_rival a v) supersede rows) (activate_row_key now actor notes)
        (change_where-Distinct version_key (is_rival a v) supersede rows (λ r. refl) g.unique);
  sole = λ b. elim (Bool-cases (a == b)) [
    | inl same ↦
        subst (λ x. count_if (is_active_of x) (activated_rows now a v actor notes rows) ≤ 1)
          ((str_iff a b).0 same) (one_left now a v actor notes rows g.unique)
    | inr other ↦ as_before now a b v actor notes rows other (g.sole b)
  ];
}

inserted_rows :
    (r : BaselineVersion) (rows rows' : List BaselineVersion)
    → insert_version r rows ≡ ok rows'
    → (find version_key r.baseline_version_id rows ≡ none) × (rows ++ r ∷ [] ≡ rows')
unfolding insert_version
inserted_rows r rows rows' e = elim (Option-cases (find version_key r.baseline_version_id rows)) [
  | inl p ↦ (p, ground arith)
  | inr (x, p) ↦ absurd (ground arith)
]

pub insert_version-IsGoverned :
    (r : BaselineVersion) (rows rows' : List BaselineVersion)
    → is_active r ≡ false
    → insert_version r rows ≡ ok rows'
    → IsGoverned rows
    → IsGoverned rows'
insert_version-IsGoverned r rows rows' c e g =
    let (new, same) = inserted_rows r rows rows' e in
    subst IsGoverned same (record {
      unique = Distinct-snoc version_key rows r g.unique new;
      sole = λ a. ground (arith, count-append (is_active_of a) rows r, g.sole a);
    })
