-- ===== src/Identity/Registry/Lineage.antt =====
-- What `get_lineage` returns: a chain of rows linked by parent_agent_id, without repetition, that
-- goes on as far as the table and the bound of 32 rounds allow.
use mathlib.Core.Path.{subst}
use acr_framework.Prelude.{
  sym, ℕ, zero, suc, ◌+◌, ◌≤◌, String, ◌≡◌, refl, ◌⊎◌, inl, inr, true, false, Option, none, some,
  List, [], ◌∷◌, arith, contains, length, All, Option-cases, Bool-cases, where_rows, Distinct,
}
use acr_framework.Prelude.Table.{find, key-find}
use acr_framework.Errors.{ok}
use acr_framework.Identity.Models.{AgentRecord}
use acr_framework.Identity.Registry.{
  AgentTable, agent_key, next_parent, climb, is_child_of, get_lineage,
}

abbrev pub ids : List AgentRecord → List String
ids [] = []
ids (r ∷ rs) = r.agent_id ∷ ids rs

-- Each row is the parent that the next row names.
abbrev pub Linked : List AgentRecord → Type 0
Linked [] = Unit
Linked (x ∷ []) = Unit
Linked (x ∷ y ∷ rs) = (y.parent_agent_id ≡ some x.agent_id) × Linked (y ∷ rs)

abbrev pub EndsIn : AgentRecord → List AgentRecord → Type 0
EndsIn leaf [] = ⊥
EndsIn leaf (x ∷ []) = x ≡ leaf
EndsIn leaf (x ∷ y ∷ rs) = EndsIn leaf (y ∷ rs)

-- Why a chain goes no further: its top names no parent, a parent on the chain, or a missing one.
abbrev pub IsTop : AgentTable → List String → Option String → Type 0
IsTop db seen none = Unit
IsTop db seen (some p) = (contains p seen ≡ true) ⊎ (find agent_key p db ≡ none)

abbrev pub Stops : AgentTable → List AgentRecord → Type 0
Stops db [] = ⊥
Stops db (x ∷ rs) = IsTop db (ids (x ∷ rs)) x.parent_agent_id

pub record IsLineage (db : AgentTable) (leaf : AgentRecord) (bound : ℕ) (out : List AgentRecord)
    : Type 0 where
  pub linked : Linked out
  pub distinct : Distinct (ids out)
  pub ends : EndsIn leaf out
  pub rows : All (λ r. find agent_key r.agent_id db ≡ some r) out
  pub short : length out ≤ bound
  pub whole : Stops db out ⊎ (length out ≡ bound)

next_parent-eq-none :
    (db : AgentTable) (seen : List String) (p : Option String)
    → next_parent db seen p ≡ none
    → IsTop db seen p
unfolding next_parent
next_parent-eq-none db seen none h = tt
next_parent-eq-none db seen (some p) h = ground arith

next_parent-eq-some :
    (db : AgentTable) (seen : List String) (p : Option String) (r : AgentRecord)
    → next_parent db seen p ≡ some r
    → (p ≡ some r.agent_id)
      × (contains r.agent_id seen ≡ false)
      × (find agent_key r.agent_id db ≡ some r)
unfolding next_parent
next_parent-eq-some db seen none r h = ground arith
next_parent-eq-some db seen (some p) r h = elim (Bool-cases (contains p seen)) [
  | inl old ↦ ground arith
  | inr new ↦
      let found : find agent_key p db ≡ some r = ground arith in
      let named = key-find agent_key p db found in (cc, cc, cc)
]

climb_lem :
    (db : AgentTable) (leaf : AgentRecord) (bound rounds : ℕ) (cursor : AgentRecord)
    (rest : List AgentRecord)
    → bound ≡ rounds + length (cursor ∷ rest)
    → Linked (cursor ∷ rest)
    → Distinct (ids (cursor ∷ rest))
    → EndsIn leaf (cursor ∷ rest)
    → All (λ r. find agent_key r.agent_id db ≡ some r) (cursor ∷ rest)
    → IsLineage db leaf bound (climb rounds db (ids (cursor ∷ rest)) cursor (cursor ∷ rest))
unfolding climb
climb_lem db leaf bound zero cursor rest b l d e a = record {
  linked = l;
  distinct = d;
  ends = e;
  rows = a;
  short = omega arith;
  whole = inr (omega arith);
}
climb_lem db leaf bound (suc n) cursor rest b l d e a =
    elim (Option-cases (next_parent db (ids (cursor ∷ rest)) cursor.parent_agent_id)) [
      | inl stop ↦
          rw (stop, climb)
            (record {
              linked = l;
              distinct = d;
              ends = e;
              rows = a;
              short = omega arith;
              whole =
                  inl (next_parent-eq-none db (ids (cursor ∷ rest)) cursor.parent_agent_id stop);
            })
      | inr (parent, go) ↦
          let (named, new, found) =
            next_parent-eq-some db (ids (cursor ∷ rest)) cursor.parent_agent_id parent go in
          rw (go, climb)
            (climb_lem db leaf bound n parent (cursor ∷ rest) (omega arith) (named, l) (new, d) e
              (found, a))
    ]

-- For a registered agent `get_lineage` succeeds. Its ancestors are rows of the table, at most 33 and
-- none twice, each the parent that the next one names, and the last is the agent. The chain is
-- complete: its first row names no parent, one on the chain, or one not in the table, unless it has
-- all 33 rows. The children are the rows that name the agent as their parent.
pub get_lineage_lem :
    (db : AgentTable) (a : String) (leaf : AgentRecord)
    → find agent_key a db ≡ some leaf
    → (out : List AgentRecord) × (get_lineage db a ≡ ok (out, where_rows (is_child_of a) db))
      × IsLineage db leaf 33 out
unfolding get_lineage contains
get_lineage_lem db a leaf found =
    let row : find agent_key leaf.agent_id db ≡ some leaf =
      subst (λ k. find agent_key k db ≡ some leaf) (sym (key-find agent_key a db found)) found in
    (
      climb 32 db (leaf.agent_id ∷ []) leaf (leaf ∷ []),
      rw found refl,
      climb_lem db leaf 33 32 leaf [] (omega arith) tt (refl, tt) refl (row, tt),
    )
