-- ===== src/Studio/Releases/InForce.antt =====
-- The releases in force, as a map from agents that only an activation changes.
use mathlib.Core.Path.{subst}
use acr_framework.Prelude.{
  ℕ, String, ◌≡◌, refl, ap, ◌∙◌, inl, inr, Bool, true, false, some, List, [], ◌∷◌, arith, ◌==◌,
  str_iff, if◌then◌else◌, All, All_mono, Distinct, Bool-cases, where_rows, map,
}
use acr_framework.Prelude.Table.{find}
use acr_framework.Prelude.Keys.{keys, keys-map, find_sole}
use acr_framework.Prelude.Select.{
  where_rows-map, where_rows_agree, where_rows-append_out, where_key,
}
use acr_framework.Prelude.Change.{change_where, changed}
use acr_framework.Studio.Releases.{
  PolicyRelease, release_key, is_live_of, is_published_of, has_id, retire, enact, enacted_rows,
  supersede,
}
use acr_framework.Studio.Releases.Sole.{succeeded}

-- The identifiers of the active releases of an agent.
pub in_force : String → List PolicyRelease → List String
in_force a rows = keys release_key (where_rows (is_live_of a) rows)

-- A change of the rows that keeps the identifiers and, for this agent, who is active.
in_force_kept :
    (a : String) (g : PolicyRelease → PolicyRelease) (rows : List PolicyRelease)
    → ((x : PolicyRelease) → release_key (g x) ≡ release_key x)
    → All (λ x. is_live_of a (g x) ≡ is_live_of a x) rows
    → in_force a (map g rows) ≡ in_force a rows
unfolding in_force
in_force_kept a g rows key live =
    ap (keys release_key) (
      where_rows-map (is_live_of a) g rows
      ∙ ap (map g) (where_rows_agree (λ x. is_live_of a (g x)) (is_live_of a) rows live))
    ∙ keys-map release_key g (where_rows (is_live_of a) rows) key

module _ (now : ℕ) (actor uri : String) (rows : List PolicyRelease) (r : PolicyRelease)
    (d : Distinct (keys release_key rows))
    (found : find release_key r.release_id rows ≡ some r) where
  abbrev settled : PolicyRelease → PolicyRelease
  settled x =
      changed (has_id r.release_id) (enact now actor uri) (changed (is_live_of r.agent_id) retire x)

  settled_key : (x : PolicyRelease) → release_key (settled x) ≡ release_key x
  settled_key x = ground arith

  map-map :
      (xs : List PolicyRelease)
      → map
          (changed (has_id r.release_id) (enact now actor uri))
          (map (changed (is_live_of r.agent_id) retire) xs)
        ≡ map settled xs
  map-map [] = refl
  map-map (x ∷ xs) = ap (λ rest. settled x ∷ rest) (map-map xs)

  settled_live :
      (x : PolicyRelease)
      → ((release_key x == r.release_id) ≡ true → x ≡ r)
      → is_live_of r.agent_id (settled x) ≡ has_id r.release_id x
  settled_live x h = elim (Bool-cases (has_id r.release_id x)) [
    | inl e ↦ ground (arith, ap (λ y. y.agent_id) (h e), str_iff x.agent_id r.agent_id)
    | inr e ↦ ground arith
  ]

  settled_other :
      (b : String) (x : PolicyRelease)
      → (r.agent_id == b) ≡ false
      → ((release_key x == r.release_id) ≡ true → x ≡ r)
      → is_live_of b (settled x) ≡ is_live_of b x
  settled_other b x other h = elim (Bool-cases (has_id r.release_id x)) [
    | inl e ↦ ground (
      arith,
      ap (λ y. y.agent_id) (h e),
      str_iff x.agent_id r.agent_id,
      str_iff x.agent_id b,
      str_iff r.agent_id b,
    )
    | inr e ↦
        ground (arith, str_iff x.agent_id r.agent_id, str_iff x.agent_id b, str_iff r.agent_id b)
  ]

  pub in_force-enacted :
      (b : String)
      → in_force b (enacted_rows now r.agent_id r.release_id actor uri rows)
        ≡ (if r.agent_id == b then r.release_id ∷ [] else in_force b rows)
  unfolding enacted_rows change_where in_force
  in_force-enacted b = ap (in_force b) (map-map rows) ∙ elim (Bool-cases (r.agent_id == b)) [
    | inl e ↦
        rw (e, if◌then◌else◌)
          (subst (λ c. in_force c (map settled rows) ≡ r.release_id ∷ [])
            ((str_iff r.agent_id b).0 e) now_in_force)
    | inr e ↦
        rw (e, if◌then◌else◌)
          (in_force_kept b settled rows settled_key (
            All_mono (λ x. (release_key x == r.release_id) ≡ true → x ≡ r)
              (λ x. is_live_of b (settled x) ≡ is_live_of b x) rows (λ x h. settled_other b x e h)
              (find_sole release_key r.release_id rows r d found)))
  ]
    where
      now_in_force : in_force r.agent_id (map settled rows) ≡ r.release_id ∷ []
      now_in_force =
          ap (keys release_key) (
            where_rows-map (is_live_of r.agent_id) settled rows
            ∙ ap (map settled) (
                where_rows_agree (λ x. is_live_of r.agent_id (settled x)) (has_id r.release_id) rows
                  (All_mono (λ x. (release_key x == r.release_id) ≡ true → x ≡ r)
                    (λ x. is_live_of r.agent_id (settled x) ≡ has_id r.release_id x) rows
                    settled_live (find_sole release_key r.release_id rows r d found))
                ∙ where_key release_key r.release_id rows r d found))
          ∙ ap (λ k. k ∷ []) (settled_key r)

-- A change of rows that leaves who is active alone.
pub in_force-change_where :
    (a : String) (q : PolicyRelease → Bool) (f : PolicyRelease → PolicyRelease)
    (rows : List PolicyRelease)
    → ((x : PolicyRelease) → release_key (f x) ≡ release_key x)
    → ((x : PolicyRelease) → is_live_of a (f x) ≡ is_live_of a x)
    → in_force a (change_where q f rows) ≡ in_force a rows
unfolding change_where
in_force-change_where a q f rows key live =
    in_force_kept a (changed q f) rows (λ x. ground (arith, key x)) (every rows)
  where
    every : (xs : List PolicyRelease) → All (λ x. is_live_of a (changed q f x) ≡ is_live_of a x) xs
    every [] = tt
    every (x ∷ xs) = (ground (arith, live x), every xs)

pub in_force-succeeded :
    (a : String) (rows : List PolicyRelease) (r : PolicyRelease)
    → r.is_live ≡ false
    → in_force a (succeeded rows r) ≡ in_force a rows
unfolding in_force
in_force-succeeded a rows r off =
    ap (keys release_key) (
      where_rows-append_out (is_live_of a)
        (change_where (is_published_of r.agent_id) supersede rows) r (ground arith))
    ∙ in_force-change_where a (is_published_of r.agent_id) supersede rows (λ x. refl) (λ x. refl)
