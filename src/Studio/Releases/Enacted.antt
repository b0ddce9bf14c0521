-- ===== src/Studio/Releases/Enacted.antt =====
-- What the activation of a release changes in the table of releases.
use mathlib.Core.Path.{subst}
use acr_framework.Prelude.{
  ℕ, String, ◌≡◌, ◌≤◌, refl, inl, inr, Bool, true, ◌&&◌, some, List, arith, ◌==◌, str_iff, count_if,
  Distinct, Bool-cases, ap, map,
}
use acr_framework.Prelude.Table.{find}
use acr_framework.Prelude.Keys.{keys, count-map, count_sole, find_sole}
use acr_framework.Prelude.Change.{
  change_where, changed, count-change_where_le, change_where_same, change_where-Distinct,
  All-change_where,
}
use acr_framework.Studio.Releases.{
  PolicyRelease, release_key, is_live_of, is_published_of, has_id, retire, enact, enacted_rows,
}
use acr_framework.Studio.Releases.Sole.{IsReleased, is_numbered}

-- The activation of a release: the active releases of its agent are retired, and it is made active.
module _ (now : ℕ) (actor uri : String) (rows : List PolicyRelease) (r : PolicyRelease)
    (d : Distinct (keys release_key rows))
    (found : find release_key r.release_id rows ≡ some r) where
  abbrev on_this : PolicyRelease → Bool
  on_this x = has_id r.release_id x && x.agent_id == r.agent_id

  abbrev retired : List PolicyRelease
  retired = change_where (is_live_of r.agent_id) retire rows

  -- The only row with the identifier is the release itself.
  this_row :
      change_where (has_id r.release_id) (enact now actor uri) retired
      ≡ change_where on_this (enact now actor uri) retired
  this_row = change_where_same (has_id r.release_id) on_this (enact now actor uri) retired (
      All-change_where (λ x. (release_key x == r.release_id) ≡ true → x ≡ r)
        (λ x. has_id r.release_id x ≡ on_this x) (is_live_of r.agent_id) retire rows
        (λ x h. elim (Bool-cases (release_key x == r.release_id)) [
          | inl e ↦ ground (arith, ap (λ y. y.agent_id) (h e), str_iff x.agent_id r.agent_id)
          | inr e ↦ ground arith
        ])
        (find_sole release_key r.release_id rows r d found))

  enacted_is :
      (x : PolicyRelease)
      → is_live_of r.agent_id (
          changed
            (has_id r.release_id)
            (enact now actor uri)
            (changed (is_live_of r.agent_id) retire x))
        ≡ true
      → release_key x ≡ r.release_id
  enacted_is x h = ground (arith, str_iff x.release_id r.release_id)

  one_live :
      count_if (is_live_of r.agent_id) (enacted_rows now r.agent_id r.release_id actor uri rows) ≤ 1
  unfolding enacted_rows change_where
  one_live = omega (
    arith,
    count-map (is_live_of r.agent_id) (changed (has_id r.release_id) (enact now actor uri))
        (map (changed (is_live_of r.agent_id) retire) rows),
    count-map (λ x. is_live_of r.agent_id (changed (has_id r.release_id) (enact now actor uri) x))
        (changed (is_live_of r.agent_id) retire) rows,
    count_sole release_key r.release_id
        (λ x. is_live_of r.agent_id (
          changed (has_id r.release_id) (enact now actor uri)
            (changed (is_live_of r.agent_id) retire x)))
        rows enacted_is d,
  )

  -- A test that neither retiring nor enacting makes true.
  no_more :
      (q : PolicyRelease → Bool)
      → ((x : PolicyRelease) → q (retire x) ≡ true → q x ≡ true)
      → ((x : PolicyRelease) → on_this x ≡ true → q (enact now actor uri x) ≡ true → q x ≡ true)
      → count_if q (enacted_rows now r.agent_id r.release_id actor uri rows) ≤ count_if q rows
  unfolding enacted_rows
  no_more q calm calm' = rw this_row (
      omega (
        arith,
        count-change_where_le on_this q (enact now actor uri) retired calm',
        count-change_where_le (is_live_of r.agent_id) q retire rows (λ x e h. calm x h),
      ))

  pub enacted_rows-IsReleased :
      IsReleased rows → IsReleased (enacted_rows now r.agent_id r.release_id actor uri rows)
  unfolding enacted_rows
  enacted_rows-IsReleased g = record {
    unique =
        change_where-Distinct release_key (has_id r.release_id) (enact now actor uri) retired
          (λ x. refl)
          (change_where-Distinct release_key (is_live_of r.agent_id) retire rows (λ x. refl) d);
    live = λ b. elim (Bool-cases (r.agent_id == b)) [
      | inl e ↦
          subst
            (λ c.
              count_if (is_live_of c) (enacted_rows now r.agent_id r.release_id actor uri rows) ≤ 1)
            ((str_iff r.agent_id b).0 e) one_live
      | inr e ↦ omega (
        arith,
        no_more (is_live_of b) (λ x h. ground arith)
            (λ x t h.
              ground
                (arith, str_iff x.agent_id r.agent_id, str_iff x.agent_id b, str_iff r.agent_id b)),
        g.live b,
      )
    ];
    sole = λ b. omega (arith, no_more (is_published_of b) (λ x h. h) (λ x t h. h), g.sole b);
    numbered =
        λ b v. omega (arith, no_more (is_numbered b v) (λ x h. h) (λ x t h. h), g.numbered b v);
  }
