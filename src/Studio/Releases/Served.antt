-- ===== src/Studio/Releases/Served.antt =====
-- The active bundle of an agent at the backend is the one of its active release.
use acr_framework.Prelude.{
  ℕ, String, ◌≡◌, refl, inl, inr, true, false, Option, some, List, arith, ◌==◌, str_iff,
  if◌then◌else◌, All, Distinct, Bool-cases, Bool, All_and,
}
use acr_framework.Prelude.Table.{find}
use acr_framework.Prelude.Keys.{keys, find_sole}
use acr_framework.Prelude.Change.{change_where, changed, All-change_where}
use acr_framework.Redis.{put}
use acr_framework.Studio.Publisher.{Publishing, Artifact}
use acr_framework.Studio.Releases.{
  PolicyRelease, release_key, is_live_of, has_id, retire, enact, enacted_rows, artifact_of,
}

module _ (p : Publishing) where
  abbrev pub Serves : (String → Option Artifact) → PolicyRelease → Type 0
  Serves bundles x = x.is_live ≡ true → bundles x.agent_id ≡ some (artifact_of p x)

  abbrev pub IsServed : (String → Option Artifact) → List PolicyRelease → Type 0
  IsServed bundles rows = All (Serves bundles) rows

  pub status-IsServed :
      (bundles : String → Option Artifact) (q : PolicyRelease → Bool)
      (f : PolicyRelease → PolicyRelease) (rows : List PolicyRelease)
      → ((x : PolicyRelease) → Serves bundles x → Serves bundles (f x))
      → IsServed bundles rows
      → IsServed bundles (change_where q f rows)
  status-IsServed bundles q f rows keep h =
      All-change_where (Serves bundles) (Serves bundles) q f rows
        (λ x s. elim (Bool-cases (q x)) [
          | inl e ↦ rw (e, if◌then◌else◌) (keep x s)
          | inr e ↦ rw (e, if◌then◌else◌) s
        ])
        h

  module _ (now : ℕ) (actor uri : String) (bundles : String → Option Artifact)
      (rows : List PolicyRelease) (r : PolicyRelease) where
    abbrev bundles' : String → Option Artifact
    bundles' = put r.agent_id (some (artifact_of p r)) bundles

    other-Serves :
        (x : PolicyRelease)
        → Serves bundles x
        → Serves bundles' (changed (is_live_of r.agent_id) retire x)
    other-Serves x s h =
        ground (arith, s, str_iff x.agent_id r.agent_id, str_iff r.agent_id x.agent_id)

    this-Serves :
        (x : PolicyRelease)
        → x ≡ r
        → Serves bundles' (enact now actor uri (changed (is_live_of r.agent_id) retire x))
    this-Serves x e h = rw e (ground (arith, str_iff r.agent_id r.agent_id))

    -- The row of the release serves the new bundle, and another row what it did, or it is retired.
    enacted-Serves :
        (x : PolicyRelease)
        → Serves bundles x × ((release_key x == r.release_id) ≡ true → x ≡ r)
        → Serves bundles' (
            changed
              (has_id r.release_id)
              (enact now actor uri)
              (changed (is_live_of r.agent_id) retire x))
    enacted-Serves x h =
        rw (same_id (is_live_of r.agent_id x)) (elim (Bool-cases (has_id r.release_id x)) [
          | inl e ↦ rw (e, if◌then◌else◌) (this-Serves x (h.1 e))
          | inr e ↦ rw (e, if◌then◌else◌) (other-Serves x h.0)
        ])
      where
        same_id :
            (b : Bool) → has_id r.release_id (if b then retire x else x) ≡ has_id r.release_id x
        same_id true = refl
        same_id false = refl

    pub enacted_rows-IsServed :
        Distinct (keys release_key rows)
        → find release_key r.release_id rows ≡ some r
        → IsServed bundles rows
        → IsServed bundles' (enacted_rows now r.agent_id r.release_id actor uri rows)
    unfolding enacted_rows
    enacted_rows-IsServed d found h =
        All-change_where
          (λ y. Serves bundles' (changed (has_id r.release_id) (enact now actor uri) y))
          (Serves bundles') (has_id r.release_id) (enact now actor uri)
          (change_where (is_live_of r.agent_id) retire rows) (λ y s. s)
          (All-change_where
            (λ x. Serves bundles x × ((release_key x == r.release_id) ≡ true → x ≡ r))
            (λ y. Serves bundles' (changed (has_id r.release_id) (enact now actor uri) y))
            (is_live_of r.agent_id) retire rows enacted-Serves
            (All_and (Serves bundles) (λ x. (release_key x == r.release_id) ≡ true → x ≡ r) rows h
              (find_sole release_key r.release_id rows r d found)))
