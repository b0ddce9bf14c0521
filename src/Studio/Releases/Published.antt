-- ===== src/Studio/Releases/Published.antt =====
-- What a publication puts into the table.
use acr_framework.Prelude.{
  ℕ, ◌+◌, ◌≤◌, ◌<◌, String, ◌≡◌, refl, ◌∙◌, true, false, Option, none, some, List, [], ◌∷◌, arith,
  str_iff, All, All_mono, sym,
}
use mathlib.Core.Path.{subst}
use acr_framework.Prelude.Table.{find, find-append_none}
use acr_framework.Prelude.Keys.{find_absent}
use acr_framework.Prelude.Change.{change_where, keys-change_where}
use acr_framework.Errors.{ok}
use acr_framework.Errors.Steps.{bind-eq-ok, ok_injective}
use acr_framework.Studio.Drafts.{
  get_policy_draft, PolicyDraft, validate_policy_draft_record, is_valid,
}
use acr_framework.Studio.Publisher.{Publishing}
use acr_framework.Studio.Releases.{
  PolicyRelease, StudioState, release_key, is_published_of, current_version, supersede, release_of,
  stored, publish, publish_policy_draft, published,
}
use acr_framework.Studio.Releases.Sole.{succeeded}
use acr_framework.Studio.Releases.History.{published_rows}

-- The version that is counted from is at least that of every release of the agent.
below_current :
    (a : String) (v : ℕ) (rows : List PolicyRelease)
    → current_version a rows ≤ v
    → All (λ x. x.agent_id ≡ a → x.version ≤ v) rows
unfolding current_version
below_current a v [] h = tt
below_current a v (r ∷ rows) h =
    (λ e. ground (arith, str_iff r.agent_id a), below_current a v rows (ground arith))

-- The new release is the one with its identifier.
new_release :
    (rows : List PolicyRelease) (r : PolicyRelease)
    → find release_key r.release_id rows ≡ none
    → find release_key r.release_id (succeeded rows r) ≡ some r
new_release rows r fresh =
    find-append_none release_key r.release_id
      (change_where (is_published_of r.agent_id) supersede rows) r
      (find_absent release_key r.release_id rows
        (change_where (is_published_of r.agent_id) supersede rows)
        (keys-change_where release_key (is_published_of r.agent_id) supersede rows (λ x. refl))
        fresh)
    ∙ ground (arith, str_iff r.release_id r.release_id)

-- When a publication succeeds, the draft is there and passes the validation, and a release with the
-- given identifier is in the table, which was not in use before. It has the manifest and the policy of
-- the draft, is published and not active, and its version is above that of every earlier release of
-- the agent.
pub publish_lem :
    (p : Publishing) (id draft_id actor : String) (notes : Option String) (s s' : StudioState)
    → publish p id draft_id actor notes s ≡ ok s'
    → (d : PolicyDraft) × (get_policy_draft draft_id s.drafts ≡ ok d)
      × (is_valid (validate_policy_draft_record d) ≡ true)
      × (find release_key id s.releases ≡ none)
      × ((r : PolicyRelease) × (find release_key id s'.releases ≡ some r)
          × (r.agent_id ≡ d.agent_id)
          × (r.manifest ≡ d.manifest)
          × (r.rego_policy ≡ d.rego_policy)
          × (r.status ≡ published)
          × (r.is_live ≡ false)
          × All (λ x. x.agent_id ≡ r.agent_id → x.version < r.version) s.releases)
unfolding publish
publish_lem p id draft_id actor notes s s' h =
    let (d, got, h₁) = bind-eq-ok (get_policy_draft draft_id s.drafts) _ s' h in
    let (rows, made, e) =
      bind-eq-ok (publish_policy_draft p id d actor notes none s.releases) _ s' h₁ in
    let (w, same, fresh, valid) =
      published_rows p p.refuses id d actor notes none s.releases rows made in
    let version = current_version d.agent_id s.releases + 1 in
    let r = stored w (release_of id d version actor notes none) in
    (
      d,
      got,
      valid,
      fresh,
      (
        r,
        subst (λ t. find release_key id t.releases ≡ some r) (ok_injective e)
            (subst (λ xs. find release_key id xs ≡ some r) (sym same)
              (new_release s.releases r fresh)),
        refl,
        refl,
        refl,
        refl,
        refl,
        All_mono (λ x. x.agent_id ≡ d.agent_id → x.version ≤ current_version d.agent_id s.releases)
            (λ x. x.agent_id ≡ d.agent_id → x.version < version) s.releases
            (λ x k e. let le = k e in omega arith)
            (below_current d.agent_id (current_version d.agent_id s.releases) s.releases
              (omega arith)),
      ),
    )
