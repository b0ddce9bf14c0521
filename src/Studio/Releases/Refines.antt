-- ===== src/Studio/Releases/Refines.antt =====
-- The calls against the map of the releases in force.
use mathlib.Core.Path.{subst}
use acr_framework.Prelude.{
  String, ◌≡◌, refl, ap, sym, ◌∙◌, Bool, Option, none, some, List, [], ◌∷◌, ◌==◌, if◌then◌else◌,
  ◌+◌,
}
use acr_framework.Prelude.Table.{find}
use acr_framework.Prelude.Change.{change_where}
use acr_framework.Errors.{Result, ok, err}
use acr_framework.Errors.Steps.{bind-eq-ok, ok_injective}
use acr_framework.Studio.Releases.{
  PolicyRelease, StudioState, release_key, has_id, withdraw, publish, rollback_policy_release,
  publish_policy_draft, get_policy_release, rollback_notes, draft_of, stored, release_of,
  current_version,
}
use acr_framework.Studio.Publisher.{Publishing}
use acr_framework.Studio.Drafts.{
  PolicyDraft, create_policy_draft, update_policy_draft, get_policy_draft,
}
use acr_framework.Studio.Releases.History.{
  Call, create_draft, update_draft, publish_draft, rollback, activate, left_by, with_backend,
  published_rows, activated_state, IsConsistent, outcome, run,
}
use acr_framework.Studio.Releases.InForce.{
  in_force, in_force-enacted, in_force-change_where, in_force-succeeded,
}

-- The specification: the map stays, or one agent is switched to one release.
pub data Effect : Type 0 where
  stays : Effect
  switches : (agent release : String) → Effect

abbrev pub applied : Effect → (String → List String) → String → List String
applied stays m a = m a
applied (switches b id) m a = if b == a then id ∷ [] else m a

abbrev switch_to : String → Option PolicyRelease → Effect
switch_to id none = stays
switch_to id (some r) = switches r.agent_id id

-- An activation that succeeds switches the agent of the release; no other call has an effect.
abbrev pub effect_of : Call → Result StudioState → StudioState → Effect
effect_of (activate now id actor b) (ok s') s = switch_to id (find release_key id s.releases)
effect_of _ _ s = stays

module _ (p : Publishing) where
  publish_stays :
      (b : Bool) (id : String) (d : PolicyDraft) (actor : String) (notes from_id : Option String)
      (rows rows' : List PolicyRelease) (a : String)
      → publish_policy_draft (with_backend p b) id d actor notes from_id rows ≡ ok rows'
      → in_force a rows' ≡ in_force a rows
  publish_stays b id d actor notes from_id rows rows' a h =
      let (w, same, _, _) = published_rows p b id d actor notes from_id rows rows' h in
      ap (in_force a) same
      ∙ in_force-succeeded a rows
          (stored w (release_of id d (current_version d.agent_id rows + 1) actor notes from_id))
          refl

  outcome_refines :
      (c : Call) (s s' : StudioState) (a : String)
      → IsConsistent p s
      → outcome p c s ≡ ok s'
      → in_force a s'.releases ≡ applied (effect_of c (ok s') s) (λ b. in_force b s.releases) a
  unfolding outcome publish rollback_policy_release
  outcome_refines (create_draft id req actor) s s' a g h =
      let (d, _, e) = bind-eq-ok (create_policy_draft id req actor s.drafts) _ s' h in
      ap (λ t. in_force a t.releases) (sym (ok_injective e))
  outcome_refines (update_draft id req actor) s s' a g h =
      let (d, _, e) = bind-eq-ok (update_policy_draft id req actor s.drafts) _ s' h in
      ap (λ t. in_force a t.releases) (sym (ok_injective e))
  outcome_refines (publish_draft id of_id actor notes b) s s' a g h =
      let (d, _, h₁) = bind-eq-ok (get_policy_draft of_id s.drafts) _ s' h in
      let (rows, made, e) =
        bind-eq-ok (publish_policy_draft (with_backend p b) id d actor notes none s.releases) _ s'
          h₁ in
      ap (λ t. in_force a t.releases) (sym (ok_injective e))
      ∙ publish_stays b id d actor notes none s.releases rows a made
  outcome_refines (rollback id of_id actor notes b) s s' a g h =
      let (r, _, h₁) = bind-eq-ok (get_policy_release of_id s.releases) _ s' h in
      let (rows, made, e) =
        bind-eq-ok
          (publish_policy_draft (with_backend p b) id (draft_of r) actor
            (rollback_notes of_id notes) (some of_id)
            (change_where (has_id of_id) withdraw s.releases))
          _ s' h₁ in
      ap (λ t. in_force a t.releases) (sym (ok_injective e))
      ∙ publish_stays b id (draft_of r) actor (rollback_notes of_id notes) (some of_id)
          (change_where (has_id of_id) withdraw s.releases) rows a made
      ∙ in_force-change_where a (has_id of_id) withdraw s.releases (λ x. refl) (λ x. refl)
  outcome_refines (activate now id actor b) s s' a g h =
      let (r, uri, same, found, e) = activated_state p b now id actor s s' h in
      ap (λ t. in_force a t.releases) e
      ∙ in_force-enacted now actor uri s.releases r g.rows.unique found a
      ∙ subst
          (λ k.
            (if r.agent_id == a then k ∷ [] else in_force a s.releases)
            ≡ applied (switch_to id (find release_key id s.releases)) (λ b. in_force b s.releases)
                a)
          (sym same)
          (ap (λ o. applied (switch_to id o) (λ b. in_force b s.releases) a)
            (sym (subst (λ k. find release_key k s.releases ≡ some r) same found)))

  -- The releases in force refine a map from agents to releases. A call that raises, and every call on
  -- drafts, every publication and every rollback leave the map as it was; an activation that succeeds
  -- switches the agent of the release to exactly this release and leaves the other agents alone. The
  -- releases are consistent before the call.
  pub run_refines :
      (c : Call) (s : StudioState) (a : String)
      → IsConsistent p s
      → in_force a (run p c s).releases
        ≡ applied (effect_of c (outcome p c s) s) (λ b. in_force b s.releases) a
  unfolding run
  run_refines c s a g = after (outcome p c s) refl
    where
      after :
          (o : Result StudioState)
          → outcome p c s ≡ o
          → in_force a (left_by s o).releases
            ≡ applied (effect_of c o s) (λ b. in_force b s.releases) a
      after (ok s') e = outcome_refines c s s' a g e
      after (err x) e = calm c
        where
          calm :
              (k : Call)
              → in_force a s.releases
                ≡ applied (effect_of k (err x) s) (λ b. in_force b s.releases) a
          calm (create_draft _ _ _) = refl
          calm (update_draft _ _ _) = refl
          calm (publish_draft _ _ _ _ _) = refl
          calm (rollback _ _ _ _ _) = refl
          calm (activate _ _ _ _) = refl
