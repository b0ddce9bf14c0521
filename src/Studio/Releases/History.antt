-- ===== src/Studio/Releases/History.antt =====
-- Any history of calls on drafts and releases.
use mathlib.Core.Path.{subst}
use acr_framework.Redis.{put}
use acr_framework.Prelude.{
  ℕ, ◌+◌, String, ◌≡◌, refl, Bool, Option, none, some, List, [], ◌∷◌, arith, All-append, sym, ◌∙◌,
  ap, true,
}
use acr_framework.Prelude.Table.{find, key-find}
use acr_framework.Prelude.Change.{change_where}
use acr_framework.Errors.{Result, ok, err, guard, policy_validation, ◌>>=◌}
use acr_framework.Errors.Steps.{bind-eq-ok, guard-eq-ok, ok_injective}
use acr_framework.Studio.Drafts.{
  PolicyDraft, UpsertRequest, create_policy_draft, update_policy_draft, get_policy_draft,
  validate_policy_draft_record, is_valid,
}
use acr_framework.Studio.Publisher.{
  Publishing, publish_policy_bundle, publish_active_policy_bundle, PublishedBundle,
}
use acr_framework.Studio.Releases.{
  PolicyRelease, StudioState, enacted_rows, release_key, is_published_of, has_id, release_of,
  stored, draft_of, current_version, fresh_id, get_policy_release, artifact_of, withdraw, supersede,
  activate_policy_release, publish_policy_draft, publish, rollback_policy_release, rollback_notes,
}
use acr_framework.Studio.Releases.Sole.{
  IsReleased, unpublished-IsReleased, succeeded, succeeded-IsReleased,
}
use acr_framework.Studio.Releases.Enacted.{enacted_rows-IsReleased}
use acr_framework.Studio.Releases.Served.{IsServed, Serves, status-IsServed, enacted_rows-IsServed}

-- The calls, with the fresh identifier of the new row, and whether the backend refuses the write.
pub data Call : Type 0 where
  create_draft update_draft : (id : String) → UpsertRequest → (actor : String) → Call
  publish_draft rollback : (id of_id actor : String) → Option String → Bool → Call
  activate : ℕ → (id actor : String) → Bool → Call

abbrev pub left_by : StudioState → Result StudioState → StudioState
left_by s (ok s') = s'
left_by s (err e) = s

abbrev with_drafts : StudioState → Result (PolicyDraft × List PolicyDraft) → Result StudioState
with_drafts s r = r >>= (λ d. ok (record s { drafts = d.1 }))

found_release :
    (id : String) (rows : List PolicyRelease) (r : PolicyRelease)
    → get_policy_release id rows ≡ ok r
    → find release_key id rows ≡ some r
unfolding get_policy_release
found_release id rows r h = ground arith

module _ (p : Publishing) where
  pub record IsConsistent (s : StudioState) : Type 0 where
    pub rows : IsReleased s.releases
    pub served : IsServed p s.active_bundles s.releases

  abbrev pub with_backend : Bool → Publishing
  with_backend b = record p { refuses = b }

  -- The outcome of a call.
  unfoldable pub outcome : Call → StudioState → Result StudioState
  outcome (create_draft id req actor) s = with_drafts s (create_policy_draft id req actor s.drafts)
  outcome (update_draft id req actor) s = with_drafts s (update_policy_draft id req actor s.drafts)
  outcome (publish_draft id of_id actor notes b) s = publish (with_backend b) id of_id actor notes s
  outcome (rollback id of_id actor notes b) s =
      rollback_policy_release (with_backend b) id of_id actor notes s
  outcome (activate now id actor b) s = activate_policy_release (with_backend b) now id actor s

  -- The state after a call; a call that raises is rolled back, and has written no bundle.
  unfoldable pub run : Call → StudioState → StudioState
  unfolding outcome
  run c s = left_by s (outcome c s)

  pub run_all : List Call → StudioState → StudioState
  unfolding run
  run_all [] s = s
  run_all (c ∷ cs) s = run_all cs (run c s)

  -- What a successful publication did.
  pub published_rows :
      (b : Bool) (id : String) (d : PolicyDraft) (actor : String) (notes from_id : Option String)
      (rows rows' : List PolicyRelease)
      → publish_policy_draft (with_backend b) id d actor notes from_id rows ≡ ok rows'
      → (w : PublishedBundle) × (rows'
          ≡ succeeded rows (
              stored w (release_of id d (current_version d.agent_id rows + 1) actor notes from_id)))
        × (find release_key id rows ≡ none)
        × (is_valid (validate_policy_draft_record d) ≡ true)
  unfolding publish_policy_draft
  published_rows b id d actor notes from_id rows rows' h =
      let r = release_of id d (current_version d.agent_id rows + 1) actor notes from_id in
      let valid = is_valid (validate_policy_draft_record d) in
      let (_, sound, h₁) = bind-eq-ok (guard valid policy_validation) _ rows' h in
      let (_, new, h₂) = bind-eq-ok (fresh_id id rows) _ rows' h₁ in
      let (w, _, h₃) =
        bind-eq-ok
          (publish_policy_bundle (with_backend b) r.agent_id r.version
            (artifact_of (with_backend b) r))
          _ rows' h₂ in
      (w, sym (ok_injective h₃), ground arith, guard-eq-ok valid policy_validation sound)

  -- What a successful activation did.
  pub activated_state :
      (b : Bool) (now : ℕ) (id actor : String) (s s' : StudioState)
      → activate_policy_release (with_backend b) now id actor s ≡ ok s'
      → (r : PolicyRelease) × (uri : String) × (r.release_id ≡ id)
        × (find release_key r.release_id s.releases ≡ some r)
        × (s' ≡ record s {
          releases = enacted_rows now r.agent_id r.release_id actor uri s.releases;
          active_bundles = put r.agent_id (some (artifact_of p r)) s.active_bundles;
        })
  unfolding activate_policy_release
  activated_state b now id actor s s' h =
      let (r, got, h₁) = bind-eq-ok (get_policy_release id s.releases) _ s' h in
      let (w, _, h₂) =
        bind-eq-ok
          (publish_active_policy_bundle (with_backend b) r.agent_id
            (artifact_of (with_backend b) r))
          _ s' h₁ in
      let found = found_release id s.releases r got in
      let e = key-find release_key id s.releases found in
      (
        r,
        w.uri,
        e,
        subst (λ k. find release_key k s.releases ≡ some r) (sym e) found,
        sym (ok_injective h₂)
            ∙ ap
                (λ k. record s {
                  releases = enacted_rows now r.agent_id k actor w.uri s.releases;
                  active_bundles = put r.agent_id (some (artifact_of p r)) s.active_bundles;
                })
                (sym e),
      )

  published-IsConsistent :
      (b : Bool) (id : String) (d : PolicyDraft) (actor : String) (notes from_id : Option String)
      (s : StudioState) (rows : List PolicyRelease)
      → IsConsistent s
      → publish_policy_draft (with_backend b) id d actor notes from_id s.releases ≡ ok rows
      → IsConsistent (record s { releases = rows })
  published-IsConsistent b id d actor notes from_id s rows g h =
      let (w, same, fresh, _) = published_rows b id d actor notes from_id s.releases rows h in
      let r =
        stored w
          (release_of id d (current_version d.agent_id s.releases + 1) actor notes from_id) in
      rw same (record {
        rows = succeeded-IsReleased s.releases r refl fresh refl g.rows;
        served =
            All-append (Serves p s.active_bundles)
              (change_where (is_published_of r.agent_id) supersede s.releases) (r ∷ [])
              (status-IsServed p s.active_bundles (is_published_of r.agent_id) supersede s.releases
                (λ x k. k) g.served)
              ((λ e. absurd (ground arith)), tt);
      })

  withdrawn-IsConsistent :
      (id : String) (s : StudioState)
      → IsConsistent s
      → IsConsistent (record s { releases = change_where (has_id id) withdraw s.releases })
  withdrawn-IsConsistent id s g = record {
    rows =
        unpublished-IsReleased (has_id id) withdraw s.releases (λ x. refl) (λ a x. refl)
          (λ a x. ground arith) (λ a v x. refl) g.rows;
    served = status-IsServed p s.active_bundles (has_id id) withdraw s.releases (λ x k. k) g.served;
  }

  -- A call that succeeds.
  outcome-IsConsistent :
      (c : Call) (s s' : StudioState) → IsConsistent s → outcome c s ≡ ok s' → IsConsistent s'
  unfolding outcome publish rollback_policy_release
  outcome-IsConsistent (create_draft id req actor) s s' g h =
      let (d, _, e) = bind-eq-ok (create_policy_draft id req actor s.drafts) _ s' h in
      subst IsConsistent (ok_injective e) (record { rows = g.rows; served = g.served })
  outcome-IsConsistent (update_draft id req actor) s s' g h =
      let (d, _, e) = bind-eq-ok (update_policy_draft id req actor s.drafts) _ s' h in
      subst IsConsistent (ok_injective e) (record { rows = g.rows; served = g.served })
  outcome-IsConsistent (publish_draft id of_id actor notes b) s s' g h =
      let (d, _, h₁) = bind-eq-ok (get_policy_draft of_id s.drafts) _ s' h in
      let (rows, made, e) =
        bind-eq-ok (publish_policy_draft (with_backend b) id d actor notes none s.releases) _ s'
          h₁ in
      subst IsConsistent (ok_injective e)
        (published-IsConsistent b id d actor notes none s rows g made)
  outcome-IsConsistent (rollback id of_id actor notes b) s s' g h =
      let (r, _, h₁) = bind-eq-ok (get_policy_release of_id s.releases) _ s' h in
      let (rows, made, e) =
        bind-eq-ok
          (publish_policy_draft (with_backend b) id (draft_of r) actor (rollback_notes of_id notes)
            (some of_id) (change_where (has_id of_id) withdraw s.releases))
          _ s' h₁ in
      subst IsConsistent (ok_injective e) (
        published-IsConsistent b id (draft_of r) actor (rollback_notes of_id notes) (some of_id)
          (record s { releases = change_where (has_id of_id) withdraw s.releases }) rows
          (withdrawn-IsConsistent of_id s g) made)
  outcome-IsConsistent (activate now id actor b) s s' g h =
      let (r, uri, _, found, e) = activated_state b now id actor s s' h in
      subst IsConsistent (sym e) (record {
        rows = enacted_rows-IsReleased now actor uri s.releases r g.rows.unique found g.rows;
        served =
            enacted_rows-IsServed p now actor uri s.active_bundles s.releases r g.rows.unique found
              g.served;
      })

  -- After any calls, identifiers of releases are unique, each agent has at most one active and at most
  -- one published release and never two releases of one version, and the active bundle of an agent at
  -- the backend is the bundle of its active release, if all this holds before them.
  pub run_all-IsConsistent :
      (cs : List Call) (s : StudioState) → IsConsistent s → IsConsistent (run_all cs s)
  unfolding run_all run
  run_all-IsConsistent [] s g = g
  run_all-IsConsistent (c ∷ cs) s g = run_all-IsConsistent cs (run c s) (after (outcome c s) refl)
    where
      after : (o : Result StudioState) → outcome c s ≡ o → IsConsistent (left_by s o)
      after (ok s') e = outcome-IsConsistent c s s' g e
      after (err x) e = g
