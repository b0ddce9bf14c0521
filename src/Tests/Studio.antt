-- ===== src/Tests/Studio.antt =====
-- A draft, a release of it that is in force, and one that is published after it.
use acr_framework.Prelude.{
  ◌<◌, ◌≡◌, refl, true, false, none, some, List, [], ◌∷◌, arith, All, contains, count_if,
}
use acr_framework.Prelude.Table.{find}
use acr_framework.Prelude.Text.{includes, is_blank}
use acr_framework.Prelude.Change.{change_where}
use acr_framework.Errors.{ok}
use acr_framework.Json.{str, arr, nil, item, Fields, end, field}
use acr_framework.Studio.Drafts.{
  PolicyDraft, get_policy_draft, issues_of, validate_policy_draft_record, is_valid,
}
use acr_framework.Studio.Publisher.{Publishing, publish_policy_bundle}
use acr_framework.Studio.Releases.{
  PolicyRelease, StudioState, release_key, published, release_of, publish, publish_policy_draft,
  current_version, enact, supersede, stored,
}
use acr_framework.Studio.Releases.History.{
  Call, publish_draft, rollback, activate, IsConsistent, run, run_all, outcome,
  run_all-IsConsistent,
}
use acr_framework.Studio.Releases.InForce.{in_force}
use acr_framework.Studio.Releases.Refines.{effect_of, applied, run_refines}
use acr_framework.Studio.Releases.Published.{publish_lem}

abbrev backend : Publishing
backend = record {
  backend = "local";
  public_base_url = "";
  s3_bucket = "";
  s3_prefix = "";
  has_boto3 = false;
  refuses = false;
  resolve = λ agent_id part filename. "/var/bundle";
  build_policy_bundle = λ id agent_id version manifest rego. record {
    filename = "bot.tar.gz";
    bytes_data = rego;
    sha256 = id;
  };
}

abbrev manifest : Fields
manifest =
    field "agent_id" (str "bot")
      (field "purpose" (str "support") (field "allowed_tools" (arr (item (str "search") nil)) end))

abbrev draft : PolicyDraft
draft = record {
  draft_id = "pdr-1";
  name = "bot policy";
  agent_id = "bot";
  template = "support";
  manifest = manifest;
  rego_policy = "package acr";
  wizard_inputs = end;
  created_by = some "ann";
  updated_by = some "ann";
}

abbrev first : PolicyRelease
first = enact 3 "ann" "/var/bundle" (release_of "prl-1" draft 1 "ann" none none)

abbrev studio : StudioState
studio = record {
  drafts = draft ∷ [];
  releases = first ∷ [];
  active_bundles =
      λ a. some (record { filename = "bot.tar.gz"; bytes_data = "package acr"; sha256 = "prl-1" });
}

studio-IsConsistent : IsConsistent backend studio
unfolding contains count_if
studio-IsConsistent = record {
  rows = record {
    unique = (refl, tt);
    live = λ a. ground arith;
    sole = λ a. ground arith;
    numbered = λ a v. ground arith;
  };
  served = ((λ e. refl), tt);
}

abbrev calls : List Call
calls =
    publish_draft "prl-2" "pdr-1" "ann" none false
    ∷ activate 7 "prl-2" "ann" false
    ∷ rollback "prl-3" "prl-1" "bob" none false
    ∷ []

run_all-IsConsistent_example : IsConsistent backend (run_all backend calls studio)
run_all-IsConsistent_example = run_all-IsConsistent backend calls studio studio-IsConsistent

run_refines_example :
    in_force "bot" (run backend (activate 7 "prl-1" "bob" false) studio).releases
    ≡ applied
        (effect_of
          (activate 7 "prl-1" "bob" false)
          (outcome backend (activate 7 "prl-1" "bob" false) studio)
          studio)
        (λ b. in_force b studio.releases)
        "bot"
run_refines_example =
    run_refines backend (activate 7 "prl-1" "bob" false) studio "bot" studio-IsConsistent

abbrev after_publication : StudioState
after_publication = record studio {
  releases =
      supersede first
      ∷ stored (record { backend = "local"; uri = "/var/bundle"; sha256 = "prl-2" })
          (release_of "prl-2" draft 2 "ann" none none)
      ∷ [];
}

publish_lem_example :
    (d : PolicyDraft) × (get_policy_draft "pdr-1" studio.drafts ≡ ok d)
    × (is_valid (validate_policy_draft_record d) ≡ true)
    × (find release_key "prl-2" studio.releases ≡ none)
    × ((r : PolicyRelease) × (find release_key "prl-2" after_publication.releases ≡ some r)
        × (r.agent_id ≡ d.agent_id)
        × (r.manifest ≡ d.manifest)
        × (r.rego_policy ≡ d.rego_policy)
        × (r.status ≡ published)
        × (r.is_live ≡ false)
        × All (λ x. x.agent_id ≡ r.agent_id → x.version < r.version) studio.releases)
unfolding publish publish_policy_draft get_policy_draft validate_policy_draft_record
    publish_policy_bundle current_version find change_where issues_of is_blank includes
publish_lem_example = publish_lem backend "prl-2" "pdr-1" "ann" none studio after_publication refl
