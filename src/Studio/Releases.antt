-- ===== src/Studio/Releases.antt =====
-- policy_studio/releases.py: releases are published from drafts, activated, and rolled back.
pub mod Sole
pub mod Enacted
pub mod Served
pub mod History
pub mod InForce
pub mod Published
pub mod Refines
use acr_framework.Prelude.{
  ℕ, ◌+◌, String, Bool, true, false, not, ◌&&◌, Option, none, some, List, [], ◌∷◌, ◌++◌, ◌==◌, leb,
  eqb, if◌then◌else◌, where_rows, All, is_some, ◌∙◌,
}
use acr_framework.Prelude.Table.{find}
use acr_framework.Prelude.Change.{change_where}
use Prim.Native.String.{◌++◌ as join_text}
use acr_framework.Errors.{
  Result, ok, err, policy_release_not_found, policy_validation, unexpected, ◌>>=◌, ◌>>◌, guard,
}
use acr_framework.Json.{Fields, end}
use acr_framework.Redis.{put}
use acr_framework.Studio.Drafts.{
  PolicyDraft, get_policy_draft, validate_policy_draft_record, is_valid,
}
use acr_framework.Studio.Publisher.{
  Publishing, PublishedBundle, Artifact, publish_policy_bundle, publish_active_policy_bundle,
}

pub data ReleaseStatus : Type 0 where
  published superseded rolled_back : ReleaseStatus

-- A row of policy_releases, without its time of creation. `is_live` is activation_status "active".
pub record PolicyRelease : Type 0 where
  pub release_id : String
  pub draft_id : String
  pub agent_id : String
  pub version : ℕ
  pub name : String
  pub template : String
  pub manifest : Fields
  pub rego_policy : String
  pub status : ReleaseStatus
  pub artifact_uri : Option String
  pub artifact_sha256 : Option String
  pub publish_backend : Option String
  pub is_live : Bool
  pub active_bundle_uri : Option String
  pub activated_by : Option String
  pub activated_at : Option ℕ
  pub published_by : Option String
  pub rollback_from_release_id : Option String
  pub notes : Option String

abbrev pub release_key : PolicyRelease → String
release_key r = r.release_id

-- The tables, and the active bundle of each agent at the backend.
pub record StudioState : Type 0 where
  pub drafts : List PolicyDraft
  pub releases : List PolicyRelease
  pub active_bundles : String → Option Artifact

abbrev pub is_live_of : String → PolicyRelease → Bool
is_live_of a r = r.agent_id == a && r.is_live

abbrev pub is_published : PolicyRelease → Bool
is_published r = elim r.status [ published ↦ true | _ ↦ false ]

abbrev pub is_published_of : String → PolicyRelease → Bool
is_published_of a r = r.agent_id == a && is_published r

abbrev pub has_id : String → PolicyRelease → Bool
has_id id r = r.release_id == id

unfoldable pub list_active_policy_releases : List PolicyRelease → List PolicyRelease
list_active_policy_releases rows = where_rows (λ r. r.is_live) rows

pub get_policy_release : String → List PolicyRelease → Result PolicyRelease
get_policy_release id rows = elim (find release_key id rows) [
  | none ↦ err policy_release_not_found
  | some r ↦ ok r
]

abbrev pub artifact_of : Publishing → PolicyRelease → Artifact
artifact_of p r = p.build_policy_bundle r.release_id r.agent_id r.version r.manifest r.rego_policy

abbrev pub retire : PolicyRelease → PolicyRelease
retire r = record r {
  is_live = false;
  active_bundle_uri = none;
  activated_by = none;
  activated_at = none;
}

abbrev pub enact : ℕ → String → String → PolicyRelease → PolicyRelease
enact now actor uri r = record r {
  is_live = true;
  active_bundle_uri = some uri;
  activated_by = some actor;
  activated_at = some now;
}

pub enacted_rows : ℕ → String → String → String → String → List PolicyRelease → List PolicyRelease
enacted_rows now a id actor uri rows =
    change_where (has_id id) (enact now actor uri) (change_where (is_live_of a) retire rows)

unfoldable pub activate_policy_release :
    Publishing → ℕ → String → String → StudioState → Result StudioState
unfolding get_policy_release enacted_rows
activate_policy_release p now id actor s = do
  r ← get_policy_release id s.releases
  b ← publish_active_policy_bundle p r.agent_id (artifact_of p r)
  ok (record s {
    releases = enacted_rows now r.agent_id id actor b.uri s.releases;
    active_bundles = put r.agent_id (some (artifact_of p r)) s.active_bundles;
  })

-- `select max(version) where agent_id = ...`, or 0.
unfoldable pub current_version : String → List PolicyRelease → ℕ
current_version a [] = 0
current_version a (r ∷ rows) =
    let rest = current_version a rows in
    if r.agent_id == a then (if leb rest r.version then r.version else rest) else rest

abbrev pub supersede : PolicyRelease → PolicyRelease
supersede r = record r { status = superseded }

abbrev pub release_of :
    String → PolicyDraft → ℕ → String → Option String → Option String → PolicyRelease
release_of id d version actor notes from_id = record {
  release_id = id;
  draft_id = d.draft_id;
  agent_id = d.agent_id;
  version = version;
  name = d.name;
  template = d.template;
  manifest = d.manifest;
  rego_policy = d.rego_policy;
  status = published;
  artifact_uri = none;
  artifact_sha256 = none;
  publish_backend = none;
  is_live = false;
  active_bundle_uri = none;
  activated_by = none;
  activated_at = none;
  published_by = some actor;
  rollback_from_release_id = from_id;
  notes = notes;
}

abbrev pub stored : PublishedBundle → PolicyRelease → PolicyRelease
stored b r = record r {
  artifact_uri = some b.uri;
  artifact_sha256 = some b.sha256;
  publish_backend = some b.backend;
}

abbrev fresh_id : String → List PolicyRelease → Result (Unit {0})
fresh_id id rows = elim (find release_key id rows) [ some _ ↦ err unexpected | none ↦ ok tt ]

-- The published releases of the agent are superseded by the new one, whose identifier `id` is a fresh
-- one and is unique in the table.
unfoldable pub publish_policy_draft :
    Publishing
    → String
    → PolicyDraft
    → String
    → Option String
    → Option String
    → List PolicyRelease
    → Result (List PolicyRelease)
unfolding current_version
publish_policy_draft p id d actor notes from_id rows = do
  guard (is_valid (validate_policy_draft_record d)) policy_validation
  let r = release_of id d (current_version d.agent_id rows + 1) actor notes from_id
  fresh_id id rows
  b ← publish_policy_bundle p r.agent_id r.version (artifact_of p r)
  ok (change_where (is_published_of d.agent_id) supersede rows ++ stored b r ∷ [])

-- POST /acr/policy-drafts/{draft_id}/publish
unfoldable pub publish :
    Publishing → String → String → String → Option String → StudioState → Result StudioState
unfolding publish_policy_draft get_policy_draft
publish p id draft_id actor notes s = do
  d ← get_policy_draft draft_id s.drafts
  rows ← publish_policy_draft p id d actor notes none s.releases
  ok (record s { releases = rows })

-- `PolicyDraftRecord(...)` of a release, which is not added to the session.
abbrev pub draft_of : PolicyRelease → PolicyDraft
draft_of r = record {
  draft_id = r.draft_id;
  name = r.name;
  agent_id = r.agent_id;
  template = r.template;
  manifest = r.manifest;
  rego_policy = r.rego_policy;
  wizard_inputs = end;
  created_by = none;
  updated_by = none;
}

-- `notes or f"Rollback to {release_id}"`
abbrev pub rollback_notes : String → Option String → Option String
rollback_notes id none = some (join_text "Rollback to " id)
rollback_notes id (some n) = if n == "" then some (join_text "Rollback to " id) else some n

abbrev pub withdraw : PolicyRelease → PolicyRelease
withdraw r = record r { status = rolled_back }

pub rollback_policy_release :
    Publishing → String → String → String → Option String → StudioState → Result StudioState
unfolding get_policy_release publish_policy_draft
rollback_policy_release p id source_id actor notes s = do
  source ← get_policy_release source_id s.releases
  rows ←
      publish_policy_draft p id (draft_of source) actor (rollback_notes source_id notes)
        (some source_id) (change_where (has_id source_id) withdraw s.releases)
  ok (record s { releases = rows })
