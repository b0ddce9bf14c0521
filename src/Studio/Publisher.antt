-- ===== src/Studio/Publisher.antt =====
-- policy_studio/publisher.py: where the bundle of a release is written, on the local disk or in S3.
use Prim.Native.String.{◌++◌ as join_text}
use acr_framework.Prelude.{
  ℕ, String, Bool, Option, none, some, List, [], ◌∷◌, ◌==◌, eqb, if◌then◌else◌,
}
use acr_framework.Prelude.Text.{strip, strip_left, strip_right}
use acr_framework.Errors.{Result, ok, err, policy_validation, unexpected}
use acr_framework.Json.{Fields}
use acr_framework.Policy.Engine.{show_number}

-- PolicyBundleArtifact, without its content type.
pub record Artifact : Type 0 where
  pub filename : String
  pub bytes_data : String
  pub sha256 : String

pub record PublishedBundle : Type 0 where
  pub backend : String
  pub uri : String
  pub sha256 : String

-- The settings, and what the outside does: whether boto3 is installed, whether the disk or S3 refuses
-- the write, the absolute path below the bundle directory, and the archive of a release
-- (build_policy_bundle: a gzipped tar file and its hash).
pub record Publishing : Type 0 where
  pub backend : String
  pub public_base_url : String
  pub s3_bucket : String
  pub s3_prefix : String
  pub has_boto3 : Bool
  pub refuses : Bool
  pub resolve : String → String → String → String
  pub build_policy_bundle : String → String → ℕ → Fields → String → Artifact

abbrev is_slash : ℕ → Bool
is_slash c = eqb c 47

abbrev slash : String → String → String
slash s t = join_text s (join_text "/" t)

-- `_public_bundle_uri` and `_public_active_bundle_uri`: `part` is the version, or "active".
public_uri : Publishing → String → String → String → Option String
public_uri p agent_id part filename =
    if p.public_base_url == ""
    then none
    else some
        (slash (strip_right is_slash p.public_base_url) (slash agent_id (slash part filename)))

-- `"/".join(part for part in parts if part)`
join_parts : List String → String
join_parts [] = ""
join_parts (t ∷ ts) =
    let rest = join_parts ts in if t == "" then rest else if rest == "" then t else slash t rest

abbrev uri_or : Option String → String → String
uri_or none t = t
uri_or (some u) t = u

s3_key : Publishing → String → String → String → String
unfolding join_parts
s3_key p agent_id part filename = join_parts (
    strip_left is_slash (strip_right is_slash (strip p.s3_prefix))
    ∷ agent_id
    ∷ part
    ∷ filename
    ∷ [])

-- The steps that the bundle of a version and the active bundle share: the write to the backend, and
-- the address of what was written.
pub publish_at : Publishing → String → String → String → Artifact → Result PublishedBundle
unfolding public_uri s3_key
publish_at p agent_id part filename a =
    if p.backend == "local"
    then (if p.refuses
        then err unexpected
        else ok (record {
          backend = "local";
          uri = uri_or (public_uri p agent_id part filename) (p.resolve agent_id part filename);
          sha256 = a.sha256;
        }))
    else if p.backend == "s3"
    then (if strip p.s3_bucket == ""
        then err policy_validation
        else if p.has_boto3
        then (if p.refuses
            then err unexpected
            else ok (record {
              backend = "s3";
              uri =
                  uri_or (public_uri p agent_id part filename) (
                    join_text "s3://"
                      (slash (strip p.s3_bucket) (s3_key p agent_id part filename)));
              sha256 = a.sha256;
            }))
        else err policy_validation)
    else err policy_validation

unfoldable pub publish_policy_bundle : Publishing → String → ℕ → Artifact → Result PublishedBundle
unfolding publish_at
publish_policy_bundle p agent_id version a =
    publish_at p agent_id (join_text "v" (show_number version)) a.filename a

unfoldable pub publish_active_policy_bundle :
    Publishing → String → Artifact → Result PublishedBundle
unfolding publish_at
publish_active_policy_bundle p agent_id a = publish_at p agent_id "active" "current.tar.gz" a
