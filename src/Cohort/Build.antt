-- ===== src/Cohort/Build.antt =====
-- `BuildCandidate` (internal/cohort/builder.go). Making, naming and removing the staging directory are left
-- out: the directory that is written is published in one step, by the rename, or not at all.
use unlock_catalog_publisher.Base.{
  Bool, not, ◌||◌, ◌==◌, List, [], map, Bytes, Dict, Option, lookup, Result, ok, ◌>>=◌, ◌>>◌,
  refuse, or_fail, wrap, for_each,
}
use unlock_catalog_publisher.Base.Int.{pos}
use unlock_catalog_publisher.Base.Sort.{sort_by}
use unlock_catalog_publisher.Base.Paths.{base, join_path}
use unlock_catalog_publisher.Base.Paths.Dir.{dir}
use unlock_catalog_publisher.Base.Items.{Item}
use unlock_catalog_publisher.Time.{Time, is_zero, equal, utc}
use unlock_catalog_publisher.Primitives.{Primitives, digest_bytes}
use unlock_catalog_publisher.Catalog.Types.{
  schema_version, Source, Manifest, SigningRequest, SigningObject,
}
use unlock_catalog_publisher.Catalog.Normalize.{manifest_from_source}
use unlock_catalog_publisher.Policy.Validate.{policy_version, validate}
use unlock_catalog_publisher.Signing.Candidate.Reading.{content_of}
use unlock_catalog_publisher.Cohort.Types.{
  Candidate, VerifiedObject, CohortError, SourceDirectory, is_data_file, epoch_invalid, source_name,
  source_missing, source_not_regular, source_undecodable, source_policy, manifest_unencodable,
  request_unencodable, destination_exists,
}
use unlock_catalog_publisher.Cohort.Sources.{source_name_yaml, validate_source_tree, read_object}
use unlock_catalog_publisher.Cohort.Write.{write_candidate}

unfoldable pub signing_object : VerifiedObject → SigningObject
signing_object object = record {
  artifact_id = object.descriptor.artifact_id;
  path = object.descriptor.path;
  sha256 = object.descriptor.sha256;
  length = object.descriptor.length;
  permission = object.descriptor.permission;
  platform = object.descriptor.platform;
}

unfoldable pub signing_request : Source → Manifest → Bytes → List VerifiedObject → SigningRequest
signing_request source manifest payload_digest objects = record {
  schema_version = pos schema_version;
  policy_version = policy_version;
  source_id = source.source_id;
  version = source.version;
  payload_sha256 = payload_digest;
  published_at = manifest.published_at;
  expires_at = manifest.expires_at;
  permissions = source.permissions;
  cohort = source.cohort;
  objects = map signing_object objects;
}

-- `catalogv1.DecodeSource`, `CanonicalManifest`, `json.Marshal`, and whether `Lstat` finds a path.
pub record BuildTools : Type 0 where
  pub decode_source : Bytes → Option Source
  pub canonical_manifest : Manifest → Option Bytes
  pub marshal_request : SigningRequest → Option Bytes
  pub exists : Bytes → Bool

module _ (P : Primitives) (T : BuildTools) where
  -- The source document.
  unfoldable pub read_source : SourceDirectory → Result CohortError Source
  read_source root = do
    item ← or_fail (lookup source_name_yaml root.items) source_missing
    refuse (not (is_data_file item)) source_not_regular
    or_fail (T.decode_source (content_of item)) source_undecodable

  -- The candidate, and what its directory holds.
  unfoldable pub build_candidate :
      SourceDirectory → Bytes → Bytes → Time → Result CohortError (Candidate × Dict Item)
  build_candidate root source_file output_root epoch = do
    refuse (is_zero epoch || not (equal epoch (utc epoch))) epoch_invalid
    refuse (not (base source_file == source_name_yaml)) source_name
    source ← read_source root
    wrap source_policy (validate source (dir source_file))
    validate_source_tree root source.artifacts
    read ← for_each (read_object P root.items) [] source.artifacts
    let objects = sort_by (λ o. o.descriptor.artifact_id) read
    let manifest = manifest_from_source source epoch
    payload ← or_fail (T.canonical_manifest manifest) manifest_unencodable
    let request = signing_request source manifest (digest_bytes P payload) objects
    request_bytes ← or_fail (T.marshal_request request) request_unencodable
    let destination = join_path output_root source.source_id
    refuse (T.exists destination) destination_exists
    written ← write_candidate payload request_bytes objects
    ok (
      record {
        source_id = source.source_id;
        directory = destination;
        payload_sha256 = digest_bytes P payload;
      },
      written,
    )
