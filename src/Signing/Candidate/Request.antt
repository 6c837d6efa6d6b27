-- ===== src/Signing/Candidate/Request.antt =====
-- `validateRequestAndPolicy` and `isUTCSecond` (internal/signing/candidate.go).
use unlock_catalog_publisher.Base.{
  ℕ, ◌-◌, ◌/◌, ◌%◌, Bool, true, false, not, ◌&&◌, ◌||◌, ◌==◌, less, List, ◌∷◌, ◌++◌, Bytes, Option,
  none, some, codes, eqb, ltb, length, Result, ok, ◌>>◌, refuse, wrap, if◌then◌else◌,
}
use unlock_catalog_publisher.Base.Int.{pos, int_eq}
use unlock_catalog_publisher.Base.Paths.{clean}
use unlock_catalog_publisher.Time.{Time, equal, nanosecond, second}
use unlock_catalog_publisher.Primitives.{Primitives, digest_bytes}
use unlock_catalog_publisher.Catalog.Types.{
  schema_version, Manifest, SigningRequest, SigningObject, ArtifactDescriptor, ArtifactPlatform,
  same_platform, Source,
}
use unlock_catalog_publisher.Catalog.Normalize.{protocol_v1}
use unlock_catalog_publisher.Policy.Validate.{policy_version, validate}
use unlock_catalog_publisher.Signing.Candidate.Types.{
  CandidateError, manifest_schema_mismatch, request_schema_mismatch, source_or_validity_mismatch,
  validity_not_utc_seconds, payload_digest_mismatch, validity_not_positive, candidate_policy,
  object_count_mismatch, object_mismatch, objects_not_sorted,
}
use unlock_catalog_publisher.Signing.Candidate.Reading.{max_int64}

unfoldable pub is_utc_second : Time → Bool
is_utc_second value = int_eq value.offset (pos 0) && eqb (nanosecond value) 0

-- `later.Sub(earlier)`, which stops at the largest duration; it is zero here where it is negative there.
abbrev pub duration : Time → Time → ℕ
duration later earlier =
    let exact = later.instant - earlier.instant in if ltb max_int64 exact then max_int64 else exact

-- `reflect.DeepEqual` of two pointers to a platform.
unfoldable pub equal_platform : Option ArtifactPlatform → Option ArtifactPlatform → Bool
equal_platform none none = true
equal_platform (some left) (some right) = same_platform left right
equal_platform _ _ = false

unfoldable pub describes : SigningObject → ArtifactDescriptor → Bool
describes object artifact =
    object.artifact_id == artifact.artifact_id
    && object.path == artifact.path
    && object.sha256 == artifact.sha256
    && int_eq object.length artifact.length
    && object.permission == artifact.permission
    && equal_platform object.platform artifact.platform

-- `index > 0 && request.Objects[index-1].ArtifactID >= object.ArtifactID`
abbrev pub out_of_order : Option Bytes → Bytes → Bool
out_of_order none id = false
out_of_order (some previous) id = not (less previous id)

-- The loop over the artifacts; the previous object's ID comes along. There are as many objects.
unfoldable pub match_objects :
    Option Bytes → List ArtifactDescriptor → List SigningObject → Result CandidateError (Unit {0})
match_objects previous (artifact ∷ artifacts) (object ∷ objects) = do
  refuse (not (describes object artifact)) object_mismatch
  refuse (out_of_order previous object.artifact_id) objects_not_sorted
  match_objects (some object.artifact_id) artifacts objects
match_objects previous _ _ = ok tt

-- The source that the manifest and the request come from.
unfoldable pub source_of : Manifest → SigningRequest → ℕ → Source
source_of manifest request valid_for = record {
  schema_version = manifest.schema_version;
  source_id = manifest.source_id;
  version = manifest.version;
  valid_for_seconds = pos (valid_for / second);
  min_core_protocol = manifest.min_core_protocol;
  max_core_protocol = manifest.max_core_protocol;
  min_core_version = manifest.min_core_version;
  max_core_version = manifest.max_core_version;
  compatibility_epoch = manifest.compatibility_epoch;
  permissions = request.permissions;
  cohort = request.cohort;
  entries = manifest.entries;
  artifacts = manifest.artifacts;
  revocations = manifest.revocations;
}

-- `filepath.Join("/", "candidate", source.SourceID)`
abbrev pub candidate_path : Bytes → Bytes
candidate_path source_id = clean (codes "//candidate/" ++ source_id)

module _ (P : Primitives) where
  unfoldable pub validate_request_and_policy :
      Manifest → SigningRequest → Bytes → Result CandidateError (Unit {0})
  validate_request_and_policy manifest request payload = do
    refuse
        (not (int_eq manifest.schema_version (pos schema_version))
          || not (manifest.protocol == protocol_v1))
        manifest_schema_mismatch
    refuse
        (not (int_eq request.schema_version (pos schema_version))
          || not (request.policy_version == policy_version))
        request_schema_mismatch
    refuse
        (not (request.source_id == manifest.source_id)
          || not (eqb request.version manifest.version)
          || not (equal request.published_at manifest.published_at)
          || not (equal request.expires_at manifest.expires_at))
        source_or_validity_mismatch
    refuse
        (not (is_utc_second request.published_at)
          || not (is_utc_second request.expires_at)
          || not (is_utc_second manifest.published_at)
          || not (is_utc_second manifest.expires_at))
        validity_not_utc_seconds
    refuse (not (request.payload_sha256 == digest_bytes P payload)) payload_digest_mismatch
    let valid_for = duration request.expires_at request.published_at
    refuse (eqb valid_for 0 || not (eqb (valid_for % second) 0)) validity_not_positive
    let source = source_of manifest request valid_for
    wrap candidate_policy (validate source (candidate_path source.source_id))
    refuse (not (eqb (length request.objects) (length manifest.artifacts))) object_count_mismatch
    match_objects none manifest.artifacts request.objects
