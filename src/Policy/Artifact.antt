-- ===== src/Policy/Artifact.antt =====
-- `validateArtifact` and `mediaAllowed` (internal/policy/validate.go).
use unlock_catalog_publisher.Base.{
  ℕ, Bool, true, false, not, ◌||◌, [], ◌∷◌, ◌++◌, Bytes, none, some, codes, Result, ok, ◌>>◌,
  refuse, ◌==◌, if◌then◌else◌,
}
use unlock_catalog_publisher.Base.Int.{pos, int_le, int_lt}
use unlock_catalog_publisher.Base.Patterns.{digest_pattern}
use unlock_catalog_publisher.Catalog.Types.{
  Permission, permission_metadata, permission_detection_data, permission_routing_data,
  permission_executable, Cohort, ArtifactDescriptor, same_platform,
}
use unlock_catalog_publisher.Policy.Types.{
  PolicyError, invalid_digest_or_length, path_not_canonical, media_not_allowed, platform_mismatch,
  unexpected_platform,
}

-- `maxObjectSize`: `64 << 20`.
abbrev pub max_object_size : ℕ
max_object_size = 67108864

-- `value[:2]`, of a value with two bytes or more.
abbrev pub first_two : Bytes → Bytes
first_two (a ∷ b ∷ _) = a ∷ b ∷ []
first_two _ = []

-- `wantPath`
unfoldable pub object_path : Bytes → Bytes
object_path digest = codes "objects/sha256/" ++ first_two digest ++ b'/' ∷ digest

unfoldable pub media_allowed : Permission → Bytes → Bool
media_allowed permission media_type =
    if permission == permission_metadata || permission == permission_detection_data
    then media_type == codes "application/json"
      || media_type == codes "application/yaml"
      || media_type == codes "text/plain"
      || media_type == codes "application/octet-stream"
    else if permission == permission_routing_data
    then media_type == codes "application/json"
      || media_type == codes "application/yaml"
      || media_type == codes "text/plain"
      || media_type == codes "application/vnd.mihomo.mrs"
    else if permission == permission_executable
    then media_type == codes "application/octet-stream"
    else false

-- The platform that an executable artifact must have, and no other may.
unfoldable pub check_platform : ArtifactDescriptor → Cohort → Result PolicyError (Unit {0})
check_platform artifact cohort = elim (artifact.permission == permission_executable) [
  | true ↦ elim artifact.platform [
    | none ↦ refuse true platform_mismatch
    | some platform ↦
        refuse
          (not (
            same_platform platform
              (record { os = cohort.os; arch = cohort.arch; abi = cohort.abi })))
          platform_mismatch
  ]
  | false ↦ elim artifact.platform [
    | none ↦ ok tt
    | some platform ↦ refuse true unexpected_platform
  ]
]

unfoldable pub validate_artifact : ArtifactDescriptor → Cohort → Result PolicyError (Unit {0})
unfolding check_platform
validate_artifact artifact cohort = do
  refuse
      (not (digest_pattern artifact.sha256)
        || int_le artifact.length (pos 0)
        || int_lt (pos max_object_size) artifact.length)
      invalid_digest_or_length
  refuse (not (artifact.path == object_path artifact.sha256)) path_not_canonical
  refuse (not (media_allowed artifact.permission artifact.media_type)) media_not_allowed
  check_platform artifact cohort
