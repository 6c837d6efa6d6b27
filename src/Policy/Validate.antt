-- ===== src/Policy/Validate.antt =====
-- `Validate` and `equalPermissions` (internal/policy/validate.go).
use unlock_catalog_publisher.Base.{
  ℕ, Bool, true, false, not, ◌&&◌, ◌||◌, List, [], ◌∷◌, ◌++◌, Bytes, Dict, Option, none, some,
  codes, eqb, length, contains, has_key, insert, Result, ok, ◌>>=◌, ◌>>◌, refuse, or_fail, wrap,
  for_each, ◌==◌, if◌then◌else◌,
}
use unlock_catalog_publisher.Base.Int.{pos, int_eq, int_le, int_lt}
use unlock_catalog_publisher.Base.Patterns.{version_pattern}
use unlock_catalog_publisher.Base.Paths.{base, clean}
use unlock_catalog_publisher.Catalog.Types.{
  schema_version, Permission, permission_metadata, permission_detection_data,
  permission_routing_data, permission_executable, Cohort, same_cohort, Entry, ArtifactDescriptor,
  Source,
}
use unlock_catalog_publisher.Policy.Types.{
  PolicyError, valid_id, source_root_mismatch, schema_or_version, invalid_lifetime,
  invalid_compatibility, unsupported_cohort, unknown_source, permissions_mismatch, invalid_entry_id,
  duplicate_entry, no_entries, no_artifacts, invalid_artifact_identity, duplicate_artifact,
  unknown_owner, permission_bleeds, executable_in_data, no_executable, in_entry,
}
use unlock_catalog_publisher.Policy.Entry.{validate_entry}
use unlock_catalog_publisher.Policy.Artifact.{validate_artifact}
use unlock_catalog_publisher.Policy.References.{validate_references}
use unlock_catalog_publisher.Policy.Revocations.{validate_revocations}

-- `PolicyVersion`, `DataSourceID`, `ExecSourceID` and `maxLifetime`.
abbrev pub policy_version : Bytes
policy_version = codes "unlock-catalog-publisher-policy-v1"

abbrev pub data_source_id : Bytes
data_source_id = codes "unlock-official-linux-amd64-static"

abbrev pub exec_source_id : Bytes
exec_source_id = codes "unlock-official-linux-amd64-static-exec"

abbrev pub max_lifetime : ℕ
max_lifetime = 2592000

abbrev pub linux_static : Cohort
linux_static = record { os = codes "linux"; arch = codes "amd64"; abi = codes "static" }

abbrev pub data_permissions : List Permission
data_permissions = permission_metadata ∷ permission_detection_data ∷ permission_routing_data ∷ []

-- The `switch source.SourceID`.
unfoldable pub want_permissions : Bytes → Option (List Permission)
want_permissions source_id =
    if source_id == data_source_id
    then some data_permissions
    else if source_id == exec_source_id
    then some (data_permissions ++ permission_executable ∷ [])
    else none

unfoldable pub equal_permissions : List Permission → List Permission → Bool
equal_permissions [] [] = true
equal_permissions (p ∷ got) (q ∷ want) = p == q && equal_permissions got want
equal_permissions _ _ = false

-- The loop over `source.Entries`; it writes `entries` and `components`.
unfoldable pub add_entry :
    Dict Entry × Dict Bytes → Entry → Result PolicyError (Dict Entry × Dict Bytes)
add_entry (entries, components) entry = do
  refuse (not (valid_id entry.entry_id)) invalid_entry_id
  refuse (has_key entry.entry_id entries) duplicate_entry
  components' ← wrap in_entry (validate_entry components entry)
  ok (insert entry.entry_id entry entries, components')

-- The loop over `source.Artifacts`; it writes `artifacts` and `hasExecutable`.
unfoldable pub add_artifact :
    Source
    → Dict Entry
    → Dict ArtifactDescriptor × Bool
    → ArtifactDescriptor
    → Result PolicyError (Dict ArtifactDescriptor × Bool)
add_artifact source entries (artifacts, has_executable) artifact = do
  refuse (not (valid_id artifact.artifact_id) || not (valid_id artifact.entry_id))
      invalid_artifact_identity
  refuse (has_key artifact.artifact_id artifacts) duplicate_artifact
  refuse (not (has_key artifact.entry_id entries)) unknown_owner
  refuse (not (contains artifact.permission source.permissions)) permission_bleeds
  validate_artifact artifact source.cohort
  ok (
    insert artifact.artifact_id artifact artifacts,
    has_executable || artifact.permission == permission_executable,
  )

-- The checks before the loops.
unfoldable pub validate_header : Source → Bytes → Result PolicyError (Unit {0})
validate_header source source_root = do
  refuse (not (base (clean source_root) == source.source_id)) source_root_mismatch
  refuse (not (int_eq source.schema_version (pos schema_version)) || eqb source.version 0)
      schema_or_version
  refuse
      (int_le source.valid_for_seconds (pos 0)
        || int_lt (pos max_lifetime) source.valid_for_seconds)
      invalid_lifetime
  refuse
      (int_le source.min_core_protocol (pos 0)
        || int_lt source.max_core_protocol source.min_core_protocol
        || not (version_pattern source.min_core_version)
        || not (version_pattern source.max_core_version)
        || int_le source.compatibility_epoch (pos 0))
      invalid_compatibility
  refuse (not (same_cohort source.cohort linux_static)) unsupported_cohort
  want ← or_fail (want_permissions source.source_id) unknown_source
  refuse (not (equal_permissions source.permissions want)) permissions_mismatch

unfoldable pub validate : Source → Bytes → Result PolicyError (Unit {0})
validate source source_root = do
  validate_header source source_root
  (entries, components) ← for_each add_entry ([], []) source.entries
  refuse (eqb (length entries) 0) no_entries
  (artifacts, has_executable) ← for_each (add_artifact source entries) ([], false) source.artifacts
  refuse (eqb (length artifacts) 0) no_artifacts
  refuse (source.source_id == data_source_id && has_executable) executable_in_data
  refuse (source.source_id == exec_source_id && not has_executable) no_executable
  validate_references source.entries artifacts
  validate_revocations source
