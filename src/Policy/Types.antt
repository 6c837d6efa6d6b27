-- ===== src/Policy/Types.antt =====
-- The errors of internal/policy/validate.go, and the tests that its functions share.
use unlock_catalog_publisher.Base.{Bool, ◌||◌, Bytes, codes, ◌==◌}
use unlock_catalog_publisher.Base.Patterns.{id_pattern}

pub data PolicyError : Type 0 where
  source_root_mismatch schema_or_version invalid_lifetime invalid_compatibility : PolicyError
  unsupported_cohort unknown_source permissions_mismatch invalid_entry_id duplicate_entry :
      PolicyError
  no_entries no_artifacts invalid_artifact_identity duplicate_artifact unknown_owner : PolicyError
  permission_bleeds executable_in_data no_executable : PolicyError
  invalid_display invalid_family default_variant_missing invalid_pin_policy : PolicyError
  invalid_variant invalid_required_slot duplicate_required_slot invalid_binding : PolicyError
  duplicate_binding undeclared_slot slot_written_twice slot_without_writer : PolicyError
  invalid_metadata invalid_routing invalid_inline_rule invalid_artifact_rule : PolicyError
  invalid_detection no_family_binding no_detection_component duplicate_component : PolicyError
  invalid_digest_or_length path_not_canonical media_not_allowed : PolicyError
  platform_mismatch unexpected_platform : PolicyError
  invalid_metadata_reference invalid_routing_reference invalid_detection_reference : PolicyError
  repeated_artifact unreferenced_artifact : PolicyError
  invalid_revocation duplicate_revocation invalid_revocation_target : PolicyError
  invalid_digest_target invalid_revocation_kind : PolicyError
  in_entry : PolicyError → PolicyError

-- `validID`
abbrev pub valid_id : Bytes → Bool
valid_id value = id_pattern value

-- `validSlot`
unfoldable pub valid_slot : Bytes → Bool
valid_slot value =
    value == codes "availability" || value == codes "serviceRegion" || value == codes "cdnRegion"
