-- ===== src/Policy/Tests.antt =====
-- A source that `Validate` accepts.
use mathlib.Core.List.{mem-cons_self}
use unlock_catalog_publisher.Base.{
  ℕ, zero, suc, ◌≡◌, ◌≢◌, refl, true, false, [], ◌∷◌, ◌++◌, Mem, Nodup, Perm, Bytes, none, ok,
  codes, keys, all, ◌>>=◌, ◌>>◌, for_each, ◌==◌, lookup, contains, has_key, insert,
}
use unlock_catalog_publisher.Base.Int.{pos}
use unlock_catalog_publisher.Base.Growth.{flat_map}
use unlock_catalog_publisher.Base.Paths.{base, clean, is_blank}
use unlock_catalog_publisher.Base.Patterns.{id_pattern, digest_pattern, is_hex, version_pattern}
use unlock_catalog_publisher.Catalog.Types.{
  Source, Entry, VariantDefinition, BindingDefinition, ArtifactDescriptor,
  permission_detection_data, permission_executable,
}
use unlock_catalog_publisher.Policy.Types.{valid_slot}
use unlock_catalog_publisher.Policy.Entry.{
  add_component, add_required, add_writer, add_binding, validate_variant,
  validate_metadata_component, validate_routing_component, validate_detection_component,
  check_detected, validate_entry,
}
use unlock_catalog_publisher.Policy.Artifact.{
  validate_artifact, check_platform, object_path, media_allowed,
}
use unlock_catalog_publisher.Policy.References.{
  refer, resolves, refer_metadata, refer_routing, refer_detected, refer_detection, refer_entry,
  check_referenced, validate_references,
}
use unlock_catalog_publisher.Policy.Revocations.{validate_revocations, validate_revocation}
use unlock_catalog_publisher.Policy.Validate.{
  validate, validate_header, add_entry, add_artifact, want_permissions, equal_permissions,
  data_source_id, data_permissions, linux_static,
}
use unlock_catalog_publisher.Policy.Writers.{validate_variant-writers}
use unlock_catalog_publisher.Policy.Components.{component_ids, validate-components}
use unlock_catalog_publisher.Policy.Contained.{
  IsContained, by_id, entry_ids, validate-artifacts, validate-data_source,
}
use unlock_catalog_publisher.Policy.Resolved.{resolved, mentions, validate-references}

abbrev pub zeros : ℕ → Bytes
zeros zero = []
zeros (suc n) = b'0' ∷ zeros n

abbrev probe : BindingDefinition
probe = record {
  id = codes "probe";
  display_name = [];
  engine = [];
  provider = codes "http";
  slots = codes "cdnRegion" ∷ codes "availability" ∷ [];
  interval_seconds = pos 0;
  timeout_seconds = pos 0;
}

abbrev standard : VariantDefinition
standard = record {
  id = codes "standard";
  display_name = [];
  required_slots = codes "availability" ∷ codes "cdnRegion" ∷ [];
  bindings = probe ∷ [];
}

abbrev video : Entry
video = record {
  entry_id = codes "video";
  display_component_id = codes "video-display";
  display_name = codes "Video";
  description = [];
  tags = [];
  family = record {
    name = codes "video";
    display_name = codes "Video";
    default_engine = codes "engine";
    default_variant = codes "standard";
    routing_entry = codes "video";
    allow_pin_source_override = false;
    variants = (codes "standard", standard) ∷ [];
    pin_policy = record {
      component_id = [];
      source_slot = codes "availability";
      accepted_verdicts = codes "ok" ∷ [];
    };
  };
  metadata = [];
  routing = [];
  detection = record { component_id = codes "probe"; artifact_ids = codes "rules" ∷ [] } ∷ [];
}

abbrev pub rules : ArtifactDescriptor
rules = record {
  artifact_id = codes "rules";
  entry_id = codes "video";
  permission = permission_detection_data;
  media_type = codes "text/plain";
  path = codes "objects/sha256/00/" ++ zeros 64;
  sha256 = zeros 64;
  length = pos 10;
  platform = none;
}

abbrev pub published : Source
published = record {
  schema_version = pos 1;
  source_id = data_source_id;
  version = 3;
  valid_for_seconds = pos 86400;
  min_core_protocol = pos 1;
  max_core_protocol = pos 1;
  min_core_version = codes "1.0.0";
  max_core_version = codes "1.9.12";
  compatibility_epoch = pos 1;
  permissions = data_permissions;
  cohort = linux_static;
  entries = video ∷ [];
  artifacts = rules ∷ [];
  revocations = [];
}

abbrev published_root : Bytes
published_root = codes "/catalog/definitions/../definitions/" ++ data_source_id ++ codes "/"

variant_accepted : validate_variant [] (codes "standard", standard) ≡ ok (codes "probe" ∷ [])
unfolding ◌>>=◌ ◌>>◌ for_each ◌==◌ contains has_key lookup insert id_pattern is_blank valid_slot
    validate_variant add_required add_binding add_writer
variant_accepted = refl

pub published-accepted :
    (source_root : Bytes)
    → base (clean source_root) == data_source_id ≡ true
    → validate published source_root ≡ ok tt
unfolding ◌>>=◌ ◌>>◌ for_each all ◌==◌ contains has_key lookup insert id_pattern digest_pattern
    is_hex version_pattern base clean is_blank valid_slot validate_variant add_required add_binding
    add_writer add_component validate_metadata_component validate_routing_component
    validate_detection_component check_detected validate_entry validate_artifact check_platform
    object_path media_allowed refer resolves refer_metadata refer_routing refer_detected
    refer_detection refer_entry check_referenced validate_references validate_revocations
    validate_revocation validate validate_header add_entry add_artifact want_permissions
    equal_permissions
published-accepted source_root h = rw h refl

accepted : validate published published_root ≡ ok tt
unfolding base clean ◌==◌
accepted = published-accepted published_root refl

validate_variant-writers_example :
    Perm (flat_map (λ (b : BindingDefinition). b.slots) standard.bindings) standard.required_slots
    × Nodup standard.required_slots
validate_variant-writers_example =
    validate_variant-writers [] (codes "standard") standard variant_accepted

validate-components_example :
    Nodup (flat_map (λ (e : Entry). e.entry_id ∷ []) published.entries)
    × Nodup (flat_map component_ids published.entries)
validate-components_example = validate-components published published_root accepted

validate-artifacts_example : IsContained published (entry_ids published.entries) rules
validate-artifacts_example =
    validate-artifacts published published_root rules accepted mem-cons_self

validate-data_source_example : rules.permission ≢ permission_executable
validate-data_source_example =
    validate-data_source published published_root rules accepted refl mem-cons_self

validate-references_example :
    ((entry : Entry)
      → Mem entry published.entries
      → resolved (by_id published.artifacts) entry ≡ true)
    × ((id : Bytes)
        → Mem id (keys (by_id published.artifacts))
        → Mem id (flat_map mentions published.entries))
validate-references_example = validate-references published published_root accepted
