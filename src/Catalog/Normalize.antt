-- ===== src/Catalog/Normalize.antt =====
-- `ManifestFromSource`, `CanonicalManifest`, `normalizeManifest` and `normalizeEntry`
-- (internal/catalogv1/types.go).
use unlock_catalog_publisher.Base.{◌*◌, List, map, Bytes, Option, none, some, codes}
use unlock_catalog_publisher.Base.Int.{pos, negsuc}
use unlock_catalog_publisher.Base.Sort.{sort_by}
use unlock_catalog_publisher.Time.{Time, utc, add, second}
use unlock_catalog_publisher.Catalog.Types.{
  Source, Manifest, Entry, FamilyDefinition, VariantDefinition, BindingDefinition,
  DetectionComponent,
}

abbrev pub protocol_v1 : Bytes
protocol_v1 = codes "unlock-catalog-v1"

-- `sort.Strings`
abbrev pub sort_strings : List Bytes → List Bytes
sort_strings = sort_by λ s. s

unfoldable pub normalize_binding : BindingDefinition → BindingDefinition
normalize_binding binding = record binding { slots = sort_strings binding.slots }

unfoldable pub normalize_variant : VariantDefinition → VariantDefinition
normalize_variant variant = record variant {
  required_slots = sort_strings variant.required_slots;
  bindings = map normalize_binding (sort_by (λ b. b.id) variant.bindings);
}

unfoldable pub normalize_detection : DetectionComponent → DetectionComponent
normalize_detection component = record component {
  artifact_ids = sort_strings component.artifact_ids;
}

-- The loop over the variants replaces the value of each key.
abbrev pub normalize_named : Bytes × VariantDefinition → Bytes × VariantDefinition
normalize_named (id, variant) = (id, normalize_variant variant)

unfoldable pub normalize_family : FamilyDefinition → FamilyDefinition
normalize_family family = record family {
  variants = map normalize_named family.variants;
  pin_policy = record (family.pin_policy) {
    accepted_verdicts = sort_strings family.pin_policy.accepted_verdicts;
  };
}

unfoldable pub normalize_entry : Entry → Entry
normalize_entry entry = record entry {
  tags = sort_strings entry.tags;
  metadata = sort_by (λ c. c.component_id) entry.metadata;
  routing = sort_by (λ c. c.component_id) entry.routing;
  detection = sort_by (λ c. c.component_id) (map normalize_detection entry.detection);
  family = normalize_family entry.family;
}

-- What `normalizeManifest` does to the copy that it takes by JSON.
unfoldable pub normalize_copy : Manifest → Manifest
normalize_copy out = record out {
  entries = map normalize_entry (sort_by (λ e. e.entry_id) out.entries);
  artifacts = sort_by (λ a. a.artifact_id) out.artifacts;
  revocations = sort_by (λ r. r.revocation_id) out.revocations;
}

-- The copy by `json.Marshal` and `json.Unmarshal`, and `json.Marshal`, are parameters.
module _ (copy : Manifest → Option Manifest) (marshal : Manifest → Option Bytes) where
  unfoldable pub normalize_manifest : Manifest → Option Manifest
  normalize_manifest manifest = elim (copy manifest) [
    | none ↦ none
    | some out ↦ some (normalize_copy out)
  ]

  unfoldable pub canonical_manifest : Manifest → Option Bytes
  canonical_manifest manifest = elim (normalize_manifest manifest) [
    | none ↦ none
    | some out ↦ marshal out
  ]

-- `ManifestFromSource`; a lifetime that is not positive, which the policy refuses, counts as zero here.
unfoldable pub manifest_from_source : Source → Time → Manifest
manifest_from_source source published_at = record {
  schema_version = source.schema_version;
  protocol = protocol_v1;
  source_id = source.source_id;
  version = source.version;
  published_at = utc published_at;
  expires_at =
      add (utc published_at) (elim source.valid_for_seconds [ pos n ↦ n * second | negsuc n ↦ 0 ]);
  min_core_protocol = source.min_core_protocol;
  max_core_protocol = source.max_core_protocol;
  min_core_version = source.min_core_version;
  max_core_version = source.max_core_version;
  compatibility_epoch = source.compatibility_epoch;
  entries = source.entries;
  artifacts = source.artifacts;
  revocations = source.revocations;
}
