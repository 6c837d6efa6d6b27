-- ===== src/Catalog/Tests.antt =====
-- A manifest whose entries and revocations are out of order.
use unlock_catalog_publisher.Base.{◌≡◌, refl, [], ◌∷◌, Bytes, Option, none, some, codes, false}
use unlock_catalog_publisher.Base.Int.{pos}
use unlock_catalog_publisher.Trust.Sample.{day_one, far}
use unlock_catalog_publisher.Catalog.Types.{Manifest, Entry, Revocation}
use unlock_catalog_publisher.Catalog.Normalize.{normalize_copy, canonical_manifest}
use unlock_catalog_publisher.Catalog.Canonical.{canonical_manifest-normalize_copy}
use unlock_catalog_publisher.Catalog.Ordered.{IsCanonicalOf, normalize_copy-IsCanonicalOf}

abbrev revoked : Bytes → Revocation
revoked id = record {
  revocation_id = id;
  kind = codes "key";
  target_id = codes "k";
  version = 1;
  reason = codes "lost";
}

-- An entry whose tags, slots, artifact IDs and verdicts are out of order.
abbrev entry_of : Bytes → Entry
entry_of id = record {
  entry_id = id;
  display_component_id = codes "text";
  display_name = codes "Demo";
  description = [];
  tags = codes "z" ∷ codes "a" ∷ [];
  family = record {
    name = codes "demo";
    display_name = codes "Demo";
    default_engine = codes "engine";
    default_variant = codes "basic";
    routing_entry = [];
    allow_pin_source_override = false;
    variants =
        (
          codes "basic",
          record {
            id = codes "basic";
            display_name = codes "Basic";
            required_slots = codes "two" ∷ codes "one" ∷ [];
            bindings = [];
          },
        )
        ∷ [];
    pin_policy = record {
      component_id = codes "text";
      source_slot = codes "one";
      accepted_verdicts = codes "ok" ∷ codes "fair" ∷ [];
    };
  };
  metadata = [];
  routing = [];
  detection =
      record { component_id = codes "data"; artifact_ids = codes "2" ∷ codes "1" ∷ [] } ∷ [];
}

abbrev unordered : Manifest
unordered = record {
  schema_version = pos 1;
  protocol = codes "unlock-catalog-v1";
  source_id = codes "demo";
  version = 1;
  published_at = day_one;
  expires_at = far;
  min_core_protocol = pos 1;
  max_core_protocol = pos 1;
  min_core_version = [];
  max_core_version = [];
  compatibility_epoch = pos 1;
  entries = entry_of (codes "e2") ∷ entry_of (codes "e1") ∷ [];
  artifacts = [];
  revocations = revoked (codes "r2") ∷ revoked (codes "r1") ∷ [];
}

abbrev first_ids : Manifest → Option Bytes
first_ids m = elim m.revocations [ [] ↦ none | r ∷ rest ↦ some r.revocation_id ]

normalize_copy-IsCanonicalOf_example : IsCanonicalOf unordered (normalize_copy unordered)
normalize_copy-IsCanonicalOf_example = normalize_copy-IsCanonicalOf unordered

canonical_manifest-normalize_copy_example :
    canonical_manifest (λ m. some m) first_ids (normalize_copy unordered)
    ≡ canonical_manifest (λ m. some m) first_ids unordered
canonical_manifest-normalize_copy_example =
    canonical_manifest-normalize_copy (λ m. some m) first_ids unordered unordered refl refl
