-- ===== src/Catalog/Ordered.antt =====
-- The canonical order that `normalizeManifest` (internal/catalogv1/types.go) brings a manifest into.
use unlock_catalog_publisher.Base.{◌≡◌, refl, sym, subst, List, [], ◌∷◌, map, Bytes, Perm}
use unlock_catalog_publisher.Base.Sort.{sort_by, IsSorted, sort_by-perm, sort_by-IsSorted}
use unlock_catalog_publisher.Catalog.Types.{
  Manifest, Entry, VariantDefinition, BindingDefinition, DetectionComponent,
}
use unlock_catalog_publisher.Catalog.Normalize.{
  normalize_binding, normalize_variant, normalize_detection, normalize_named, normalize_family,
  normalize_entry, normalize_copy,
}
use unlock_catalog_publisher.Catalog.Canonical.{
  sort-bindings, sort-detection, sort-entries, normalize_copy_idem,
}

-- Each element has the property.
abbrev pub Each : {A : Type 0} → (A → Type 0) → List A → Type 0
Each Q [] = Unit
Each Q (x ∷ xs) = Q x × Each Q xs

Each-of_all : {A : Type 0} (Q : A → Type 0) → ((x : A) → Q x) → (xs : List A) → Each Q xs
Each-of_all Q h [] = tt
Each-of_all Q h (x ∷ xs) = (h x, Each-of_all Q h xs)

Each-map :
    {A B : Type 0} (Q : B → Type 0) (g : A → B)
    → ((x : A) → Q (g x))
    → (xs : List A) → Each Q (map g xs)
Each-map Q g h [] = tt
Each-map Q g h (x ∷ xs) = (h x, Each-map Q g h xs)

abbrev pub InOrder : List Bytes → Type 0
InOrder = IsSorted λ s. s

abbrev pub IsOrderedBinding : BindingDefinition → Type 0
IsOrderedBinding binding = InOrder binding.slots

abbrev pub IsOrderedVariant : Bytes × VariantDefinition → Type 0
IsOrderedVariant (_, variant) =
    InOrder variant.required_slots
    × IsSorted (λ (b : BindingDefinition). b.id) variant.bindings
    × Each IsOrderedBinding variant.bindings

abbrev pub IsOrderedDetection : DetectionComponent → Type 0
IsOrderedDetection component = InOrder component.artifact_ids

-- Tags, components, detection data, slots, bindings and verdicts of an entry are in order.
pub record IsOrderedEntry (entry : Entry) : Type 0 where
  pub tags : InOrder entry.tags
  pub metadata : IsSorted (λ c. c.component_id) entry.metadata
  pub routing : IsSorted (λ c. c.component_id) entry.routing
  pub detection : IsSorted (λ c. c.component_id) entry.detection
  pub detection_data : Each IsOrderedDetection entry.detection
  pub variants : Each IsOrderedVariant entry.family.variants
  pub verdicts : InOrder entry.family.pin_policy.accepted_verdicts

-- The normalized binding is the same but for the order of its slots; and so on, outwards.
abbrev pub IsSameBinding : BindingDefinition → Type 0
IsSameBinding b =
    Perm (normalize_binding b).slots b.slots
    × (record (normalize_binding b) { slots = b.slots } ≡ b)

abbrev pub IsSameVariant : Bytes × VariantDefinition → Type 0
IsSameVariant (_, v) =
    Perm (normalize_variant v).required_slots v.required_slots
    × Perm (normalize_variant v).bindings (map normalize_binding v.bindings)
    × Each IsSameBinding v.bindings
    × (record (normalize_variant v) { required_slots = v.required_slots; bindings = v.bindings }
        ≡ v)

abbrev pub IsSameDetection : DetectionComponent → Type 0
IsSameDetection c =
    Perm (normalize_detection c).artifact_ids c.artifact_ids
    × (record (normalize_detection c) { artifact_ids = c.artifact_ids } ≡ c)

-- The normalized entry has all that the entry has, in any order, and nothing else.
pub record IsSameEntry (e : Entry) : Type 0 where
  pub same_tags : Perm (normalize_entry e).tags e.tags
  pub same_metadata : Perm (normalize_entry e).metadata e.metadata
  pub same_routing : Perm (normalize_entry e).routing e.routing
  pub same_detection : Perm (normalize_entry e).detection (map normalize_detection e.detection)
  pub each_detection : Each IsSameDetection e.detection
  pub same_variants : (normalize_entry e).family.variants ≡ map normalize_named e.family.variants
  pub each_variant : Each IsSameVariant e.family.variants
  pub same_verdicts :
      Perm
        (normalize_entry e).family.pin_policy.accepted_verdicts
        e.family.pin_policy.accepted_verdicts
  pub same_family :
      record ((normalize_entry e).family) {
        variants = e.family.variants;
        pin_policy = record ((normalize_entry e).family.pin_policy) {
          accepted_verdicts = e.family.pin_policy.accepted_verdicts;
        };
      }
      ≡ e.family
  pub same_others :
      record (normalize_entry e) {
        tags = e.tags;
        metadata = e.metadata;
        routing = e.routing;
        detection = e.detection;
        family = e.family;
      }
      ≡ e

-- `ordered` is `manifest` in canonical order: nothing is lost, added or changed but the order.
pub record IsCanonicalOf (manifest ordered : Manifest) : Type 0 where
  pub entries : IsSorted (λ e. e.entry_id) ordered.entries
  pub artifacts : IsSorted (λ a. a.artifact_id) ordered.artifacts
  pub revocations : IsSorted (λ r. r.revocation_id) ordered.revocations
  pub each_entry : Each IsOrderedEntry ordered.entries
  pub same_entries : Perm ordered.entries (map normalize_entry manifest.entries)
  pub each_same : Each IsSameEntry manifest.entries
  pub same_artifacts : Perm ordered.artifacts manifest.artifacts
  pub same_revocations : Perm ordered.revocations manifest.revocations
  pub same_rest :
      record ordered {
        entries = manifest.entries;
        artifacts = manifest.artifacts;
        revocations = manifest.revocations;
      }
      ≡ manifest
  pub stable : normalize_copy ordered ≡ ordered

normalize_binding-IsOrdered : (b : BindingDefinition) → IsOrderedBinding (normalize_binding b)
unfolding normalize_binding
normalize_binding-IsOrdered b = sort_by-IsSorted (λ (s : Bytes). s) b.slots

normalize_named-IsOrdered : (v : Bytes × VariantDefinition) → IsOrderedVariant (normalize_named v)
unfolding normalize_variant
normalize_named-IsOrdered (id, v) = (
  sort_by-IsSorted (λ (s : Bytes). s) v.required_slots,
  subst (IsSorted (λ (b : BindingDefinition). b.id)) (sort-bindings v.bindings)
      (sort_by-IsSorted (λ b. b.id) (map normalize_binding v.bindings)),
  Each-map IsOrderedBinding normalize_binding normalize_binding-IsOrdered
      (sort_by (λ b. b.id) v.bindings),
)

normalize_detection-IsOrdered :
    (c : DetectionComponent) → IsOrderedDetection (normalize_detection c)
unfolding normalize_detection
normalize_detection-IsOrdered c = sort_by-IsSorted (λ (s : Bytes). s) c.artifact_ids

normalize_entry-IsOrdered : (e : Entry) → IsOrderedEntry (normalize_entry e)
unfolding normalize_entry normalize_family
normalize_entry-IsOrdered e = record {
  tags = sort_by-IsSorted (λ (s : Bytes). s) e.tags;
  metadata = sort_by-IsSorted (λ c. c.component_id) e.metadata;
  routing = sort_by-IsSorted (λ c. c.component_id) e.routing;
  detection = sort_by-IsSorted (λ c. c.component_id) (map normalize_detection e.detection);
  detection_data = subst (Each IsOrderedDetection) (sym (sort-detection e.detection)) (
      Each-map IsOrderedDetection normalize_detection normalize_detection-IsOrdered
        (sort_by (λ c. c.component_id) e.detection));
  variants = Each-map IsOrderedVariant normalize_named normalize_named-IsOrdered e.family.variants;
  verdicts = sort_by-IsSorted (λ (s : Bytes). s) e.family.pin_policy.accepted_verdicts;
}

normalize_binding-IsSame : (b : BindingDefinition) → IsSameBinding b
unfolding normalize_binding
normalize_binding-IsSame b = (sort_by-perm (λ s. s) b.slots, refl)

normalize_variant-IsSame : (v : Bytes × VariantDefinition) → IsSameVariant v
unfolding normalize_variant
normalize_variant-IsSame (id, v) = (
  sort_by-perm (λ s. s) v.required_slots,
  subst (λ bs. Perm bs (map normalize_binding v.bindings)) (sort-bindings v.bindings)
      (sort_by-perm (λ b. b.id) (map normalize_binding v.bindings)),
  Each-of_all IsSameBinding normalize_binding-IsSame v.bindings,
  refl,
)

normalize_detection-IsSame : (c : DetectionComponent) → IsSameDetection c
unfolding normalize_detection
normalize_detection-IsSame c = (sort_by-perm (λ s. s) c.artifact_ids, refl)

normalize_entry-IsSame : (e : Entry) → IsSameEntry e
unfolding normalize_entry normalize_family
normalize_entry-IsSame e = record {
  same_tags = sort_by-perm (λ s. s) e.tags;
  same_metadata = sort_by-perm (λ c. c.component_id) e.metadata;
  same_routing = sort_by-perm (λ c. c.component_id) e.routing;
  same_detection = sort_by-perm (λ c. c.component_id) (map normalize_detection e.detection);
  each_detection = Each-of_all IsSameDetection normalize_detection-IsSame e.detection;
  same_variants = refl;
  each_variant = Each-of_all IsSameVariant normalize_variant-IsSame e.family.variants;
  same_verdicts = sort_by-perm (λ s. s) e.family.pin_policy.accepted_verdicts;
  same_family = refl;
  same_others = refl;
}

-- The normalized copy of a manifest has entries, artifacts and revocations in the order of their IDs, in
-- each entry the tags, slots, bindings, components, artifact IDs and verdicts in order, the same entries,
-- artifacts and revocations as the manifest up to the order, and all else as it was; normalizing it again
-- changes nothing.
pub normalize_copy-IsCanonicalOf : (m : Manifest) → IsCanonicalOf m (normalize_copy m)
unfolding normalize_copy
normalize_copy-IsCanonicalOf m = record {
  entries =
      subst (IsSorted (λ (e : Entry). e.entry_id)) (sort-entries m.entries)
        (sort_by-IsSorted (λ e. e.entry_id) (map normalize_entry m.entries));
  artifacts = sort_by-IsSorted (λ a. a.artifact_id) m.artifacts;
  revocations = sort_by-IsSorted (λ r. r.revocation_id) m.revocations;
  each_entry =
      Each-map IsOrderedEntry normalize_entry normalize_entry-IsOrdered
        (sort_by (λ e. e.entry_id) m.entries);
  same_entries =
      subst (λ es. Perm es (map normalize_entry m.entries)) (sort-entries m.entries)
        (sort_by-perm (λ e. e.entry_id) (map normalize_entry m.entries));
  each_same = Each-of_all IsSameEntry normalize_entry-IsSame m.entries;
  same_artifacts = sort_by-perm (λ a. a.artifact_id) m.artifacts;
  same_revocations = sort_by-perm (λ r. r.revocation_id) m.revocations;
  same_rest = refl;
  stable = normalize_copy_idem m;
}
