-- ===== src/Catalog/Canonical.antt =====
-- The canonical order of a manifest (`normalizeManifest`, internal/catalogv1/types.go) is stable.
use unlock_catalog_publisher.Base.{
  ◌≡◌, refl, sym, ap, ◌∙◌, List, [], ◌∷◌, map, Bytes, Option, some, arith,
}
use unlock_catalog_publisher.Base.Sort.{sort_by, sort_by_idem, sort_by-map}
use unlock_catalog_publisher.Catalog.Types.{
  Manifest, Entry, FamilyDefinition, VariantDefinition, BindingDefinition, DetectionComponent,
}
use unlock_catalog_publisher.Catalog.Normalize.{
  normalize_binding, normalize_variant, normalize_detection, normalize_named, normalize_family,
  normalize_entry, normalize_copy, canonical_manifest, normalize_manifest,
}

map_idem :
    {A : Type 0} (g : A → A)
    → ((x : A) → g (g x) ≡ g x)
    → (xs : List A) → map g (map g xs) ≡ map g xs
map_idem g h [] = refl
map_idem g h (x ∷ xs) = rw (h x, map_idem g h xs) refl

-- Sorting and then changing what is not the key, twice.
map-sort_by_idem :
    {A : Type 0} (key : A → Bytes) (g : A → A)
    → ((x : A) → g (g x) ≡ g x)
    → ((xs : List A) → sort_by key (map g xs) ≡ map g (sort_by key xs))
    → (xs : List A) → map g (sort_by key (map g (sort_by key xs))) ≡ map g (sort_by key xs)
map-sort_by_idem key g h k xs =
    ap (map g) (k (sort_by key xs) ∙ ap (map g) (sort_by_idem key xs))
    ∙ map_idem g h (sort_by key xs)

sort_by-map_idem :
    {A : Type 0} (key : A → Bytes) (g : A → A)
    → ((x : A) → g (g x) ≡ g x)
    → ((xs : List A) → sort_by key (map g xs) ≡ map g (sort_by key xs))
    → (xs : List A) → sort_by key (map g (sort_by key (map g xs))) ≡ sort_by key (map g xs)
sort_by-map_idem key g h k xs =
    k (sort_by key (map g xs))
    ∙ ap (map g) (sort_by_idem key (map g xs))
    ∙ sym (k (map g xs))
    ∙ ap (sort_by key) (map_idem g h xs)

normalize_binding_idem :
    (b : BindingDefinition) → normalize_binding (normalize_binding b) ≡ normalize_binding b
unfolding normalize_binding
normalize_binding_idem b = rw (sort_by_idem (λ (s : Bytes). s) b.slots) refl

pub sort-bindings :
    (bs : List BindingDefinition)
    → sort_by (λ b. b.id) (map normalize_binding bs)
      ≡ map normalize_binding (sort_by (λ b. b.id) bs)
unfolding normalize_binding
sort-bindings bs = sort_by-map normalize_binding (λ b. b.id) bs

normalize_variant_idem :
    (v : VariantDefinition) → normalize_variant (normalize_variant v) ≡ normalize_variant v
unfolding normalize_variant
normalize_variant_idem v =
    rw
      (
        sort_by_idem (λ (s : Bytes). s) v.required_slots,
        map-sort_by_idem (λ b. b.id) normalize_binding normalize_binding_idem sort-bindings
            v.bindings,
      )
      refl

normalize_detection_idem :
    (c : DetectionComponent) → normalize_detection (normalize_detection c) ≡ normalize_detection c
unfolding normalize_detection
normalize_detection_idem c = rw (sort_by_idem (λ (s : Bytes). s) c.artifact_ids) refl

pub sort-detection :
    (cs : List DetectionComponent)
    → sort_by (λ c. c.component_id) (map normalize_detection cs)
      ≡ map normalize_detection (sort_by (λ c. c.component_id) cs)
unfolding normalize_detection
sort-detection cs = sort_by-map normalize_detection (λ c. c.component_id) cs

normalize_named_idem :
    (e : Bytes × VariantDefinition) → normalize_named (normalize_named e) ≡ normalize_named e
normalize_named_idem (id, v) = ap (λ w. (id, w)) (normalize_variant_idem v)

normalize_family_idem :
    (f : FamilyDefinition) → normalize_family (normalize_family f) ≡ normalize_family f
unfolding normalize_family
normalize_family_idem f =
    rw
      (
        map_idem normalize_named normalize_named_idem f.variants,
        sort_by_idem (λ (s : Bytes). s) f.pin_policy.accepted_verdicts,
      )
      refl

normalize_entry_idem : (e : Entry) → normalize_entry (normalize_entry e) ≡ normalize_entry e
unfolding normalize_entry
normalize_entry_idem e =
    rw
      (
        sort_by_idem (λ (s : Bytes). s) e.tags,
        sort_by_idem (λ c. c.component_id) e.metadata,
        sort_by_idem (λ c. c.component_id) e.routing,
        sort_by-map_idem (λ c. c.component_id) normalize_detection normalize_detection_idem
            sort-detection e.detection,
        normalize_family_idem e.family,
      )
      refl

pub sort-entries :
    (es : List Entry)
    → sort_by (λ e. e.entry_id) (map normalize_entry es)
      ≡ map normalize_entry (sort_by (λ e. e.entry_id) es)
unfolding normalize_entry
sort-entries es = sort_by-map normalize_entry (λ e. e.entry_id) es

-- Bringing a manifest into its canonical order again changes nothing.
pub normalize_copy_idem : (m : Manifest) → normalize_copy (normalize_copy m) ≡ normalize_copy m
unfolding normalize_copy
normalize_copy_idem m =
    rw
      (
        map-sort_by_idem (λ e. e.entry_id) normalize_entry normalize_entry_idem sort-entries
            m.entries,
        sort_by_idem (λ a. a.artifact_id) m.artifacts,
        sort_by_idem (λ r. r.revocation_id) m.revocations,
      )
      refl

canonical_at :
    (copy : Manifest → Option Manifest) (marshal : Manifest → Option Bytes) (m out : Manifest)
    → copy m ≡ some out
    → canonical_manifest copy marshal m ≡ marshal (normalize_copy out)
unfolding canonical_manifest normalize_manifest
canonical_at copy marshal m out h = ground (arith, h)

-- A manifest in canonical order that JSON copies as it is has the same canonical bytes as the manifest
-- that it was made from.
pub canonical_manifest-normalize_copy :
    (copy : Manifest → Option Manifest) (marshal : Manifest → Option Bytes) (m out : Manifest)
    → copy m ≡ some out
    → copy (normalize_copy out) ≡ some (normalize_copy out)
    → canonical_manifest copy marshal (normalize_copy out) ≡ canonical_manifest copy marshal m
canonical_manifest-normalize_copy copy marshal m out h k =
    canonical_at copy marshal (normalize_copy out) (normalize_copy out) k
    ∙ ap marshal (normalize_copy_idem out)
    ∙ sym (canonical_at copy marshal m out h)
