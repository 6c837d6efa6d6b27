-- ===== src/Policy/Components.antt =====
-- The component IDs of a source that `Validate` accepts (internal/policy/validate.go).
use mathlib.Core.List.{Nodup-nil}
use unlock_catalog_publisher.Base.{
  ◌≡◌, ap, subst, List, [], ◌∷◌, ◌++◌, Nodup, Bytes, Dict, keys, ok, ok-injective, bind_elim,
  then_elim, refuse_elim, or_fail_elim, wrap_elim,
}
use unlock_catalog_publisher.Base.Growth.{
  flat_map, Grows, Grows-trans, insert-Grows, for_each-Grows,
}
use unlock_catalog_publisher.Catalog.Types.{
  Source, Entry, ArtifactComponent, RoutingComponent, DetectionComponent,
}
use unlock_catalog_publisher.Policy.Entry.{
  add_component, validate_metadata_component, validate_routing_component,
  validate_detection_component, validate_entry,
}
use unlock_catalog_publisher.Policy.Validate.{validate, add_entry}

-- The IDs that `validateEntry` gives to `addComponent`, in order.
abbrev pub component_ids : Entry → List Bytes
component_ids entry =
    (entry.display_component_id ∷ [])
    ++ (flat_map (λ c. c.component_id ∷ []) entry.metadata
        ++ (flat_map (λ c. c.component_id ∷ []) entry.routing
            ++ flat_map (λ c. c.component_id ∷ []) entry.detection))

add_component-Grows :
    (components : Dict Bytes) (id owner : Bytes) (t : Dict Bytes)
    → add_component components id owner ≡ ok t
    → Grows (keys components) (keys t) (id ∷ [])
unfolding add_component
add_component-Grows components id owner t h = refuse_elim _ _ _ h λ fresh out.
    subst (λ r. Grows (keys components) (keys r) (id ∷ [])) (ok-injective out)
      (insert-Grows id owner components fresh)

metadata-Grows :
    (owner : Bytes) (components : Dict Bytes) (c : ArtifactComponent) (t : Dict Bytes)
    → validate_metadata_component owner components c ≡ ok t
    → Grows (keys components) (keys t) (c.component_id ∷ [])
unfolding validate_metadata_component
metadata-Grows owner components c t h =
    refuse_elim _ _ _ h λ valid out. add_component-Grows components c.component_id owner t out

routing-Grows :
    (owner : Bytes) (components : Dict Bytes) (c : RoutingComponent) (t : Dict Bytes)
    → validate_routing_component owner components c ≡ ok t
    → Grows (keys components) (keys t) (c.component_id ∷ [])
unfolding validate_routing_component
routing-Grows owner components c t h = refuse_elim _ _ _ h λ valid h₁.
    or_fail_elim _ _ _ h₁ λ rule there h₂. refuse_elim _ _ _ h₂ λ local h₃.
      bind_elim _ _ h₃ λ u added h₄. refuse_elim _ _ _ h₄ λ inline h₅.
        refuse_elim _ _ _ h₅ λ remote out.
          subst (λ r. Grows (keys components) (keys r) (c.component_id ∷ [])) (ok-injective out)
            (add_component-Grows components c.component_id owner u added)

detection-Grows :
    (owner : Bytes) (bindings : List Bytes) (s : Dict Bytes × List Bytes) (c : DetectionComponent)
    (t : Dict Bytes × List Bytes)
    → validate_detection_component owner bindings s c ≡ ok t
    → Grows (keys (s.0)) (keys (t.0)) (c.component_id ∷ [])
unfolding validate_detection_component
detection-Grows owner bindings s c t h = refuse_elim _ _ _ h λ valid h₁.
    bind_elim _ _ h₁ λ u added h₂. refuse_elim _ _ _ h₂ λ bound out.
      subst (λ r. Grows (keys (s.0)) (keys r) (c.component_id ∷ []))
        (ap (λ r. r.0) (ok-injective out)) (add_component-Grows (s.0) c.component_id owner u added)

validate_entry-Grows :
    (components : Dict Bytes) (entry : Entry) (t : Dict Bytes)
    → validate_entry components entry ≡ ok t
    → Grows (keys components) (keys t) (component_ids entry)
unfolding validate_entry
validate_entry-Grows components entry t h = refuse_elim _ _ _ h λ shown h₁.
    bind_elim _ _ h₁ λ displayed added h₂. refuse_elim _ _ _ h₂ λ family h₃.
      refuse_elim _ _ _ h₃ λ variant h₄. refuse_elim _ _ _ h₄ λ pin h₅.
        bind_elim _ _ h₅ λ binding_ids variants h₆. bind_elim _ _ h₆ λ a metadata h₇.
          bind_elim _ _ h₇ λ b routing h₈. bind_elim _ _ h₈ λ s detection h₉.
            then_elim _ _ h₉ λ detected out.
              let owner = entry.entry_id in
              let id_of = λ (c : DetectionComponent). c.component_id ∷ [] in
              subst (λ r. Grows (keys components) (keys r) (component_ids entry)) (ok-injective out)
                (Grows-trans (entry.display_component_id ∷ []) _
                  (add_component-Grows components entry.display_component_id owner displayed added)
                  (Grows-trans _ _
                    (for_each-Grows (validate_metadata_component owner) keys
                      (λ c. c.component_id ∷ []) (metadata-Grows owner) entry.metadata displayed
                      metadata)
                    (Grows-trans _ _
                      (for_each-Grows (validate_routing_component owner) keys
                        (λ c. c.component_id ∷ []) (routing-Grows owner) entry.routing a routing)
                      (for_each-Grows (validate_detection_component owner binding_ids)
                        (λ r. keys (r.0)) id_of (detection-Grows owner binding_ids) entry.detection
                        (b, []) detection))))

pub add_entry-Grows :
    (s : Dict Entry × Dict Bytes) (entry : Entry) (t : Dict Entry × Dict Bytes)
    → add_entry s entry ≡ ok t
    → Grows (keys (s.0)) (keys (t.0)) (entry.entry_id ∷ [])
      × Grows (keys (s.1)) (keys (t.1)) (component_ids entry)
unfolding add_entry
add_entry-Grows s entry t h = refuse_elim _ _ _ h λ valid h₁. refuse_elim _ _ _ h₁ λ fresh h₂.
    wrap_elim _ _ _ h₂ λ components checked out.
      subst
        (λ r.
          Grows (keys (s.0)) (keys (r.0)) (entry.entry_id ∷ [])
          × Grows (keys (s.1)) (keys (r.1)) (component_ids entry))
        (ok-injective out)
        (
          insert-Grows entry.entry_id entry (s.0) fresh,
          validate_entry-Grows (s.1) entry components checked,
        )

-- In an accepted source no two entries have the same ID, and no two components, of whatever kind and
-- in whatever entries, have the same ID.
pub validate-components :
    (source : Source) (source_root : Bytes)
    → validate source source_root ≡ ok tt
    → Nodup (flat_map (λ e. e.entry_id ∷ []) source.entries)
      × Nodup (flat_map component_ids source.entries)
unfolding validate
validate-components source source_root h = then_elim _ _ h λ header h₁.
    bind_elim _ _ h₁ λ s loop h₂.
      let (ids, ids_once) =
        for_each-Grows add_entry (λ r. keys (r.0)) (λ e. e.entry_id ∷ [])
          (λ r x u e. (add_entry-Grows r x u e).0) source.entries ([], []) loop in
      let (components, once) =
        for_each-Grows add_entry (λ r. keys (r.1)) component_ids
          (λ r x u e. (add_entry-Grows r x u e).1) source.entries ([], []) loop in
      (subst Nodup ids (ids_once Nodup-nil), subst Nodup components (once Nodup-nil))
