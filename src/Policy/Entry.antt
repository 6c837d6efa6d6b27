-- ===== src/Policy/Entry.antt =====
-- `validateEntry` and `addComponent` (internal/policy/validate.go).
use unlock_catalog_publisher.Base.{
  not, ◌&&◌, ◌||◌, List, [], ◌∷◌, ◌++◌, Bytes, Dict, codes, eqb, length, contains, has_key, insert,
  Result, ok, ◌>>=◌, ◌>>◌, refuse, or_fail, for_each, ◌==◌,
}
use unlock_catalog_publisher.Base.Int.{pos, int_le}
use unlock_catalog_publisher.Base.Paths.{is_blank}
use unlock_catalog_publisher.Catalog.Types.{
  Entry, VariantDefinition, BindingDefinition, ArtifactComponent, RoutingComponent,
  DetectionComponent,
}
use unlock_catalog_publisher.Policy.Types.{
  PolicyError, valid_id, valid_slot, duplicate_component, invalid_display, invalid_family,
  default_variant_missing, invalid_pin_policy, invalid_variant, invalid_required_slot,
  duplicate_required_slot, invalid_binding, duplicate_binding, undeclared_slot, slot_written_twice,
  slot_without_writer, invalid_metadata, invalid_routing, invalid_inline_rule,
  invalid_artifact_rule, invalid_detection, no_family_binding, no_detection_component,
}

-- `addComponent`: the owner of each component ID.
unfoldable pub add_component : Dict Bytes → Bytes → Bytes → Result PolicyError (Dict Bytes)
add_component components component_id entry_id = do
  refuse (has_key component_id components) duplicate_component
  ok (insert component_id entry_id components)

-- The loop over `variant.RequiredSlots`; it writes `required`.
unfoldable pub add_required : List Bytes → Bytes → Result PolicyError (List Bytes)
add_required required slot = do
  refuse (not (valid_slot slot)) invalid_required_slot
  refuse (contains slot required) duplicate_required_slot
  ok (required ++ slot ∷ [])

-- The loop over `binding.Slots`; it writes `writers`.
unfoldable pub add_writer :
    List Bytes → Bytes → Dict Bytes → Bytes → Result PolicyError (Dict Bytes)
add_writer required binding_id writers slot = do
  refuse (not (contains slot required)) undeclared_slot
  refuse (has_key slot writers) slot_written_twice
  ok (insert slot binding_id writers)

-- The loop over `variant.Bindings`; it writes `writers`, `variantBindings` and `bindingIDs`.
unfoldable pub add_binding :
    List Bytes
    → Dict Bytes × List Bytes × List Bytes
    → BindingDefinition
    → Result PolicyError (Dict Bytes × List Bytes × List Bytes)
unfolding add_writer
add_binding required (writers, variant_bindings, binding_ids) binding = do
  refuse (not (valid_id binding.id) || is_blank binding.provider || eqb (length binding.slots) 0)
      invalid_binding
  refuse (contains binding.id variant_bindings) duplicate_binding
  writers' ← for_each (add_writer required binding.id) writers binding.slots
  ok (writers', binding.id ∷ variant_bindings, binding.id ∷ binding_ids)

-- The loop over `entry.Family.Variants`; it writes `bindingIDs`.
unfoldable pub validate_variant :
    List Bytes → Bytes × VariantDefinition → Result PolicyError (List Bytes)
unfolding add_required add_binding
validate_variant binding_ids (variant_id, variant) = do
  refuse
      (not (valid_id variant_id)
        || not (variant.id == variant_id)
        || eqb (length variant.required_slots) 0
        || eqb (length variant.bindings) 0)
      invalid_variant
  required ← for_each add_required [] variant.required_slots
  (writers, variant_bindings, binding_ids') ←
      for_each (add_binding required) ([], [], binding_ids) variant.bindings
  refuse (not (eqb (length writers) (length required))) slot_without_writer
  ok binding_ids'

-- The loop over `entry.Metadata`; like the next two it writes `components`.
unfoldable pub validate_metadata_component :
    Bytes → Dict Bytes → ArtifactComponent → Result PolicyError (Dict Bytes)
validate_metadata_component entry_id components component = do
  refuse (not (valid_id component.component_id) || not (valid_id component.artifact_id))
      invalid_metadata
  add_component components component.component_id entry_id

unfoldable pub validate_routing_component :
    Bytes → Dict Bytes → RoutingComponent → Result PolicyError (Dict Bytes)
validate_routing_component entry_id components component = do
  refuse (not (valid_id component.component_id)) invalid_routing
  rule ← or_fail component.rule invalid_routing
  refuse (not (rule.url == [])) invalid_routing
  components' ← add_component components component.component_id entry_id
  let inline = component.artifact_id == []
  refuse
      (inline
        && not (
            rule.kind == codes "domain"
            || rule.kind == codes "geosite"
            || rule.kind == codes "geoip"))
      invalid_inline_rule
  refuse
      (not inline
        && (not (valid_id component.artifact_id)
            || not (rule.kind == codes "ruleset")
            || int_le rule.interval (pos 0)))
      invalid_artifact_rule
  ok components'

-- It writes `detectionIDs` as well.
unfoldable pub validate_detection_component :
    Bytes
    → List Bytes
    → Dict Bytes × List Bytes
    → DetectionComponent
    → Result PolicyError (Dict Bytes × List Bytes)
validate_detection_component entry_id binding_ids (components, detection_ids) component = do
  refuse (not (valid_id component.component_id)) invalid_detection
  components' ← add_component components component.component_id entry_id
  refuse (not (contains component.component_id binding_ids)) no_family_binding
  ok (components', component.component_id ∷ detection_ids)

-- The loop over `bindingIDs`.
unfoldable pub check_detected : List Bytes → Unit {0} → Bytes → Result PolicyError (Unit {0})
check_detected detection_ids u binding_id =
    refuse (not (contains binding_id detection_ids)) no_detection_component

unfoldable pub validate_entry : Dict Bytes → Entry → Result PolicyError (Dict Bytes)
validate_entry components entry = do
  refuse (not (valid_id entry.display_component_id) || is_blank entry.display_name) invalid_display
  displayed ← add_component components entry.display_component_id entry.entry_id
  let family = entry.family
  refuse
      (not (family.name == entry.entry_id)
        || not (family.routing_entry == entry.entry_id)
        || not (valid_id family.default_engine)
        || not (valid_id family.default_variant)
        || eqb (length family.variants) 0)
      invalid_family
  refuse (not (has_key family.default_variant family.variants)) default_variant_missing
  refuse
      (not (valid_slot family.pin_policy.source_slot)
        || eqb (length family.pin_policy.accepted_verdicts) 0)
      invalid_pin_policy
  binding_ids ← for_each validate_variant [] family.variants
  with_metadata ← for_each (validate_metadata_component entry.entry_id) displayed entry.metadata
  with_routing ← for_each (validate_routing_component entry.entry_id) with_metadata entry.routing
  (with_detection, detection_ids) ←
      for_each (validate_detection_component entry.entry_id binding_ids) (with_routing, [])
        entry.detection
  for_each (check_detected detection_ids) tt binding_ids
  ok with_detection
