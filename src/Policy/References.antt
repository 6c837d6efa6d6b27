-- ===== src/Policy/References.antt =====
-- `validateReferences` (internal/policy/validate.go): each component names an artifact of its own
-- entry, and each artifact is named.
use unlock_catalog_publisher.Base.{
  ℕ, ◌+◌, Bool, true, false, not, ◌&&◌, ◌||◌, List, [], ◌∷◌, Bytes, Dict, none, some, eqb, keys,
  contains, lookup, insert, Result, ok, ◌>>◌, ◌>>=◌, refuse, for_each, ◌==◌,
}
use unlock_catalog_publisher.Catalog.Types.{
  permission_metadata, permission_detection_data, permission_routing_data, permission_executable,
  Entry, ArtifactComponent, RoutingComponent, DetectionComponent, ArtifactDescriptor, Permission,
}
use unlock_catalog_publisher.Policy.Types.{
  PolicyError, invalid_metadata_reference, invalid_routing_reference, invalid_detection_reference,
  repeated_artifact, unreferenced_artifact,
}

-- `references[artifactID]`, which is 0 for a key that is not there.
abbrev pub count : Bytes → Dict ℕ → ℕ
count artifact_id references = elim (lookup artifact_id references) [ none ↦ 0 | some n ↦ n ]

-- `references[artifactID]++`
unfoldable pub refer : Bytes → Dict ℕ → Dict ℕ
refer artifact_id references = insert artifact_id (count artifact_id references + 1) references

module _ (artifacts : Dict ArtifactDescriptor) (entry_id : Bytes) where
  -- `!ok || artifact.EntryID != entry.EntryID || …`, negated.
  unfoldable pub resolves : (Permission → Bool) → Bytes → Bool
  resolves permitted artifact_id = elim (lookup artifact_id artifacts) [
    | none ↦ false
    | some artifact ↦ artifact.entry_id == entry_id && permitted artifact.permission
  ]

  unfoldable pub refer_metadata : Dict ℕ → ArtifactComponent → Result PolicyError (Dict ℕ)
  refer_metadata references component = do
    refuse (not (resolves (λ p. p == permission_metadata) component.artifact_id))
        invalid_metadata_reference
    ok (refer component.artifact_id references)

  unfoldable pub refer_routing : Dict ℕ → RoutingComponent → Result PolicyError (Dict ℕ)
  refer_routing references component = elim (component.artifact_id == []) [
    | true ↦ ok references
    | false ↦ do
      refuse (not (resolves (λ p. p == permission_routing_data) component.artifact_id))
          invalid_routing_reference
      ok (refer component.artifact_id references)
  ]

  -- The loop over `component.ArtifactIDs`; it writes `seen` and `references`.
  unfoldable pub refer_detected :
      List Bytes × Dict ℕ → Bytes → Result PolicyError (List Bytes × Dict ℕ)
  refer_detected (seen, references) artifact_id = do
    refuse (contains artifact_id seen) repeated_artifact
    refuse
        (not (
          resolves (λ p. p == permission_detection_data || p == permission_executable) artifact_id))
        invalid_detection_reference
    ok (artifact_id ∷ seen, refer artifact_id references)

  unfoldable pub refer_detection : Dict ℕ → DetectionComponent → Result PolicyError (Dict ℕ)
  refer_detection references component = do
    (seen, references') ← for_each refer_detected ([], references) component.artifact_ids
    ok references'

-- The loop over the entries; it writes `references`.
unfoldable pub refer_entry : Dict ArtifactDescriptor → Dict ℕ → Entry → Result PolicyError (Dict ℕ)
refer_entry artifacts references entry = do
  with_metadata ← for_each (refer_metadata artifacts entry.entry_id) references entry.metadata
  with_routing ← for_each (refer_routing artifacts entry.entry_id) with_metadata entry.routing
  for_each (refer_detection artifacts entry.entry_id) with_routing entry.detection

-- The loop over `artifacts`.
unfoldable pub check_referenced : Dict ℕ → Unit {0} → Bytes → Result PolicyError (Unit {0})
check_referenced references u artifact_id =
    refuse (eqb (count artifact_id references) 0) unreferenced_artifact

unfoldable pub validate_references :
    List Entry → Dict ArtifactDescriptor → Result PolicyError (Unit {0})
validate_references entries artifacts = do
  references ← for_each (refer_entry artifacts) [] entries
  for_each (check_referenced references) tt (keys artifacts)
