-- ===== src/Cohort/Sources.antt =====
-- `validateSourceTree` and the reading of the objects in `BuildCandidate` (internal/cohort/builder.go).
use unlock_catalog_publisher.Base.{
  ◌+◌, not, ◌==◌, List, [], ◌∷◌, ◌++◌, Bytes, Dict, codes, length, contains, lookup, Result, ok,
  err, ◌>>=◌, ◌>>◌, refuse, or_fail, for_each,
}
use unlock_catalog_publisher.Base.Int.{pos, int_eq}
use unlock_catalog_publisher.Base.Paths.Dir.{ancestors}
use unlock_catalog_publisher.Base.Items.{Item, symlink, folder}
use unlock_catalog_publisher.Primitives.{Primitives, digest_bytes}
use unlock_catalog_publisher.Catalog.Types.{ArtifactDescriptor}
use unlock_catalog_publisher.Signing.Candidate.Reading.{content_of}
use unlock_catalog_publisher.Cohort.Types.{
  VerifiedObject, CohortError, SourceDirectory, is_data_file, root_not_directory, item_is_symlink,
  undeclared_directory, item_not_regular, undeclared_file, object_missing, object_not_regular,
  object_length_mismatch, object_digest_mismatch, out_of_fuel,
}

abbrev pub source_name_yaml : Bytes
source_name_yaml = codes "source.yaml"

-- The loop over the artifacts; it writes `allowedFiles` and `allowedDirectories`.
unfoldable pub allow_artifact :
    List Bytes × List Bytes → ArtifactDescriptor → Result CohortError (List Bytes × List Bytes)
allow_artifact (files, directories) artifact = do
  parents ← or_fail (ancestors (length artifact.path + 1) artifact.path) out_of_fuel
  ok (files ++ artifact.path ∷ [], directories ++ parents)

-- The function that `WalkDir` calls for each entry below the root.
unfoldable pub visit_source :
    List Bytes → List Bytes → Unit {0} → Bytes × Item → Result CohortError (Unit {0})
visit_source files directories _ (relative, symlink) = err item_is_symlink
visit_source files directories _ (relative, folder mode) =
    refuse (not (contains relative directories)) undeclared_directory
visit_source files directories _ (relative, item) = do
  refuse (not (is_data_file item)) item_not_regular
  refuse (not (contains relative files)) undeclared_file

unfoldable pub validate_source_tree :
    SourceDirectory → List ArtifactDescriptor → Result CohortError (Unit {0})
validate_source_tree root artifacts = do
  (files, directories) ← for_each allow_artifact (source_name_yaml ∷ [], []) artifacts
  refuse (not root.is_directory) root_not_directory
  for_each (visit_source files directories) tt root.items

module _ (P : Primitives) where
  -- The body of the loop that reads the objects. Their paths are clean and relative: the policy has tested them.
  unfoldable pub read_object :
      Dict Item
      → List VerifiedObject
      → ArtifactDescriptor
      → Result CohortError (List VerifiedObject)
  read_object items objects descriptor = do
    item ← or_fail (lookup descriptor.path items) object_missing
    refuse (not (is_data_file item)) object_not_regular
    let content = content_of item
    refuse (not (int_eq (pos (length content)) descriptor.length)) object_length_mismatch
    refuse (not (digest_bytes P content == descriptor.sha256)) object_digest_mismatch
    ok (objects ++ record { descriptor = descriptor; content = content } ∷ [])
