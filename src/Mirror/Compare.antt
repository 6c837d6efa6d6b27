-- ===== src/Mirror/Compare.antt =====
-- `compareMirrorTrees`, `ensureMirrorImmutablesUnchanged` and `VerifyPublicMirror` without
-- the comparison of the two roots' paths (internal/repository/mirror.go).
use unlock_catalog_publisher.Base.{
  Bool, false, not, ◌&&◌, Bytes, Dict, Option, none, some, eqb, length, lookup, Result, ◌>>=◌, ◌>>◌,
  refuse, or_fail, wrap, for_each, ◌==◌,
}
use unlock_catalog_publisher.Primitives.{Primitives}
use unlock_catalog_publisher.Release.Types.{Tree, TreeFile, immutable, ReleaseError}
use unlock_catalog_publisher.Release.Disk.{Node, read_repository_sources}

pub data MirrorError : Type 0 where
  source_count_differs file_set_differs file_differs mirror_source_removed : MirrorError
  mirror_immutable_changed : MirrorError
  protected_unreadable mirror_unreadable : ReleaseError → MirrorError

-- `sourceFile.mode != mirrorFile.mode || !bytes.Equal(sourceFile.body, mirrorFile.body)`, negated.
unfoldable pub same_file : TreeFile → TreeFile → Bool
same_file left right = eqb left.mode right.mode && left.body == right.body

-- The other tree has an entry under the key that the test accepts.
abbrev pub has_match {ℓ} : {V : Type ℓ} → (V → V → Bool) → Dict V → Bytes × V → Bool
has_match same other (key, value) = elim (lookup key other) [
  | none ↦ false
  | some found ↦ same value found
]

unfoldable pub compare_file : Tree → Unit {0} → Bytes × TreeFile → Result MirrorError (Unit {0})
compare_file mirror_files u entry =
    refuse (not (has_match same_file mirror_files entry)) file_differs

unfoldable pub compare_source : Dict Tree → Unit {0} → Bytes × Tree → Result MirrorError (Unit {0})
compare_source mirror u (source_id, source_files) = do
  mirror_files ← or_fail (lookup source_id mirror) file_set_differs
  refuse (not (eqb (length source_files) (length mirror_files))) file_set_differs
  for_each (compare_file mirror_files) tt source_files

unfoldable pub compare_mirror_trees : Dict Tree → Dict Tree → Result MirrorError (Unit {0})
compare_mirror_trees sources mirror = do
  refuse (not (eqb (length sources) (length mirror))) source_count_differs
  for_each (compare_source mirror) tt sources

-- The loops of `ensureMirrorImmutablesUnchanged`.
unfoldable pub ensure_file : Tree → Unit {0} → Bytes × TreeFile → Result MirrorError (Unit {0})
ensure_file source_files u (relative, mirror_file) =
    refuse
      (immutable mirror_file.kind && not (has_match same_file source_files (relative, mirror_file)))
      mirror_immutable_changed

unfoldable pub ensure_source : Dict Tree → Unit {0} → Bytes × Tree → Result MirrorError (Unit {0})
ensure_source sources u (source_id, mirror_files) = do
  source_files ← or_fail (lookup source_id sources) mirror_source_removed
  for_each (ensure_file source_files) tt mirror_files

unfoldable pub ensure_mirror_immutables_unchanged :
    Dict Tree → Dict Tree → Result MirrorError (Unit {0})
ensure_mirror_immutables_unchanged sources mirror = for_each (ensure_source sources) tt mirror

-- `VerifyPublicMirror` of two release prefixes.
module _ (P : Primitives) where
  unfoldable pub verify_public_mirror :
      Option (Dict Node) → Option (Dict Node) → Result MirrorError (Unit {0})
  verify_public_mirror protected_prefix mirror_prefix = do
    sources ← wrap protected_unreadable (read_repository_sources P protected_prefix)
    mirror ← wrap mirror_unreadable (read_repository_sources P mirror_prefix)
    compare_mirror_trees sources mirror
