-- ===== src/Release/Materialize.antt =====
-- `MaterializeRelease` (internal/repository/tree.go): a release is merged into the tree of its source.
use unlock_catalog_publisher.Base.{
  ℕ, ◌+◌, false, not, ◌&&◌, List, [], ◌∷◌, Bytes, Dict, Option, none, some, length, lookup, insert,
  Result, ok, ◌>>=◌, ◌>>◌, refuse, for_each, ◌==◌,
}
use unlock_catalog_publisher.Primitives.{Primitives}
use unlock_catalog_publisher.Release.Types.{
  File, Release, Tree, TreeFile, MaterializeReport, immutable, mode_directory, ReleaseError,
  immutable_changed,
}
use unlock_catalog_publisher.Release.Complete.{validate_complete_source_tree}
use unlock_catalog_publisher.Release.Validate.{validate_release}
use unlock_catalog_publisher.Release.Disk.{
  Node, directory, Repository, repository, validate_repository_root, read_source_tree,
  write_source_tree,
}

-- The loop over `incoming`; it writes `merged`.
unfoldable pub merge_file : Tree → Bytes × TreeFile → Result ReleaseError Tree
merge_file merged (relative, file) = do
  refuse
      (elim (lookup relative merged) [
        | none ↦ false
        | some prior ↦ immutable file.kind && not (prior.body == file.body)
      ])
      immutable_changed
  ok (insert relative file merged)

unfoldable pub merge : Tree → Tree → Result ReleaseError Tree
unfolding merge_file
merge existing incoming = for_each merge_file existing incoming

-- `total`
unfoldable pub total_bytes : List File → ℕ
total_bytes [] = 0
total_bytes (file ∷ files) = length file.body + total_bytes files

-- The entries of the release prefix, which `MkdirAll` makes if it is missing.
abbrev entries_of : Option (Dict Node) → Dict Node
entries_of none = []
entries_of (some entries) = entries

module _ (P : Primitives) where
  -- The repository afterwards, and the report.
  unfoldable pub materialize_release :
      Bytes → Repository → Release → Result ReleaseError (Repository × MaterializeReport)
  materialize_release root r release = do
    prefix ← validate_repository_root root r
    incoming ← validate_release P release
    (existing, exists) ← read_source_tree P (lookup release.source_id (entries_of prefix))
    merged ← merge existing incoming
    validate_complete_source_tree merged
    staged ← write_source_tree merged
    ok (
      repository
          (some (insert release.source_id (directory mode_directory staged) (entries_of prefix))),
      record {
        source_id = release.source_id;
        file_count = length release.files;
        file_bytes = total_bytes release.files;
      },
    )
