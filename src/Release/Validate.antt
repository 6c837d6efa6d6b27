-- ===== src/Release/Validate.antt =====
-- `validateRelease` (internal/repository/tree.go).
use unlock_catalog_publisher.Base.{
  not, ◌||◌, [], ◌∷◌, ◌++◌, Bytes, eqb, ltb, length, has_key, insert, Result, ok, ◌>>=◌, ◌>>◌,
  refuse, or_fail, for_each,
}
use unlock_catalog_publisher.Base.Patterns.{id_pattern}
use unlock_catalog_publisher.Primitives.{Primitives}
use unlock_catalog_publisher.Release.Types.{
  File, Release, Tree, release_prefix, max_release_file_bytes, mode_file, ReleaseError,
  invalid_source_id, no_files, unsafe_path, invalid_size, duplicate_path,
}
use unlock_catalog_publisher.Release.Paths.{is_unsafe, strip_prefix, classify_release_path}
use unlock_catalog_publisher.Release.Complete.{validate_complete_source_tree}

-- `path.Join(ReleasePrefix, sourceID) + "/"`, for a source ID of the pattern.
abbrev pub source_prefix : Bytes → Bytes
source_prefix source_id = release_prefix ++ b'/' ∷ source_id ++ b'/' ∷ []

module _ (P : Primitives) where
  -- The body of the loop over the files; it writes `files`.
  unfoldable pub add_file : Bytes → Tree → File → Result ReleaseError Tree
  add_file source_id files file = do
    refuse (is_unsafe file.path) unsafe_path
    relative ← or_fail (strip_prefix (source_prefix source_id) file.path) unsafe_path
    kind ← classify_release_path P relative file.body
    refuse (eqb (length file.body) 0 || ltb max_release_file_bytes (length file.body)) invalid_size
    refuse (has_key relative files) duplicate_path
    ok (insert relative (record { body = file.body; mode = mode_file; kind = kind }) files)

  unfoldable pub validate_release : Release → Result ReleaseError Tree
  validate_release release = do
    refuse (not (id_pattern release.source_id)) invalid_source_id
    refuse (eqb (length release.files) 0) no_files
    files ← for_each (add_file release.source_id) [] release.files
    validate_complete_source_tree files
    ok files
