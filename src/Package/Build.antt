-- ===== src/Package/Build.antt =====
-- `BuildPackage` and `validateInputTree` (internal/package/package.go).
use unlock_catalog_publisher.Base.{
  ℕ, Bool, true, false, not, ◌||◌, List, [], ◌∷◌, ◌++◌, Bytes, Dict, Option, none, some, codes, eqb,
  ltb, length, lookup, contains, map, Result, ok, err, ◌>>=◌, ◌>>◌, refuse, or_fail, for_each, ◌==◌,
  if◌then◌else◌,
}
use unlock_catalog_publisher.Base.Paths.{base}
use unlock_catalog_publisher.Primitives.{Primitives}
use unlock_catalog_publisher.Release.Types.{mode_file, mode_directory}
use unlock_catalog_publisher.Package.Types.{
  PackageMetadata, BuildOptions, PackageLimits, ArchiveEntry, PackageError, package_file_name,
  default_package_limits, json_not_encoded, tar_not_written, not_compressed, compressed_limit,
  uncompressed_limit, root_and_output_required, wrong_output_name, output_exists,
  root_not_a_directory, tree_symlink, tree_directory_mode, tree_extra_file, tree_file_mode,
  tree_file_differs, tree_files_missing, publish_failed,
}
use unlock_catalog_publisher.Package.Paths.{repository_prefix}
use unlock_catalog_publisher.Package.Metadata.{metadata_for_options, sorted_files}
use unlock_catalog_publisher.Package.Verify.{Codec, verify_package}

-- What the walk finds below the root. `irregular` is neither a link nor a directory nor a regular file.
pub data TreeItem : Type 0 where
  symlink : TreeItem
  folder : ℕ → TreeItem
  regular : ℕ → Bytes → TreeItem
  irregular : TreeItem

-- The function that `validateInputTree` gives to `WalkDir`; it writes `found`.
unfoldable pub visit_item :
    Dict Bytes → List Bytes → Bytes × TreeItem → Result PackageError (List Bytes)
visit_item expected found (name, symlink) = err tree_symlink
visit_item expected found (name, folder mode) = do
  refuse (not (eqb mode mode_directory)) tree_directory_mode
  ok found
visit_item expected found (name, regular mode content) = do
  want ← or_fail (lookup name expected) tree_extra_file
  refuse (not (eqb mode mode_file)) tree_file_mode
  refuse (not (content == want)) tree_file_differs
  ok (if contains name found then found else name ∷ found)
visit_item expected found (name, irregular) = do
  want ← or_fail (lookup name expected) tree_extra_file
  err tree_file_mode

-- The root is `none` when it is not a directory.
unfoldable pub validate_input_tree :
    Option (Dict TreeItem) → Dict Bytes → Result PackageError (Unit {0})
validate_input_tree root expected = do
  items ← or_fail root root_not_a_directory
  found ← for_each (visit_item expected) [] items
  refuse (not (eqb (length found) (length expected))) tree_files_missing

-- The entry of a file.
abbrev pub repository_entry : Bytes × Bytes → ArchiveEntry
repository_entry (name, body) = record { name = repository_prefix ++ name; body = body }

module _ (P : Primitives) (C : Codec) where
  -- The bytes of the package, from the metadata on.
  unfoldable pub package_bytes :
      PackageLimits → BuildOptions → PackageMetadata → Result PackageError Bytes
  package_bytes limits options metadata = do
    metadata_bytes ← or_fail (C.encode_metadata metadata) json_not_encoded
    let entries : List ArchiveEntry =
        record { name = codes "package.json"; body = metadata_bytes }
        ∷ map repository_entry (sorted_files options.files)
    archive ← or_fail (C.write_tar entries) tar_not_written
    refuse (ltb limits.max_uncompressed_bytes (length archive)) uncompressed_limit
    compressed ← or_fail (C.compress archive) not_compressed
    refuse (ltb limits.max_compressed_bytes (length compressed)) compressed_limit
    ok compressed

  -- All that comes before the first write.
  unfoldable pub prepare_package :
      PackageLimits
      → BuildOptions
      → Option (Dict TreeItem)
      → Option Bytes
      → Result PackageError Bytes
  prepare_package limits options tree output = do
    refuse (options.root == [] || options.output == []) root_and_output_required
    refuse (not (base options.output == package_file_name)) wrong_output_name
    refuse (elim output [ none ↦ false | some _ ↦ true ]) output_exists
    metadata ← metadata_for_options P limits options
    validate_input_tree tree options.files
    package_bytes limits options metadata

  -- The check of what was published. A package that fails it is removed, and the error of the removal is
  -- ignored: when it fails, the package stays.
  abbrev settle :
      Bool → Bytes → Result PackageError (Unit {0}) → Option Bytes × Result PackageError (Unit {0})
  settle remove_fails compressed (ok _) = (some compressed, ok tt)
  settle remove_fails compressed (err failure) =
      ((if remove_fails then some compressed else none), err failure)

  -- `tree` is what is found at the root and `output` what is found at the output; `writes_fail` tells
  -- whether a call of the operating system fails before the package has its name, and `remove_fails` whether
  -- `os.Remove` fails. The result comes with what is then at the output.
  unfoldable pub build_package :
      BuildOptions
      → Option (Dict TreeItem)
      → Bool
      → Bool
      → Option Bytes
      → Option Bytes × Result PackageError (Unit {0})
  build_package options tree writes_fail remove_fails output =
      elim (prepare_package default_package_limits options tree output) [
        | err failure ↦ (output, err failure)
        | ok compressed ↦
            if writes_fail
            then (output, err publish_failed)
            else settle remove_fails compressed (
                verify_package P C default_package_limits options.output
                  (some (record { is_regular = true; mode = mode_file; body = compressed }))
                  (record options { root = []; output = [] }))
      ]
