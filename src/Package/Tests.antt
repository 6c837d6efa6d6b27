-- ===== src/Package/Tests.antt =====
-- A package of a manifest and an object, built and verified.
use unlock_catalog_publisher.Base.{
  ◌≤◌, ◌≡◌, ◌⊎◌, refl, true, false, all, any, List, [], ◌∷◌, ◌++◌, Nodup, Bytes, Dict, Option, none,
  some, codes, length, eqb, map, lookup, has_key, keys, contains, less, for_each, ok, err, take,
  ◌>>=◌, ◌>>◌, ◌==◌,
}
use unlock_catalog_publisher.Base.Distinct.{distinct, distinct_from, distinct_iff}
use unlock_catalog_publisher.Base.Paths.{clean, is_abs, base}
use unlock_catalog_publisher.Base.Patterns.{
  id_pattern, digest_pattern, is_hex, is_digit, hex_encode,
}
use unlock_catalog_publisher.Base.Sort.{sort_by}
use unlock_catalog_publisher.Primitives.{digest_bytes}
use unlock_catalog_publisher.Policy.Artifact.{object_path}
use unlock_catalog_publisher.Release.Tests.{toy}
use unlock_catalog_publisher.Release.Types.{mode_file, mode_directory}
use unlock_catalog_publisher.Release.Paths.{strip_prefix, object_match, manifest_json}
use unlock_catalog_publisher.Json.Walk.{
  walk_value, at_end, reject_duplicate_json_fields, next_token,
}
use unlock_catalog_publisher.Package.Types.{
  PackageError, ArchiveEntry, default_package_limits, package_file_name,
}
use unlock_catalog_publisher.Package.Paths.{
  to_lower, has_prefix, trim_prefix, validate_repository_member_path,
}
use unlock_catalog_publisher.Package.Metadata.{
  object_differs, check_file, validate_metadata, add_member, metadata_for_options, sorted_files,
}
use unlock_catalog_publisher.Package.Archive.{
  canonical_header, validate_archive_header, read_member, parse_archive,
}
use unlock_catalog_publisher.Package.Verify.{verify_package}
use unlock_catalog_publisher.Package.Build.{
  TreeItem, folder, regular, visit_item, validate_input_tree, package_bytes, build_package,
}
use unlock_catalog_publisher.Package.Table.{contract, is_packable, metadata_for_options-contract}
use unlock_catalog_publisher.Package.Bounds.{is_bounded, names_of, parse_archive_bounds}
use unlock_catalog_publisher.Package.Canonical.{verify_package-canonical, build_package-IsAtomic}
use unlock_catalog_publisher.Package.Written.{written}
use unlock_catalog_publisher.Package.RoundTrip.{verify_package-package_bytes}
use unlock_catalog_publisher.Package.Toy.{
  pack, digest, files, options, codec, open_box-compress, read_tar-write_tar,
}

options_accepted :
    metadata_for_options toy default_package_limits options ≡ ok (contract toy options)
unfolding ◌>>=◌ ◌>>◌ for_each ◌==◌ less lookup has_key contains is_hex is_digit digest_pattern
    id_pattern all any hex_encode digest_bytes strip_prefix object_match object_path clean is_abs
    sort_by to_lower has_prefix trim_prefix validate_repository_member_path object_differs
    check_file validate_metadata add_member metadata_for_options
options_accepted = refl

metadata_for_options-contract_example :
    (contract toy options ≡ contract toy options)
    × (validate_metadata default_package_limits (contract toy options) ≡ ok tt)
    × (all (is_packable default_package_limits) (sorted_files options.files) ≡ true)
    × ((manifest : Bytes) × (lookup manifest_json options.files ≡ some manifest)
        × (digest_bytes toy manifest ≡ options.manifest_envelope_sha256))
metadata_for_options-contract_example =
    metadata_for_options-contract toy default_package_limits options options_accepted

-- The entries of the package, and its bytes.
abbrev entries : List ArchiveEntry
entries =
    record { name = codes "package.json"; body = codes "{}" }
    ∷ record { name = codes "repository/manifest.json"; body = 1 ∷ 2 ∷ [] }
    ∷ record { name = codes "repository/" ++ object_path digest; body = 5 ∷ [] }
    ∷ []

abbrev packed : Bytes
packed = 1 ∷ pack entries

package_written :
    package_bytes toy codec default_package_limits options (contract toy options) ≡ ok packed
unfolding ◌>>=◌ ◌>>◌ less ◌==◌ object_path sort_by pack package_bytes
package_written = refl

document_accepted : reject_duplicate_json_fields (codec.tokens (codes "{}")) ≡ ok tt
unfolding reject_duplicate_json_fields walk_value next_token at_end ◌>>=◌ ◌>>◌
document_accepted = refl

file_names_differ : distinct (keys files) ≡ true
unfolding distinct_from contains ◌==◌ object_path
file_names_differ = refl

filled : eqb (length packed) 0 ≡ false
unfolding pack object_path
filled = refl

named : base (codes "/p/unlock-catalog-package-v1.tar.zst") ≡ package_file_name
unfolding base ◌==◌
named = refl

package_verified :
    verify_package toy codec default_package_limits
      (codes "/p/unlock-catalog-package-v1.tar.zst")
      (some (record { is_regular = true; mode = mode_file; body = packed }))
      options
    ≡ ok tt
package_verified =
    verify_package-package_bytes toy codec read_tar-write_tar open_box-compress
      default_package_limits (codes "/p/unlock-catalog-package-v1.tar.zst") options (codes "{}")
      packed ((distinct_iff (keys files)).0 file_names_differ) options_accepted refl refl
      document_accepted refl refl package_written filled named

verify_package-package_bytes_example :
    verify_package toy codec default_package_limits
      (codes "/p/unlock-catalog-package-v1.tar.zst")
      (some (record { is_regular = true; mode = mode_file; body = packed }))
      options
    ≡ ok tt
verify_package-package_bytes_example =
    verify_package-package_bytes toy codec read_tar-write_tar open_box-compress
      default_package_limits (codes "/p/unlock-catalog-package-v1.tar.zst") options (codes "{}")
      packed ((distinct_iff (keys files)).0 file_names_differ) options_accepted refl refl
      document_accepted refl refl package_written filled named

verify_package-canonical_example :
    package_bytes toy codec default_package_limits options (contract toy options) ≡ ok packed
verify_package-canonical_example =
    verify_package-canonical toy codec default_package_limits
      (codes "/p/unlock-catalog-package-v1.tar.zst")
      (record { is_regular = true; mode = mode_file; body = packed }) options
      ((distinct_iff (keys files)).0 file_names_differ) package_verified

members_read : parse_archive default_package_limits (map written entries) ≡ ok entries
unfolding ◌>>=◌ ◌>>◌ for_each take contains any is_hex is_digit digest_pattern all strip_prefix
    object_match object_path clean is_abs to_lower has_prefix trim_prefix
    validate_repository_member_path canonical_header validate_archive_header read_member
    parse_archive ◌==◌
members_read = refl

parse_archive_bounds_example :
    (length entries ≤ default_package_limits.max_members)
    × (all (is_bounded default_package_limits) entries ≡ true)
    × Nodup (names_of entries)
parse_archive_bounds_example =
    parse_archive_bounds default_package_limits (map written entries) members_read

abbrev items : Dict TreeItem
items =
    (codes "manifest.json", regular mode_file (1 ∷ 2 ∷ []))
    ∷ (codes "objects", folder mode_directory)
    ∷ (object_path digest, regular mode_file (5 ∷ []))
    ∷ []

abbrev tree : Option (Dict TreeItem)
tree = some items

tree_accepted : validate_input_tree tree files ≡ ok tt
unfolding ◌>>=◌ ◌>>◌ for_each lookup contains visit_item validate_input_tree object_path ◌==◌
tree_accepted = refl

-- Nothing is at the output.
abbrev nothing : Option Bytes
nothing = none

build_package-IsAtomic_example :
    let (after, result) = build_package toy codec options tree false true nothing in
    let verdict = λ (compressed : Bytes).
      verify_package toy codec default_package_limits options.output
        (some (record { is_regular = true; mode = mode_file; body = compressed }))
        (record options { root = []; output = [] }) in
    ((result ≡ ok tt)
      × (nothing ≡ none)
      × ((compressed : Bytes) × (after ≡ some compressed) × (verdict compressed ≡ ok tt)))
    ⊎ ((failure : PackageError) × (result ≡ err failure)
        × ((after ≡ nothing)
            ⊎ ((true ≡ true)
                × (nothing ≡ none)
                × ((compressed : Bytes) × (after ≡ some compressed)
                    × (verdict compressed ≡ err failure)))))
build_package-IsAtomic_example = build_package-IsAtomic toy codec options tree false true nothing
