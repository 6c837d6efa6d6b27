-- ===== src/Release/Tests.antt =====
-- A repository with one source and its next release, with a toy SHA-256 whose sums are all alike.
use unlock_catalog_publisher.Base.{
  ℕ, zero, suc, ◌≡◌, refl, Bool, true, false, not, all, any, List, [], ◌∷◌, ◌++◌, Bytes, Dict, none,
  some, ok, codes, ◌>>=◌, ◌>>◌, for_each, ◌==◌, lookup, has_key, insert, ◌⊎◌,
}
use unlock_catalog_publisher.Base.Paths.{clean, is_abs}
use unlock_catalog_publisher.Base.Patterns.{
  id_pattern, digest_pattern, is_hex, is_digit, hex_encode,
}
use unlock_catalog_publisher.Base.Sort.{sort_by}
use unlock_catalog_publisher.Primitives.{Primitives, digest_bytes}
use unlock_catalog_publisher.Policy.Artifact.{object_path}
use unlock_catalog_publisher.Release.Types.{
  File, Release, Tree, FileKind, kind_live_manifest, kind_live_root, kind_object,
  kind_manifest_archive, kind_root_archive, kind_package, mode_file, mode_directory, immutable,
}
use unlock_catalog_publisher.Release.Paths.{
  strip_prefix, object_match, archive_path, root_path, package_path, is_unsafe,
  classify_release_path, valid_release_path_shape,
}
use unlock_catalog_publisher.Release.Complete.{tally, tally_file, validate_complete_source_tree}
use unlock_catalog_publisher.Release.Validate.{add_file, validate_release, source_prefix}
use unlock_catalog_publisher.Release.Disk.{
  Item, regular, folder, Node, directory, Repository, repository, validate_repository_root,
  read_item, read_source_tree, read_entry, read_repository_sources,
}
use unlock_catalog_publisher.Release.Materialize.{merge, merge_file}
use unlock_catalog_publisher.Release.Replace.{
  Call, make_backup, remove_backup, rename_source, rename_staging, rename_back, remove_all, missing,
  holds, remains, replace_source_tree, replace_source_tree-IsAtomic, remove_failed, install_failed,
  is_error,
}
use unlock_catalog_publisher.Release.Diff.{
  check_kept, check_source, verify_sources, verify_release_diff,
}
use unlock_catalog_publisher.Release.Changes.{
  release_path, cut_slash, add_change, settle, validate_release_change_paths,
}
use unlock_catalog_publisher.Release.Reading.{check_kept-merge}
use unlock_catalog_publisher.Release.History.{Preserved, Reads, verify_release_diff_trans}
use unlock_catalog_publisher.Release.Unmixed.{
  of_release, outside, validate_release_change_paths-IsUnmixed,
}
use unlock_catalog_publisher.Release.Addressed.{classify_release_path-shape}

abbrev pub copies : ℕ → ℕ → Bytes
copies zero c = []
copies (suc n) c = c ∷ copies n c

abbrev pub toy : Primitives
toy = record {
  sha256 = λ content. copies 32 119;
  ed25519_verify = λ key message signature. true;
  base64_decode = λ encoded. some encoded;
}

abbrev pub demo : Bytes
demo = codes "demo"

-- The name in the archive of a version.
abbrev named : Bytes → ℕ → Bytes → Bytes
named start version tail = start ++ copies 19 b'0' ++ version ∷ b'/' ∷ copies 64 b'a' ++ tail

-- The relative paths and bodies of a version, which is the code of a digit.
abbrev pub contents : ℕ → List (Bytes × Bytes)
contents version =
    (codes "manifest.json", version ∷ [])
    ∷ (codes "root.json", 9 ∷ [])
    ∷ (object_path (copies 64 b'7'), 5 ∷ [])
    ∷ (named (codes "archive/") version (codes "/manifest.json"), version ∷ [])
    ∷ (named (codes "roots/") b'1' (codes "/root.json"), 9 ∷ [])
    ∷ (
      named (codes "packages/") version (codes "/unlock-catalog-package-v1.tar.zst"),
      version ∷ 4 ∷ [],
    )
    ∷ []

abbrev files_of : List (Bytes × Bytes) → List File
files_of [] = []
files_of ((path, body) ∷ rest) =
    record { path = source_prefix demo ++ path; body = body } ∷ files_of rest

abbrev items_of : List (Bytes × Bytes) → Dict Item
items_of [] = []
items_of ((path, body) ∷ rest) = (path, regular mode_file body) ∷ items_of rest

abbrev kinds : List FileKind
kinds =
    kind_live_manifest ∷ kind_live_root ∷ kind_object ∷ kind_manifest_archive ∷ kind_root_archive
    ∷ kind_package ∷ []

abbrev with_kinds : List (Bytes × Bytes) → List FileKind → Tree
with_kinds ((path, body) ∷ rest) (kind ∷ more) =
    (path, record { body = body; mode = mode_file; kind = kind }) ∷ with_kinds rest more
with_kinds _ _ = []

abbrev pub tree : ℕ → Tree
tree version = with_kinds (contents version) kinds

abbrev pub node : Node
node =
    directory mode_directory ((codes "archive", folder mode_directory) ∷ items_of (contents b'1'))

abbrev pub published : Repository
published = repository (some ((demo, node) ∷ []))

abbrev update : Release
update = record { source_id = demo; files = files_of (contents b'2') }

-- The first version with the second written over it.
abbrev both : Tree
both =
    (
      codes "manifest.json",
      record { body = b'2' ∷ []; mode = mode_file; kind = kind_live_manifest },
    )
    ∷ (codes "root.json", record { body = 9 ∷ []; mode = mode_file; kind = kind_live_root })
    ∷ (object_path (copies 64 b'7'), record { body = 5 ∷ []; mode = mode_file; kind = kind_object })
    ∷ (
      named (codes "archive/") b'1' (codes "/manifest.json"),
      record { body = b'1' ∷ []; mode = mode_file; kind = kind_manifest_archive },
    )
    ∷ (
      named (codes "roots/") b'1' (codes "/root.json"),
      record { body = 9 ∷ []; mode = mode_file; kind = kind_root_archive },
    )
    ∷ (
      named (codes "packages/") b'1' (codes "/unlock-catalog-package-v1.tar.zst"),
      record { body = b'1' ∷ 4 ∷ []; mode = mode_file; kind = kind_package },
    )
    ∷ (
      named (codes "archive/") b'2' (codes "/manifest.json"),
      record { body = b'2' ∷ []; mode = mode_file; kind = kind_manifest_archive },
    )
    ∷ (
      named (codes "packages/") b'2' (codes "/unlock-catalog-package-v1.tar.zst"),
      record { body = b'2' ∷ 4 ∷ []; mode = mode_file; kind = kind_package },
    )
    ∷ []

pub tree_read : read_source_tree toy (some node) ≡ ok (tree b'1', true)
unfolding ◌>>=◌ ◌>>◌ for_each ◌==◌ lookup insert is_hex is_digit digest_pattern all hex_encode
    digest_bytes strip_prefix object_match object_path archive_path root_path package_path
    classify_release_path read_item read_source_tree
tree_read = refl

update_valid : validate_release toy update ≡ ok (tree b'2')
unfolding ◌>>=◌ ◌>>◌ for_each ◌==◌ lookup insert has_key is_hex is_digit digest_pattern id_pattern
    all any hex_encode digest_bytes strip_prefix object_match object_path archive_path root_path
    package_path classify_release_path is_unsafe clean is_abs add_file validate_complete_source_tree
    tally tally_file validate_release
update_valid = refl

merged : merge (tree b'1') (tree b'2') ≡ ok both
unfolding ◌>>=◌ ◌>>◌ for_each ◌==◌ lookup insert object_path immutable merge_file merge
merged = refl

-- What stays of a version when a later one is published.
abbrev archived : ℕ → List (Bytes × Bytes)
archived version =
    (named (codes "archive/") version (codes "/manifest.json"), version ∷ [])
    ∷ (
      named (codes "packages/") version (codes "/unlock-catalog-package-v1.tar.zst"),
      version ∷ 4 ∷ [],
    )
    ∷ []

abbrev with_items : Dict Item → Repository
with_items items = repository (
    some ((demo, directory mode_directory ((codes "archive", folder mode_directory) ∷ items)) ∷ []))

-- The second version after the first, and the third after both.
abbrev second_published : Repository
second_published = with_items (items_of (contents b'2' ++ archived b'1'))

abbrev third_published : Repository
third_published = with_items (items_of (contents b'3' ++ archived b'1' ++ archived b'2'))

second_accepted :
    verify_release_diff toy (codes "/one") published (codes "/two") second_published ≡ ok tt
unfolding ◌>>=◌ ◌>>◌ for_each ◌==◌ lookup insert is_hex is_digit digest_pattern id_pattern all
    hex_encode digest_bytes strip_prefix object_match object_path archive_path root_path
    package_path classify_release_path read_item read_source_tree read_entry read_repository_sources
    validate_complete_source_tree tally tally_file immutable validate_repository_root check_kept
    check_source verify_sources verify_release_diff
second_accepted = refl

third_accepted :
    verify_release_diff toy (codes "/two") second_published (codes "/three") third_published ≡ ok tt
unfolding ◌>>=◌ ◌>>◌ for_each ◌==◌ lookup insert is_hex is_digit digest_pattern id_pattern all
    hex_encode digest_bytes strip_prefix object_match object_path archive_path root_path
    package_path classify_release_path read_item read_source_tree read_entry read_repository_sources
    validate_complete_source_tree tally tally_file immutable validate_repository_root check_kept
    check_source verify_sources verify_release_diff
third_accepted = refl

changed_paths : List Bytes
changed_paths =
    codes "catalog/sources/demo/manifest.json" ∷ codes "catalog/sources/demo/root.json" ∷ []

change_accepted : validate_release_change_paths changed_paths ≡ ok true
unfolding changed_paths ◌>>=◌ ◌>>◌ for_each ◌==◌ id_pattern all any strip_prefix object_match
    archive_path root_path package_path is_unsafe clean is_abs valid_release_path_shape sort_by
    release_path cut_slash add_change settle validate_release_change_paths
change_accepted = refl

classified_object :
    classify_release_path toy (object_path (digest_bytes toy (5 ∷ []))) (5 ∷ []) ≡ ok kind_object
unfolding ◌==◌ is_hex digest_pattern all hex_encode digest_bytes strip_prefix object_match
    object_path classify_release_path
classified_object = refl

check_kept-merge_example : for_each (check_kept both) tt (tree b'1') ≡ ok tt
check_kept-merge_example = check_kept-merge toy (some node) update tree_read update_valid merged

verify_release_diff_trans_example :
    (verify_release_diff toy (codes "/one") published (codes "/three") third_published ≡ ok tt)
    × (first : Dict Tree) × (third : Dict Tree) × Reads toy (codes "/one") published first
    × Reads toy (codes "/three") third_published third
    × Preserved first third
verify_release_diff_trans_example =
    verify_release_diff_trans toy (codes "/one") (codes "/two") (codes "/three") published
      second_published third_published second_accepted third_accepted

validate_release_change_paths-IsUnmixed_example :
    (all (λ p. not (is_unsafe p)) changed_paths ≡ true)
    × (true ≡ true → all of_release changed_paths ≡ true)
    × (true ≡ false → all outside changed_paths ≡ true)
validate_release_change_paths-IsUnmixed_example =
    validate_release_change_paths-IsUnmixed changed_paths change_accepted

classify_release_path-shape_example :
    (valid_release_path_shape (object_path (digest_bytes toy (5 ∷ []))) ≡ true)
    × (kind_object ≡ kind_object
        → object_path (digest_bytes toy (5 ∷ [])) ≡ object_path (digest_bytes toy (5 ∷ [])))
classify_release_path-shape_example =
    classify_release_path-shape toy (object_path (digest_bytes toy (5 ∷ []))) (5 ∷ [])
      classified_object

-- The call that installs the new tree fails.
abbrev install_fails : Call → Bool
install_fails call = elim call [
  | make_backup ↦ false
  | remove_backup ↦ false
  | rename_source ↦ false
  | rename_staging ↦ true
  | rename_back ↦ false
  | remove_all ↦ false
]

replace_source_tree-IsAtomic_example :
    let (after, result) =
      replace_source_tree {X = ℕ} install_fails
        (record { source = holds 1; staging = holds 2; backup = missing }) in
    ((result ≡ none) × (after.source ≡ holds 2) × (after.backup ≡ missing))
    ⊎ (((result ≡ some remove_failed)
          × (after.source ≡ holds 2)
          × (after.backup ≡ remains (holds 1)))
        ⊎ (((is_error result ≡ true) × (after.source ≡ holds 1) × (after.staging ≡ holds 2))
            ⊎ ((result ≡ some install_failed)
                × (install_fails rename_staging ≡ true)
                × (install_fails rename_back ≡ true)
                × (after.source ≡ missing)
                × (after.staging ≡ holds 2)
                × (after.backup ≡ holds 1))))
replace_source_tree-IsAtomic_example = replace_source_tree-IsAtomic install_fails 1 2
