-- ===== src/Release/Types.antt =====
-- The data of internal/repository/tree.go.
use unlock_catalog_publisher.Base.{ℕ, Bool, true, false, Bytes, Dict, List, codes}

-- `ReleasePrefix` and `MaxReleaseFileBytes`.
abbrev pub release_prefix : Bytes
release_prefix = codes "catalog/sources"

abbrev pub max_release_file_bytes : ℕ
max_release_file_bytes = 268435456

pub record File : Type 0 where
  pub path : Bytes
  pub body : Bytes

pub record Release : Type 0 where
  pub source_id : Bytes
  pub files : List File

pub record MaterializeReport : Type 0 where
  pub source_id : Bytes
  pub file_count : ℕ
  pub file_bytes : ℕ

pub data FileKind : Type 0 where
  kind_live_manifest kind_live_root kind_object kind_manifest_archive kind_root_archive
        kind_package :
      FileKind

pub record TreeFile : Type 0 where
  pub body : Bytes
  pub mode : ℕ
  pub kind : FileKind

-- `map[string]treeFile`: the files of one source under their paths.
abbrev pub Tree : Type 0
Tree = Dict TreeFile

-- The modes 0644 and 0755.
abbrev pub mode_file : ℕ
mode_file = 420

abbrev pub mode_directory : ℕ
mode_directory = 493

-- `immutable`
unfoldable pub immutable : FileKind → Bool
immutable kind_live_manifest = false
immutable kind_live_root = false
immutable _ = true

-- Errors that wrap `ErrInvalidReleaseTree` and `ErrImmutableChanged`, and the others.
pub data ReleaseError : Type 0 where
  invalid_source_id no_files unsafe_path object_digest_differs unknown_path : ReleaseError
  invalid_size duplicate_path live_files_missing incomplete : ReleaseError
  source_mode_differs directory_mode_differs unsafe_file unexpected_entry : ReleaseError
  immutable_changed source_deleted not_a_directory : ReleaseError
  unsafe_changed_path not_a_release_path : ReleaseError
  non_release_path : Bytes → ReleaseError
  root_required root_missing root_not_a_directory : ReleaseError
  base_repository candidate_repository : ReleaseError → ReleaseError
