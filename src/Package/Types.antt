-- ===== src/Package/Types.antt =====
-- The types of internal/package/package.go. The lengths of files are `int64`; the limits are positive
-- constants, and so natural numbers.
use unlock_catalog_publisher.Base.{ℕ, Bytes, Dict, List, Option, codes}
use unlock_catalog_publisher.Base.Int.{ℤ}
use unlock_catalog_publisher.Json.Walk.{JsonError}

abbrev pub package_file_name : Bytes
package_file_name = codes "unlock-catalog-package-v1.tar.zst"

abbrev pub package_format : Bytes
package_format = codes "unlock-catalog-package-v1"

pub record PackageFile : Type 0 where
  pub path : Bytes
  pub length : ℤ
  pub sha256 : Bytes

pub record PackageMetadata : Type 0 where
  pub format : Bytes
  pub source_id : Bytes
  pub manifest_digest : Bytes
  pub manifest_envelope_sha256 : Bytes
  pub root_version : Option ℕ
  pub files : List PackageFile

pub record BuildOptions : Type 0 where
  pub root : Bytes
  pub output : Bytes
  pub source_id : Bytes
  pub manifest_digest : Bytes
  pub manifest_envelope_sha256 : Bytes
  pub root_version : Option ℕ
  pub files : Dict Bytes

pub record PackageLimits : Type 0 where
  pub max_compressed_bytes : ℕ
  pub max_uncompressed_bytes : ℕ
  pub max_artifact_bytes : ℕ
  pub max_manifest_bytes : ℕ
  pub max_members : ℕ
  pub max_path_bytes : ℕ

pub record ArchiveEntry : Type 0 where
  pub name : Bytes
  pub body : Bytes

-- `defaultPackageLimits`
abbrev pub default_package_limits : PackageLimits
default_package_limits = record {
  max_compressed_bytes = 268435456;
  max_uncompressed_bytes = 268435456;
  max_artifact_bytes = 67108864;
  max_manifest_bytes = 4194304;
  max_members = 4096;
  max_path_bytes = 255;
}

pub data PackageError : Type 0 where
  -- paths
  unsafe_package_path outside_allowlist : PackageError
  -- the options
  invalid_source_id invalid_manifest_digest root_version_not_positive invalid_member_count :
      PackageError
  case_collision invalid_length object_digest_differs manifest_missing : PackageError
  envelope_digest_differs root_missing : PackageError
  -- package.json
  identity_invalid root_version_invalid file_count_invalid not_sorted repeated_file : PackageError
  integrity_invalid metadata_incomplete identity_differs file_table_differs : PackageError
  json_rejected : JsonError → PackageError
  json_not_decoded json_not_encoded json_not_canonical : PackageError
  -- the archive
  tar_not_read too_many_members not_canonical_header duplicate_member length_differs : PackageError
  body_not_read tar_not_written path_too_long : PackageError
  -- the package
  wrong_package_path package_missing not_a_regular_file compressed_limit not_decompressed :
      PackageError
  uncompressed_limit tar_not_canonical zstd_not_canonical not_compressed : PackageError
  package_json_not_first member_count_differs member_differs bytes_differ : PackageError
  contract_invalid : PackageError → PackageError
  -- the directory that is packed
  root_and_output_required wrong_output_name output_exists root_not_a_directory : PackageError
  tree_symlink tree_directory_mode tree_extra_file tree_file_mode tree_file_differs : PackageError
  tree_files_missing publish_failed : PackageError
