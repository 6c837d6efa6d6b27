-- ===== src/Package/Verify.antt =====
-- `VerifyPackage` and `parseMetadata` (internal/package/package.go). The tar archive, zstd and JSON are the
-- fields of `Codec`.
use unlock_catalog_publisher.Base.{
  ℕ, Bool, not, ◌||◌, List, [], ◌∷◌, Bytes, Dict, Option, codes, eqb, ltb, length, lookup, Result,
  ok, err, ◌>>=◌, ◌>>◌, refuse, or_fail, wrap, ◌==◌,
}
use unlock_catalog_publisher.Base.Int.{pos, int_eq}
use unlock_catalog_publisher.Base.Paths.{base}
use unlock_catalog_publisher.Primitives.{Primitives, digest_bytes}
use unlock_catalog_publisher.Release.Types.{mode_file}
use unlock_catalog_publisher.Json.Walk.{Token, reject_duplicate_json_fields}
use unlock_catalog_publisher.Package.Types.{
  PackageFile, PackageMetadata, BuildOptions, PackageLimits, ArchiveEntry, PackageError,
  package_file_name, json_rejected, json_not_decoded, json_not_encoded, json_not_canonical,
  tar_not_written, wrong_package_path, package_missing, not_a_regular_file, compressed_limit,
  not_decompressed, uncompressed_limit, tar_not_canonical, zstd_not_canonical, not_compressed,
  package_json_not_first, member_count_differs, member_differs, bytes_differ, contract_invalid,
}
use unlock_catalog_publisher.Package.Paths.{trim_prefix, repository_prefix}
use unlock_catalog_publisher.Package.Metadata.{
  validate_metadata, metadata_for_options, compare_metadata,
}
use unlock_catalog_publisher.Package.Archive.{Member, parse_archive}

pub record Codec : Type 0 where
  -- What a `tar.Reader` returns, member by member.
  pub read_tar : Bytes → List Member
  -- The archive of `canonicalArchive`.
  pub write_tar : List ArchiveEntry → Option Bytes
  -- `canonicalCompress`
  pub compress : Bytes → Option Bytes
  -- What `io.ReadAll` returns of the decoder behind a limit of one byte more than the number given.
  pub decompress : ℕ → Bytes → Option Bytes
  -- The tokens of a `json.Decoder`.
  pub tokens : Bytes → List Token
  -- `decoder.Decode(&metadata)` without unknown fields, and the check that nothing follows.
  pub decode_metadata : Bytes → Option PackageMetadata
  -- `json.Marshal(metadata)`
  pub encode_metadata : PackageMetadata → Option Bytes

-- What `Lstat` and `ReadFile` tell of the package.
pub record PackageNode : Type 0 where
  pub is_regular : Bool
  pub mode : ℕ
  pub body : Bytes

module _ (P : Primitives) (C : Codec) where
  unfoldable pub parse_metadata : PackageLimits → Bytes → Result PackageError PackageMetadata
  parse_metadata limits content = do
    wrap json_rejected (reject_duplicate_json_fields (C.tokens content))
    metadata ← or_fail (C.decode_metadata content) json_not_decoded
    canonical ← or_fail (C.encode_metadata metadata) json_not_encoded
    refuse (not (content == canonical)) json_not_canonical
    validate_metadata limits metadata
    ok metadata

  -- The body of the loop over the table; the bodies of the expected files are in `expected`.
  unfoldable pub check_entry :
      Dict Bytes → PackageFile → ArchiveEntry → Result PackageError (Unit {0})
  check_entry expected file entry = do
    refuse
        (not (entry.name == file.path)
          || not (int_eq (pos (length entry.body)) file.length)
          || not (digest_bytes P entry.body == file.sha256))
        member_differs
    want ← or_fail (lookup (trim_prefix repository_prefix file.path) expected) bytes_differ
    refuse (not (entry.body == want)) bytes_differ

  -- The loop, on a table that is as long as the list of entries.
  unfoldable pub check_entries :
      Dict Bytes → List PackageFile → List ArchiveEntry → Result PackageError (Unit {0})
  check_entries expected (file ∷ files) (entry ∷ entries) = do
    check_entry expected file entry
    check_entries expected files entries
  check_entries expected _ _ = ok tt

  -- From the check for `package.json` on.
  unfoldable pub verify_entries :
      PackageLimits
      → Dict Bytes
      → PackageMetadata
      → List ArchiveEntry
      → Result PackageError (Unit {0})
  verify_entries limits expected expected_metadata [] = err package_json_not_first
  verify_entries limits expected expected_metadata (first ∷ entries) = do
    refuse (not (first.name == codes "package.json")) package_json_not_first
    metadata ← parse_metadata limits first.body
    compare_metadata metadata expected_metadata
    refuse (not (eqb (length entries) (length metadata.files))) member_count_differs
    check_entries expected metadata.files entries

  unfoldable pub verify_package :
      PackageLimits → Bytes → Option PackageNode → BuildOptions → Result PackageError (Unit {0})
  verify_package limits package_path node expected = do
    refuse (package_path == [] || not (base package_path == package_file_name)) wrong_package_path
    expected_metadata ← wrap contract_invalid (metadata_for_options P limits expected)
    info ← or_fail node package_missing
    refuse (not info.is_regular || not (eqb info.mode mode_file)) not_a_regular_file
    refuse (eqb (length info.body) 0 || ltb limits.max_compressed_bytes (length info.body))
        compressed_limit
    archive ← or_fail (C.decompress limits.max_uncompressed_bytes info.body) not_decompressed
    refuse (ltb limits.max_uncompressed_bytes (length archive)) uncompressed_limit
    entries ← parse_archive limits (C.read_tar archive)
    canonical ← or_fail (C.write_tar entries) tar_not_written
    refuse (not (archive == canonical)) tar_not_canonical
    recompressed ← or_fail (C.compress canonical) not_compressed
    refuse (not (info.body == recompressed)) zstd_not_canonical
    verify_entries limits expected.files expected_metadata entries
