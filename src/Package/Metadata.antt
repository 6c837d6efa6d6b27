-- ===== src/Package/Metadata.antt =====
-- `validateMetadata`, `metadataForOptions` and `compareMetadata` (internal/package/package.go).
use unlock_catalog_publisher.Base.{
  ℕ, ◌+◌, Bool, true, false, not, ◌&&◌, ◌||◌, List, [], ◌∷◌, ◌++◌, Bytes, Dict, Option, none, some,
  codes, eqb, ltb, length, contains, lookup, has_key, less, Result, ok, ◌>>=◌, ◌>>◌, refuse,
  or_fail, for_each, ◌==◌, if◌then◌else◌,
}
use unlock_catalog_publisher.Base.Int.{pos, int_le, int_eq}
use unlock_catalog_publisher.Base.Patterns.{id_pattern, digest_pattern}
use unlock_catalog_publisher.Base.Sort.{sort_by}
use unlock_catalog_publisher.Primitives.{Primitives, digest_bytes}
use unlock_catalog_publisher.Release.Paths.{object_match, manifest_json, root_json}
use unlock_catalog_publisher.Package.Types.{
  PackageFile, PackageMetadata, BuildOptions, PackageLimits, PackageError, package_format,
  invalid_source_id, invalid_manifest_digest, root_version_not_positive, invalid_member_count,
  case_collision, invalid_length, object_digest_differs, manifest_missing, envelope_digest_differs,
  root_missing, identity_invalid, root_version_invalid, file_count_invalid, not_sorted,
  repeated_file, integrity_invalid, metadata_incomplete, identity_differs, file_table_differs,
}
use unlock_catalog_publisher.Package.Paths.{
  to_lower, trim_prefix, repository_prefix, validate_repository_member_path,
}

-- `version != nil && *version == 0`
abbrev pub is_zero_version : Option ℕ → Bool
is_zero_version none = false
is_zero_version (some version) = eqb version 0

-- `equalUint64`
unfoldable pub equal_uint64 : Option ℕ → Option ℕ → Bool
equal_uint64 none none = true
equal_uint64 none (some right) = false
equal_uint64 (some left) none = false
equal_uint64 (some left) (some right) = eqb left right

-- `match != nil && match[2] != digest`
unfoldable pub object_differs : Bytes → Bytes → Bool
object_differs relative digest = elim (object_match relative) [
  | none ↦ false
  | some (fan, named) ↦ not (named == digest)
]

-- The variables of the loop in `validateMetadata`.
pub record TableScan : Type 0 where
  pub seen : List Bytes
  pub seen_case : List Bytes
  pub manifest_count : ℕ
  pub root_count : ℕ
  pub prior : Bytes

unfoldable pub check_file :
    PackageLimits → Bytes → TableScan → PackageFile → Result PackageError TableScan
check_file limits envelope scan file = do
  validate_repository_member_path limits file.path
  refuse (not (scan.prior == []) && not (less scan.prior file.path)) not_sorted
  refuse (contains file.path scan.seen) repeated_file
  refuse (contains (to_lower file.path) scan.seen_case) case_collision
  refuse (int_le file.length (pos 0) || not (digest_pattern file.sha256)) integrity_invalid
  refuse (object_differs (trim_prefix repository_prefix file.path) file.sha256)
      object_digest_differs
  let is_manifest = file.path == codes "repository/manifest.json"
  refuse (is_manifest && not (file.sha256 == envelope)) envelope_digest_differs
  ok (record {
    seen = file.path ∷ scan.seen;
    seen_case = to_lower file.path ∷ scan.seen_case;
    manifest_count = (if is_manifest then scan.manifest_count + 1 else scan.manifest_count);
    root_count =
        (if file.path == codes "repository/root.json"
          then scan.root_count + 1
          else scan.root_count);
    prior = file.path;
  })

unfoldable pub validate_metadata : PackageLimits → PackageMetadata → Result PackageError (Unit {0})
validate_metadata limits metadata = do
  refuse
      (not (metadata.format == package_format)
        || not (id_pattern metadata.source_id)
        || not (digest_pattern metadata.manifest_digest)
        || not (digest_pattern metadata.manifest_envelope_sha256))
      identity_invalid
  refuse (is_zero_version metadata.root_version) root_version_invalid
  refuse (eqb (length metadata.files) 0 || ltb limits.max_members (length metadata.files + 1))
      file_count_invalid
  scan ←
      for_each (check_file limits metadata.manifest_envelope_sha256)
        (record { seen = []; seen_case = []; manifest_count = 0; root_count = 0; prior = [] })
        metadata.files
  refuse
      (not (eqb scan.manifest_count 1)
        || ltb 1 scan.root_count
        || elim metadata.root_version [ none ↦ false | some _ ↦ not (eqb scan.root_count 1) ])
      metadata_incomplete

-- `options.Files[name]` for the names of `sortedNames`.
abbrev pub sorted_files : Dict Bytes → Dict Bytes
sorted_files = sort_by (λ e. e.0)

-- `memberLimit`
abbrev pub member_limit : PackageLimits → Bytes → ℕ
member_limit limits relative =
    if relative == manifest_json || relative == root_json
    then limits.max_manifest_bytes
    else limits.max_artifact_bytes

module _ (P : Primitives) where
  -- The loop of `metadataForOptions`; it writes `seenCase` and `metadata.Files`.
  unfoldable pub add_member :
      PackageLimits
      → List Bytes × List PackageFile
      → Bytes × Bytes
      → Result PackageError (List Bytes × List PackageFile)
  add_member limits (seen_case, files) (relative, content) = do
    let member = repository_prefix ++ relative
    validate_repository_member_path limits member
    refuse (contains (to_lower member) seen_case) case_collision
    refuse (eqb (length content) 0 || ltb (member_limit limits relative) (length content))
        invalid_length
    let content_digest = digest_bytes P content
    refuse (object_differs relative content_digest) object_digest_differs
    ok (
      to_lower member ∷ seen_case,
      files
          ++ record { path = member; length = pos (length content); sha256 = content_digest } ∷ [],
    )

  unfoldable pub metadata_for_options :
      PackageLimits → BuildOptions → Result PackageError PackageMetadata
  metadata_for_options limits options = do
    refuse (not (id_pattern options.source_id)) invalid_source_id
    refuse
        (not (digest_pattern options.manifest_digest)
          || not (digest_pattern options.manifest_envelope_sha256))
        invalid_manifest_digest
    refuse (is_zero_version options.root_version) root_version_not_positive
    refuse (eqb (length options.files) 0 || ltb limits.max_members (length options.files + 1))
        invalid_member_count
    (_, files) ← for_each (add_member limits) ([], []) (sorted_files options.files)
    manifest ← or_fail (lookup manifest_json options.files) manifest_missing
    refuse (not (digest_bytes P manifest == options.manifest_envelope_sha256))
        envelope_digest_differs
    refuse
        (not (has_key root_json options.files)
          && elim options.root_version [ none ↦ false | some _ ↦ true ])
        root_missing
    let metadata : PackageMetadata = record {
      format = package_format;
      source_id = options.source_id;
      manifest_digest = options.manifest_digest;
      manifest_envelope_sha256 = options.manifest_envelope_sha256;
      root_version = options.root_version;
      files = files;
    }
    validate_metadata limits metadata
    ok metadata

-- `got.Files[index] != want.Files[index]`, negated.
unfoldable pub same_package_file : PackageFile → PackageFile → Bool
same_package_file got want =
    got.path == want.path && int_eq got.length want.length && got.sha256 == want.sha256

-- The loop of `compareMetadata`, on tables of one length.
unfoldable pub compare_files : List PackageFile → List PackageFile → Result PackageError (Unit {0})
compare_files (got ∷ gots) (want ∷ wants) = do
  refuse (not (same_package_file got want)) file_table_differs
  compare_files gots wants
compare_files _ _ = ok tt

unfoldable pub compare_metadata : PackageMetadata → PackageMetadata → Result PackageError (Unit {0})
compare_metadata got want = do
  refuse
      (not (got.format == want.format)
        || not (got.source_id == want.source_id)
        || not (got.manifest_digest == want.manifest_digest)
        || not (got.manifest_envelope_sha256 == want.manifest_envelope_sha256)
        || not (equal_uint64 got.root_version want.root_version)
        || not (eqb (length got.files) (length want.files)))
      identity_differs
  compare_files got.files want.files
