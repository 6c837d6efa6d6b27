-- ===== src/Package/Paths.antt =====
-- `validateRepositoryMemberPath` (internal/package/package.go).
use unlock_catalog_publisher.Base.{
  ℕ, ◌+◌, Bool, true, false, not, ◌&&◌, ◌||◌, Bytes, none, some, codes, eqb, leb, ltb, length, map,
  any, Result, ok, err, ◌>>◌, refuse, ◌==◌, if◌then◌else◌,
}
use unlock_catalog_publisher.Base.Paths.{clean, is_abs}
use unlock_catalog_publisher.Policy.Artifact.{first_two}
use unlock_catalog_publisher.Release.Paths.{strip_prefix, object_match, manifest_json, root_json}
use unlock_catalog_publisher.Package.Types.{
  PackageLimits, PackageError, unsafe_package_path, outside_allowlist,
}

-- `strings.ToLower` of an ASCII string; the code calls it for paths that have been checked, which are
-- ASCII.
lower_byte : ℕ → ℕ
lower_byte c = if leb b'A' c && leb c b'Z' then c + 32 else c

unfoldable pub to_lower : Bytes → Bytes
unfolding lower_byte
to_lower = map lower_byte

-- `strings.HasPrefix(s, p)`
unfoldable pub has_prefix : Bytes → Bytes → Bool
has_prefix p s = elim (strip_prefix p s) [ none ↦ false | some rest ↦ true ]

-- `strings.TrimPrefix(s, p)`
unfoldable pub trim_prefix : Bytes → Bytes → Bytes
trim_prefix p s = elim (strip_prefix p s) [ none ↦ s | some rest ↦ rest ]

abbrev pub repository_prefix : Bytes
repository_prefix = codes "repository/"

unfoldable pub validate_repository_member_path :
    PackageLimits → Bytes → Result PackageError (Unit {0})
validate_repository_member_path limits name = do
  refuse
      (eqb (length name) 0
        || ltb limits.max_path_bytes (length name)
        || any (λ c. eqb c b'\\') name
        || is_abs name
        || not (clean name == name)
        || name == codes "."
        || has_prefix (codes "../") name
        || not (has_prefix repository_prefix name))
      unsafe_package_path
  let relative = trim_prefix repository_prefix name
  if relative == manifest_json || relative == root_json
      then ok tt
      else elim (object_match relative) [
        | none ↦ err outside_allowlist
        | some (fan, digest) ↦ refuse (not (fan == first_two digest)) outside_allowlist
      ]
