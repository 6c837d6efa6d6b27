-- ===== src/Release/Paths.antt =====
-- The paths of a release (internal/repository/tree.go): their patterns, `classifyReleasePath` and
-- `validReleasePathShape`.
use unlock_catalog_publisher.Base.{
  ℕ, zero, suc, Bool, true, false, not, ◌&&◌, ◌||◌, [], ◌∷◌, Bytes, Option, none, some, codes, eqb,
  any, Result, ok, err, ◌==◌, if◌then◌else◌,
}
use unlock_catalog_publisher.Base.Patterns.{is_hex, is_digit, digest_pattern}
use unlock_catalog_publisher.Base.Paths.{clean, is_abs}
use unlock_catalog_publisher.Primitives.{Primitives, digest_bytes}
use unlock_catalog_publisher.Policy.Artifact.{first_two}
use unlock_catalog_publisher.Release.Types.{
  FileKind, kind_live_manifest, kind_live_root, kind_object, kind_manifest_archive,
  kind_root_archive, kind_package, ReleaseError, object_digest_differs, unknown_path,
}

-- `strings.HasPrefix` and `strings.TrimPrefix`: what follows the prefix.
unfoldable pub strip_prefix : Bytes → Bytes → Option Bytes
strip_prefix [] s = some s
strip_prefix (a ∷ p) [] = none
strip_prefix (a ∷ p) (b ∷ s) = elim (eqb a b) [ true ↦ strip_prefix p s | false ↦ none ]

-- `n` bytes that satisfy the test, and what follows them.
unfoldable pub strip_run : ℕ → (ℕ → Bool) → Bytes → Option Bytes
strip_run zero test s = some s
strip_run (suc n) test [] = none
strip_run (suc n) test (c ∷ s) = elim (test c) [ true ↦ strip_run n test s | false ↦ none ]

abbrev pub then_strip : Option Bytes → (Bytes → Option Bytes) → Option Bytes
then_strip none next = none
then_strip (some s) next = next s

-- `^<start>[0-9]{20}/[0-9a-f]{64}<tail>$`
unfoldable pub versioned : Bytes → Bytes → Bytes → Bool
unfolding strip_prefix strip_run is_digit
versioned start tail s =
    elim (then_strip
      (then_strip (then_strip (strip_prefix start s) (strip_run 20 is_digit))
        (strip_prefix (codes "/")))
      (strip_run 64 is_hex)) [ none ↦ false | some rest ↦ rest == tail ]

-- `objectPathPattern`, with its two groups.
unfoldable pub object_match : Bytes → Option (Bytes × Bytes)
object_match s = elim (strip_prefix (codes "objects/sha256/") s) [
  | none ↦ none
  | some [] ↦ none
  | some (a ∷ []) ↦ none
  | some (a ∷ b ∷ []) ↦ none
  | some (a ∷ b ∷ c ∷ digest) ↦
      if is_hex a && is_hex b && eqb c b'/' && digest_pattern digest
      then some (a ∷ b ∷ [], digest)
      else none
]

unfoldable pub archive_path : Bytes → Bool
unfolding versioned
archive_path = versioned (codes "archive/") (codes "/manifest.json")

unfoldable pub root_path : Bytes → Bool
unfolding versioned
root_path = versioned (codes "roots/") (codes "/root.json")

unfoldable pub package_path : Bytes → Bool
unfolding versioned
package_path = versioned (codes "packages/") (codes "/unlock-catalog-package-v1.tar.zst")

abbrev pub manifest_json : Bytes
manifest_json = codes "manifest.json"

abbrev pub root_json : Bytes
root_json = codes "root.json"

-- `value == "" || path.IsAbs(value) || path.Clean(value) != value || strings.Contains(value, "\\")`
unfoldable pub is_unsafe : Bytes → Bool
is_unsafe value =
    value == [] || is_abs value || not (clean value == value) || any (λ c. eqb c b'\\') value

module _ (P : Primitives) where
  unfoldable pub classify_release_path : Bytes → Bytes → Result ReleaseError FileKind
  classify_release_path relative body =
      if relative == manifest_json
      then ok kind_live_manifest
      else if relative == root_json
      then ok kind_live_root
      else elim (object_match relative) [
        | some (fan, named) ↦
            let digest = digest_bytes P body in
            if not (fan == first_two digest) || not (named == digest)
            then err object_digest_differs
            else ok kind_object
        | none ↦
            if archive_path relative
            then ok kind_manifest_archive
            else if root_path relative
            then ok kind_root_archive
            else if package_path relative
            then ok kind_package
            else err unknown_path
      ]

unfoldable pub valid_release_path_shape : Bytes → Bool
valid_release_path_shape relative =
    if relative == manifest_json || relative == root_json
    then true
    else elim (object_match relative) [ none ↦ false | some found ↦ true ]
      || archive_path relative
      || root_path relative
      || package_path relative
