-- ===== src/Release/Changes.antt =====
-- `ValidateReleaseChangePaths` (internal/repository/tree.go): a change touches releases or other
-- files, never both.
use unlock_catalog_publisher.Base.{
  Bool, true, false, not, ◌||◌, List, [], ◌∷◌, ◌++◌, Bytes, Option, none, some, eqb, Result, ok,
  err, ◌>>=◌, ◌>>◌, refuse, for_each, if◌then◌else◌,
}
use unlock_catalog_publisher.Base.Patterns.{id_pattern}
use unlock_catalog_publisher.Base.Sort.{sort_by}
use unlock_catalog_publisher.Release.Types.{
  release_prefix, ReleaseError, unsafe_changed_path, not_a_release_path, non_release_path,
}
use unlock_catalog_publisher.Release.Paths.{is_unsafe, strip_prefix, valid_release_path_shape}

-- What stands before and after the first `/`, if there is one after the first byte.
cut_from : Bytes → Bytes → Option (Bytes × Bytes)
cut_from before [] = none
cut_from before (c ∷ s) = elim (eqb c b'/') [
  | true ↦ some (before, s)
  | false ↦ cut_from (before ++ c ∷ []) s
]

-- `separator := strings.IndexByte(remainder, '/')`, and the two parts when it is not below 1.
unfoldable pub cut_slash : Bytes → Option (Bytes × Bytes)
unfolding cut_from
cut_slash [] = none
cut_slash (c ∷ s) = if eqb c b'/' then none else cut_from (c ∷ []) s

-- The source ID and the path in its tree.
unfoldable pub release_path : Bytes → Option (Bytes × Bytes)
unfolding cut_slash
release_path changed_path = elim (strip_prefix (release_prefix ++ b'/' ∷ []) changed_path) [
  | none ↦ none
  | some remainder ↦ cut_slash remainder
]

-- The body of the loop; it writes `releaseChanged` and `nonRelease`.
unfoldable pub add_change : Bool × List Bytes → Bytes → Result ReleaseError (Bool × List Bytes)
add_change (release_changed, non_release) changed_path = do
  refuse (is_unsafe changed_path) unsafe_changed_path
  elim (release_path changed_path) [
    | none ↦ ok (release_changed, non_release ++ changed_path ∷ [])
    | some (source_id, relative) ↦ do
      refuse (not (id_pattern source_id) || not (valid_release_path_shape relative))
          not_a_release_path
      ok (true, non_release)
  ]

-- The check after the loop, on the sorted paths.
unfoldable pub settle : Bool → List Bytes → Result ReleaseError Bool
settle release_changed [] = ok release_changed
settle release_changed (first ∷ _) =
    if release_changed then err (non_release_path first) else ok release_changed

unfoldable pub validate_release_change_paths : List Bytes → Result ReleaseError Bool
validate_release_change_paths changed = do
  (release_changed, non_release) ← for_each add_change (false, []) changed
  settle release_changed (sort_by (λ p. p) non_release)
