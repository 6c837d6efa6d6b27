-- ===== src/Release/Diff.antt =====
-- `VerifyReleaseDiff` (internal/repository/tree.go): what was published stays as it is.
use unlock_catalog_publisher.Base.{
  true, not, ◌&&◌, ◌||◌, Bytes, Dict, none, some, eqb, lookup, Result, ◌>>=◌, refuse, or_fail, wrap,
  for_each, ◌==◌,
}
use unlock_catalog_publisher.Primitives.{Primitives}
use unlock_catalog_publisher.Release.Types.{
  Tree, TreeFile, immutable, ReleaseError, immutable_changed, source_deleted, base_repository,
  candidate_repository,
}
use unlock_catalog_publisher.Release.Disk.{
  Repository, validate_repository_root, read_repository_sources,
}

-- The inner loop.
unfoldable pub check_kept : Tree → Unit {0} → Bytes × TreeFile → Result ReleaseError (Unit {0})
check_kept candidate_files u (relative, base_file) =
    refuse
      (immutable base_file.kind && elim (lookup relative candidate_files) [
        | none ↦ true
        | some candidate_file ↦
            not (eqb candidate_file.mode base_file.mode)
            || not (candidate_file.body == base_file.body)
      ])
      immutable_changed

-- The outer loop.
unfoldable pub check_source : Dict Tree → Unit {0} → Bytes × Tree → Result ReleaseError (Unit {0})
unfolding check_kept
check_source candidate u (source_id, base_files) = do
  candidate_files ← or_fail (lookup source_id candidate) source_deleted
  for_each (check_kept candidate_files) tt base_files

-- Both loops.
unfoldable pub verify_sources : Dict Tree → Dict Tree → Result ReleaseError (Unit {0})
unfolding check_source
verify_sources base candidate = for_each (check_source candidate) tt base

module _ (P : Primitives) where
  unfoldable pub verify_release_diff :
      Bytes → Repository → Bytes → Repository → Result ReleaseError (Unit {0})
  verify_release_diff base_root base_repo candidate_root candidate_repo = do
    base_prefix ← wrap base_repository (validate_repository_root base_root base_repo)
    candidate_prefix ←
        wrap candidate_repository (validate_repository_root candidate_root candidate_repo)
    base ← wrap base_repository (read_repository_sources P base_prefix)
    candidate ← wrap candidate_repository (read_repository_sources P candidate_prefix)
    verify_sources base candidate
