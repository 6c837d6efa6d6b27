-- ===== src/Release/Complete.antt =====
-- `validateCompleteSourceTree` (internal/repository/tree.go).
use unlock_catalog_publisher.Base.{
  ℕ, ◌+◌, Bool, false, not, ◌||◌, List, [], ◌∷◌, eqb, values, lookup, Result, ◌>>=◌, refuse,
  or_fail, ◌==◌,
}
use unlock_catalog_publisher.Release.Types.{
  Tree, TreeFile, kind_live_manifest, kind_live_root, kind_object, kind_manifest_archive,
  kind_root_archive, kind_package, ReleaseError, live_files_missing, incomplete,
}
use unlock_catalog_publisher.Release.Paths.{manifest_json, root_json}

-- The variables of the loop over the files.
pub record Tally : Type 0 where
  pub object_count : ℕ
  pub manifest_archive_count : ℕ
  pub root_archive_count : ℕ
  pub package_count : ℕ
  pub manifest_archived : Bool
  pub root_archived : Bool

abbrev pub nothing : Tally
nothing = record {
  object_count = 0;
  manifest_archive_count = 0;
  root_archive_count = 0;
  package_count = 0;
  manifest_archived = false;
  root_archived = false;
}

module _ (manifest root : TreeFile) where
  -- The `switch file.kind`.
  unfoldable pub tally_file : Tally → TreeFile → Tally
  tally_file t file = elim file.kind [
    | kind_live_manifest ↦ t
    | kind_live_root ↦ t
    | kind_object ↦ record t { object_count = t.object_count + 1 }
    | kind_manifest_archive ↦ record t {
      manifest_archive_count = t.manifest_archive_count + 1;
      manifest_archived = t.manifest_archived || file.body == manifest.body;
    }
    | kind_root_archive ↦ record t {
      root_archive_count = t.root_archive_count + 1;
      root_archived = t.root_archived || file.body == root.body;
    }
    | kind_package ↦ record t { package_count = t.package_count + 1 }
  ]

  unfoldable pub tally : Tally → List TreeFile → Tally
  tally t [] = t
  tally t (file ∷ files) = tally (tally_file t file) files

unfoldable pub validate_complete_source_tree : Tree → Result ReleaseError (Unit {0})
validate_complete_source_tree files = do
  manifest ← or_fail (lookup manifest_json files) live_files_missing
  root ← or_fail (lookup root_json files) live_files_missing
  let t = tally manifest root nothing (values files)
  refuse
      (eqb t.object_count 0
        || eqb t.manifest_archive_count 0
        || eqb t.root_archive_count 0
        || eqb t.package_count 0
        || not t.manifest_archived
        || not t.root_archived)
      incomplete
