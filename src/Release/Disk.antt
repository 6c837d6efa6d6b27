-- ===== src/Release/Disk.antt =====
-- The reading and writing of trees on disk (internal/repository/tree.go). A directory is what
-- `filepath.WalkDir` lists of it, by relative path. Calls that fail for reasons of the operating
-- system, such as a lack of space, are left out here.
use unlock_catalog_publisher.Base.{
  ℕ, Bool, true, false, not, ◌&&◌, ◌||◌, List, [], ◌∷◌, ◌++◌, Bytes, Dict, Option, none, some,
  codes, eqb, lookup, insert, Result, ok, err, ◌>>=◌, ◌>>◌, refuse, for_each, ◌==◌, if◌then◌else◌,
}
use unlock_catalog_publisher.Base.Patterns.{id_pattern}
use unlock_catalog_publisher.Base.Sort.{sort_by}
use unlock_catalog_publisher.Primitives.{Primitives}
use unlock_catalog_publisher.Release.Types.{
  Tree, TreeFile, mode_file, mode_directory, ReleaseError, source_mode_differs,
  directory_mode_differs, unsafe_file, unexpected_entry, not_a_directory, root_required,
  root_missing, root_not_a_directory,
}
use unlock_catalog_publisher.Release.Paths.{classify_release_path}
use unlock_catalog_publisher.Release.Complete.{validate_complete_source_tree}

-- What a walk finds below a directory; a symbolic link, a device and the like are special.
pub data Item : Type 0 where
  folder : ℕ → Item
  regular : ℕ → Bytes → Item
  special : Item

-- An entry of the release prefix.
pub data Node : Type 0 where
  directory : ℕ → Dict Item → Node
  plain : Node
  odd : Node

-- `entry.Type().IsRegular()` and `entry.IsDir()`
abbrev pub is_plain : Node → Bool
is_plain node = elim node [ directory _ _ ↦ false | plain ↦ true | odd ↦ false ]

abbrev pub is_directory : Node → Bool
is_directory node = elim node [ directory _ _ ↦ true | plain ↦ false | odd ↦ false ]

-- `prefix` is `catalog/sources`, if that directory is there.
pub data Repository : Type 0 where
  absent : Repository
  not_a_folder : Repository
  repository : Option (Dict Node) → Repository

-- `validateRepositoryRoot`, with the release prefix.
unfoldable pub validate_repository_root :
    Bytes → Repository → Result ReleaseError (Option (Dict Node))
validate_repository_root root r = do
  refuse (root == []) root_required
  elim r [
    | absent ↦ err root_missing
    | not_a_folder ↦ err root_not_a_directory
    | repository prefix ↦ ok prefix
  ]

module _ (P : Primitives) where
  -- The function that `readSourceTree` gives to `WalkDir`; it writes `files`.
  unfoldable pub read_item : Tree → Bytes × Item → Result ReleaseError Tree
  read_item files (relative, folder mode) = do
    refuse (not (eqb mode mode_directory)) directory_mode_differs
    ok files
  read_item files (relative, regular mode body) = do
    refuse (not (eqb mode mode_file)) unsafe_file
    kind ← classify_release_path P relative body
    ok (insert relative (record { body = body; mode = mode; kind = kind }) files)
  read_item files (relative, special) = err unsafe_file

  -- The tree, and whether it exists.
  unfoldable pub read_source_tree : Option Node → Result ReleaseError (Tree × Bool)
  read_source_tree none = ok ([], false)
  read_source_tree (some (directory mode items)) = do
    refuse (not (eqb mode mode_directory)) source_mode_differs
    files ← for_each read_item [] items
    ok (files, true)
  read_source_tree (some _) = err source_mode_differs

  -- The loop of `readRepositorySources`; it writes `result`.
  unfoldable pub read_entry : Dict Tree → Bytes × Node → Result ReleaseError (Dict Tree)
  read_entry result (name, node) =
      if name == codes "README.md" && is_plain node then ok result else do
        refuse (not (is_directory node) || not (id_pattern name)) unexpected_entry
        (files, _) ← read_source_tree (some node)
        validate_complete_source_tree files
        ok (insert name files result)

  unfoldable pub read_repository_sources : Option (Dict Node) → Result ReleaseError (Dict Tree)
  read_repository_sources none = ok []
  read_repository_sources (some entries) = for_each read_entry [] entries

-- The directories above a path, the outermost first, relative to the root: those that
-- `MkdirAll` makes.
parents : Bytes → Bytes → List Bytes
parents above [] = []
parents above (c ∷ s) = elim (eqb c b'/') [
  | true ↦ above ∷ parents (above ++ c ∷ []) s
  | false ↦ parents (above ++ c ∷ []) s
]

-- `MkdirAll` of one directory, whose parents are there.
unfoldable pub make_directory : Dict Item → Bytes → Result ReleaseError (Dict Item)
make_directory items path = elim (lookup path items) [
  | none ↦ ok (insert path (folder mode_directory) items)
  | some (folder mode) ↦ ok items
  | some (regular _ _) ↦ err not_a_directory
  | some special ↦ err not_a_directory
]

unfoldable pub write_file : Dict Item → Bytes × TreeFile → Result ReleaseError (Dict Item)
unfolding parents make_directory
write_file items (relative, file) = do
  made ← for_each make_directory items (parents [] relative)
  ok (insert relative (regular mode_file file.body) made)

-- `writeSourceTree` into an empty directory.
unfoldable pub write_source_tree : Tree → Result ReleaseError (Dict Item)
unfolding write_file
write_source_tree files = for_each write_file [] (sort_by (λ e. e.0) files)
