-- ===== src/Base/Items.antt =====
-- What `filepath.WalkDir` and `Lstat` meet below a directory: the entries of a tree, in the order in which
-- they are visited, by their path from the root with slashes.
use unlock_catalog_publisher.Base.{ℕ, List, [], ◌∷◌, Bytes, Dict}

-- A folder and a regular file come with their permission bits; a special file is a pipe, a socket or a device.
pub data Item : Type 0 where
  symlink : Item
  folder : ℕ → Item
  plain : ℕ → Bytes → Item
  special : Item

-- The paths of what is neither a link nor a folder.
abbrev pub file_paths : Dict Item → List Bytes
file_paths [] = []
file_paths ((relative, symlink) ∷ items) = file_paths items
file_paths ((relative, folder mode) ∷ items) = file_paths items
file_paths ((relative, plain mode content) ∷ items) = relative ∷ file_paths items
file_paths ((relative, special) ∷ items) = relative ∷ file_paths items
