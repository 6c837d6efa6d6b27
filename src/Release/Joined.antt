-- ===== src/Release/Joined.antt =====
-- The paths of a source joined to its ID (`path.Join`): nothing is cleaned away, so that they stay apart.
use unlock_catalog_publisher.Base.{
  ◌≡◌, refl, subst, Bool, true, not, ◌&&◌, ◌||◌, [], ◌∷◌, ◌++◌, Bytes, Dict, Option, none, some,
  codes, arith, all, all-mem, all-of_mem, insert, ok, ok-injective, for_each-invariant, refuse,
  refuse_elim, bind_elim, then_elim, ◌>>=◌, ◌>>◌, ◌==◌, ==_iff, Bool-cases, inl, inr,
}
use unlock_catalog_publisher.Base.Patterns.{id_pattern, id_pattern-is_name}
use unlock_catalog_publisher.Base.Paths.{join, join_path}
use unlock_catalog_publisher.Base.Paths.Split.{is_name}
use unlock_catalog_publisher.Base.Paths.Dir.{clean-join}
use unlock_catalog_publisher.Primitives.{Primitives}
use unlock_catalog_publisher.Release.Types.{Tree, TreeFile, unexpected_entry}
use unlock_catalog_publisher.Release.Paths.{valid_release_path_shape}
use unlock_catalog_publisher.Release.Complete.{validate_complete_source_tree}
use unlock_catalog_publisher.Release.Disk.{
  Node, Item, folder, regular, special, directory, plain, odd, is_plain, is_directory, read_item,
  read_source_tree, read_entry, read_repository_sources,
}
use unlock_catalog_publisher.Release.Append.{all-insert}
use unlock_catalog_publisher.Release.Addressed.{classify_release_path-shape}
use unlock_catalog_publisher.Release.Shapes.{IsNamed, valid_release_path_shape-IsNamed}

-- The path below the ID.
abbrev pub plain_path : Bytes → Bytes × TreeFile → Bool
plain_path source_id (path, file) = join_path source_id path == source_id ++ b'/' ∷ path

abbrev pub joins : Bytes × Tree → Bool
joins (source_id, files) = is_name source_id && all (plain_path source_id) files

abbrev shaped : Bytes × TreeFile → Bool
shaped (path, file) = valid_release_path_shape path

join_path-plain :
    (id path : Bytes) → is_name id ≡ true → IsNamed path → join_path id path ≡ id ++ b'/' ∷ path
unfolding join_path IsNamed join all ◌==◌
join_path-plain [] path h named = absurd (cc)
join_path-plain (c ∷ s) path h (p, ps, whole, names) =
    rw whole (clean-join (c ∷ s) (p ∷ ps) (ground (arith, h, names)))

shaped-plain :
    (id : Bytes) (files : Tree)
    → is_name id ≡ true
    → all shaped files ≡ true
    → all (plain_path id) files ≡ true
shaped-plain id files n h = all-of_mem (plain_path id) files λ (path, file) i.
    let shape : valid_release_path_shape path ≡ true = all-mem shaped files h (path, file) i in
    (==_iff (join_path id path) (id ++ b'/' ∷ path)).1
      (join_path-plain id path n (valid_release_path_shape-IsNamed path shape))

module _ (P : Primitives) where
  read_item-shaped :
      (files : Tree) (e : Bytes × Item) (t : Tree)
      → all shaped files ≡ true
      → read_item P files e ≡ ok t
      → all shaped t ≡ true
  unfolding read_item
  read_item-shaped files (relative, folder mode) t c h =
      refuse_elim _ _ _ h λ fine out. subst (λ r. all shaped r ≡ true) (ok-injective out) c
  read_item-shaped files (relative, regular mode body) t c h = refuse_elim _ _ _ h λ fine h₁.
      bind_elim _ _ h₁ λ kind classify out.
        subst (λ r. all shaped r ≡ true) (ok-injective out)
          (all-insert shaped relative _ files c
            (classify_release_path-shape P relative body classify).0)
  read_item-shaped files (relative, special) t c h = absurd (cc)

  read_source_tree-shaped :
      (node : Node) {files : Tree} {exists : Bool}
      → read_source_tree P (some node) ≡ ok (files, exists)
      → all shaped files ≡ true
  unfolding read_source_tree all
  read_source_tree-shaped (directory mode items) h = refuse_elim _ _ _ h λ fine h₁.
      bind_elim _ _ h₁ λ files loop out.
        subst (λ (r : Tree × Bool). all shaped (r.0) ≡ true) (ok-injective out)
          (for_each-invariant (read_item P) (λ r. all shaped r ≡ true)
            (λ r x u c e. read_item-shaped r x u c e) items [] refl loop)
  read_source_tree-shaped plain h = absurd (cc)
  read_source_tree-shaped odd h = absurd (cc)

  read_directory-joins :
      (result : Dict Tree) (name : Bytes) (node : Node) (next : Dict Tree)
      → all joins result ≡ true
      → (do
        refuse (not (is_directory node) || not (id_pattern name)) unexpected_entry
        (files, _) ← read_source_tree P (some node)
        validate_complete_source_tree files
        ok (insert name files result))
        ≡ ok next
      → all joins next ≡ true
  read_directory-joins result name node next n h = refuse_elim _ _ _ h λ fine h₁.
      bind_elim _ _ h₁ λ (files, exists) read h₂. then_elim _ _ h₂ λ complete out.
        let fits : id_pattern name ≡ true = ground (arith, fine) in
        let named = id_pattern-is_name name fits in
        let plainly = shaped-plain name files named (read_source_tree-shaped node read) in
        subst (λ d. all joins d ≡ true) (ok-injective out)
          (all-insert joins name files result n (ground (arith, named, plainly)))

  read_entry-joins :
      (result : Dict Tree) (entry : Bytes × Node) (next : Dict Tree)
      → all joins result ≡ true
      → read_entry P result entry ≡ ok next
      → all joins next ≡ true
  unfolding read_entry
  read_entry-joins result (name, node) next n h =
      elim (Bool-cases (name == codes "README.md" && is_plain node)) [
        | inl s ↦
            let same : result ≡ next = ground (arith, s, h) in
            subst (λ d. all joins d ≡ true) same n
        | inr s ↦ read_directory-joins result name node next n (ground (arith, s, h))
      ]

  -- Each source that is read has an ID and files whose paths join plainly.
  pub read_repository_sources-joins :
      (prefix : Option (Dict Node)) {sources : Dict Tree}
      → read_repository_sources P prefix ≡ ok sources
      → all joins sources ≡ true
  unfolding read_repository_sources all
  read_repository_sources-joins none h = subst (λ d. all joins d ≡ true) (ok-injective h) refl
  read_repository_sources-joins (some entries) h =
      for_each-invariant (read_entry P) (λ d. all joins d ≡ true)
        (λ r e t i c. read_entry-joins r e t i c) entries [] refl h
