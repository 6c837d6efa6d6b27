-- ===== src/Mirror/Public.antt =====
-- `VerifyPublicMirror` of two directories (internal/repository/mirror.go), with what
-- `readRepositorySources` returns.
use mathlib.Core.List.{Nodup-nil}
use unlock_catalog_publisher.Base.{
  ◌≡◌, refl, subst, Bool, true, all, Nodup, Bytes, Dict, Option, none, some, [], keys, not, ◌&&◌,
  ◌||◌, codes, ◌==◌, Bool-cases, inl, inr, ok, ok-injective, bind_elim, refuse_elim, then_elim,
  wrap_elim, for_each-invariant, refuse, insert, ◌>>=◌, ◌>>◌, arith,
}
use unlock_catalog_publisher.Base.Distinct.{distinct, distinct_iff}
use unlock_catalog_publisher.Base.Growth.{Nodup-keys-insert}
use unlock_catalog_publisher.Base.Patterns.{id_pattern}
use unlock_catalog_publisher.Primitives.{Primitives}
use unlock_catalog_publisher.Release.Types.{Tree, unexpected_entry}
use unlock_catalog_publisher.Release.Disk.{
  Node, is_plain, is_directory, read_source_tree, read_entry, read_repository_sources,
}
use unlock_catalog_publisher.Release.Complete.{validate_complete_source_tree}
use unlock_catalog_publisher.Release.Append.{all-insert}
use unlock_catalog_publisher.Release.Reading.{read_source_tree-Nodup}
use unlock_catalog_publisher.Mirror.Compare.{
  verify_public_mirror, protected_unreadable, mirror_unreadable,
}
use unlock_catalog_publisher.Mirror.Exact.{tree_distinct, compare_mirror_trees_symm}

-- The sources, and the files of each, have distinct names.
abbrev pub Distinguished : Dict Tree → Type 0
Distinguished sources = Nodup (keys sources) × (all tree_distinct sources ≡ true)

module _ (P : Primitives) where
  -- The part of `read_entry` for a directory.
  read_directory-Distinguished :
      (result : Dict Tree) (name : Bytes) (node : Node) (bad : Bool) (next : Dict Tree)
      → Distinguished result
      → (do
        refuse bad unexpected_entry
        (files, _) ← read_source_tree P (some node)
        validate_complete_source_tree files
        ok (insert name files result))
        ≡ ok next
      → Distinguished next
  read_directory-Distinguished result name node bad next (n, d) h =
      refuse_elim bad unexpected_entry _ h λ fine h₁. bind_elim _ _ h₁ λ (files, exists) read h₂.
        then_elim _ _ h₂ λ complete out.
          let named : distinct (keys files) ≡ true =
            (distinct_iff (keys files)).1 (read_source_tree-Nodup P (some node) read) in
          subst Distinguished (ok-injective out) (
            Nodup-keys-insert name files result n,
            all-insert tree_distinct name files result d named,
          )

  read_entry-Distinguished :
      (result : Dict Tree) (entry : Bytes × Node) (next : Dict Tree)
      → Distinguished result
      → read_entry P result entry ≡ ok next
      → Distinguished next
  unfolding read_entry
  read_entry-Distinguished result (name, node) next (n, d) h =
      elim (Bool-cases (name == codes "README.md" && is_plain node)) [
        | inl s ↦ let same : result ≡ next = ground (arith, s, h) in subst Distinguished same (n, d)
        | inr s ↦
            read_directory-Distinguished result name node
              (not (is_directory node) || not (id_pattern name)) next (n, d) (ground (arith, s, h))
      ]

  pub read_repository_sources-Distinguished :
      (prefix : Option (Dict Node)) {sources : Dict Tree}
      → read_repository_sources P prefix ≡ ok sources
      → Distinguished sources
  unfolding read_repository_sources all
  read_repository_sources-Distinguished none h =
      subst Distinguished (ok-injective h) (Nodup-nil, refl)
  read_repository_sources-Distinguished (some entries) h =
      for_each-invariant (read_entry P) Distinguished
        (λ r e t i c. read_entry-Distinguished r e t i c) entries [] (Nodup-nil, refl) h

  -- When the protected prefix and the mirror's prefix are accepted as equal, so they are with their roles
  -- exchanged.
  pub verify_public_mirror_symm :
      (protected_prefix mirror_prefix : Option (Dict Node))
      → verify_public_mirror P protected_prefix mirror_prefix ≡ ok tt
      → verify_public_mirror P mirror_prefix protected_prefix ≡ ok tt
  unfolding verify_public_mirror ◌>>=◌
  verify_public_mirror_symm protected_prefix mirror_prefix h =
      wrap_elim protected_unreadable (read_repository_sources P protected_prefix) _ h
        λ sources s h₁.
          wrap_elim mirror_unreadable (read_repository_sources P mirror_prefix) _ h₁
            λ mirror m compared.
              let (ns, ds) = read_repository_sources-Distinguished protected_prefix s in
              let (nm, dm) = read_repository_sources-Distinguished mirror_prefix m in
              let back = compare_mirror_trees_symm sources mirror ns nm ds dm compared in
              rw (m, s) back
