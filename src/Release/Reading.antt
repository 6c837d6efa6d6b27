-- ===== src/Release/Reading.antt =====
-- What is read from disk, and what `MaterializeRelease` makes of it (internal/repository/tree.go).
use mathlib.Core.List.{Nodup-nil}
use unlock_catalog_publisher.Base.{
  ◌≡◌, refl, subst, Bool, true, [], Option, Nodup, keys, Bytes, none, some, arith, all, all-of_mem,
  ok, for_each, for_each-invariant, ok-injective, bind_elim, then_elim, refuse_elim, or_fail_elim,
}
use unlock_catalog_publisher.Base.Growth.{Nodup-keys-insert}
use unlock_catalog_publisher.Primitives.{Primitives}
use unlock_catalog_publisher.Release.Types.{Release, Tree}
use unlock_catalog_publisher.Release.Validate.{add_file, validate_release}
use unlock_catalog_publisher.Release.Disk.{
  Node, Item, folder, regular, special, directory, plain, odd, read_item, read_source_tree,
}
use unlock_catalog_publisher.Release.Materialize.{merge}
use unlock_catalog_publisher.Release.Diff.{check_kept}
use unlock_catalog_publisher.Release.Append.{
  classified, kept, classify-live, all-insert, kept_self, check_kept-all, merge-keeps,
}

read_item-classified :
    (P : Primitives) (files : Tree) (e : Bytes × Item) (t : Tree)
    → all classified files ≡ true
    → read_item P files e ≡ ok t
    → all classified t ≡ true
unfolding read_item
read_item-classified P files (relative, folder mode) t c h =
    refuse_elim _ _ _ h λ fine out. subst (λ r. all classified r ≡ true) (ok-injective out) c
read_item-classified P files (relative, regular mode body) t c h = refuse_elim _ _ _ h λ fine h₁.
    bind_elim _ _ h₁ λ kind classify out.
      subst (λ r. all classified r ≡ true) (ok-injective out)
        (all-insert classified relative _ files c
          (ground (arith, classify-live P relative body classify)))
read_item-classified P files (relative, special) t c h = absurd (cc)

pub read_source_tree-classified :
    (P : Primitives) (node : Option Node) {files : Tree} {exists : Bool}
    → read_source_tree P node ≡ ok (files, exists)
    → all classified files ≡ true
unfolding read_source_tree all
read_source_tree-classified P none h =
    subst (λ (r : Tree × Bool). all classified (r.0) ≡ true) (ok-injective h) refl
read_source_tree-classified P (some (directory mode items)) h = refuse_elim _ _ _ h λ fine h₁.
    bind_elim _ _ h₁ λ files loop out.
      subst (λ (r : Tree × Bool). all classified (r.0) ≡ true) (ok-injective out)
        (for_each-invariant (read_item P) (λ r. all classified r ≡ true)
          (λ r x u c e. read_item-classified P r x u c e) items [] refl loop)
read_source_tree-classified P (some plain) h = absurd (cc)
read_source_tree-classified P (some odd) h = absurd (cc)

pub validate_release-classified :
    (P : Primitives) (release : Release) {files : Tree}
    → validate_release P release ≡ ok files
    → all classified files ≡ true
unfolding validate_release add_file all
validate_release-classified P release h = refuse_elim _ _ _ h λ valid h₁.
    refuse_elim _ _ _ h₁ λ non_empty h₂. bind_elim _ _ h₂ λ files loop h₃.
      then_elim _ _ h₃ λ complete out.
        subst (λ r. all classified r ≡ true) (ok-injective out)
          (for_each-invariant (add_file P release.source_id) (λ r. all classified r ≡ true)
            (λ r x u c e. refuse_elim _ _ _ e λ safe e₁.
              or_fail_elim _ _ _ e₁ λ relative stripped e₂. bind_elim _ _ e₂ λ kind classify e₃.
                refuse_elim _ _ _ e₃ λ sized e₄. refuse_elim _ _ _ e₄ λ fresh done.
                  subst (λ r. all classified r ≡ true) (ok-injective done)
                    (all-insert classified relative _ r c
                      (ground (arith, classify-live P relative x.body classify))))
            release.files [] refl loop)

read_item-Nodup :
    (P : Primitives) (files : Tree) (e : Bytes × Item) (t : Tree)
    → Nodup (keys files)
    → read_item P files e ≡ ok t
    → Nodup (keys t)
unfolding read_item
read_item-Nodup P files (relative, folder mode) t n h =
    refuse_elim _ _ _ h λ fine out. subst (λ r. Nodup (keys r)) (ok-injective out) n
read_item-Nodup P files (relative, regular mode body) t n h = refuse_elim _ _ _ h λ fine h₁.
    bind_elim _ _ h₁ λ kind classify out.
      subst (λ r. Nodup (keys r)) (ok-injective out) (Nodup-keys-insert relative _ files n)
read_item-Nodup P files (relative, special) t n h = absurd (cc)

pub read_source_tree-Nodup :
    (P : Primitives) (node : Option Node) {files : Tree} {exists : Bool}
    → read_source_tree P node ≡ ok (files, exists)
    → Nodup (keys files)
unfolding read_source_tree
read_source_tree-Nodup P none h =
    subst (λ (r : Tree × Bool). Nodup (keys (r.0))) (ok-injective h) Nodup-nil
read_source_tree-Nodup P (some (directory mode items)) h = refuse_elim _ _ _ h λ fine h₁.
    bind_elim _ _ h₁ λ files loop out.
      subst (λ (r : Tree × Bool). Nodup (keys (r.0))) (ok-injective out)
        (for_each-invariant (read_item P) (λ r. Nodup (keys r))
          (λ r x u c e. read_item-Nodup P r x u c e) items [] Nodup-nil loop)
read_source_tree-Nodup P (some plain) h = absurd (cc)
read_source_tree-Nodup P (some odd) h = absurd (cc)

-- When a tree that was read and a release that was validated are merged without an error, the check
-- of `VerifyReleaseDiff` accepts the merged tree as a successor of the tree that was read.
pub check_kept-merge :
    (P : Primitives) (node : Option Node) (release : Release) {existing incoming merged : Tree}
    {exists : Bool}
    → read_source_tree P node ≡ ok (existing, exists)
    → validate_release P release ≡ ok incoming
    → merge existing incoming ≡ ok merged
    → for_each (check_kept merged) tt existing ≡ ok tt
unfolding merge
check_kept-merge P node release {existing} {incoming} {merged} h k m =
    let c = read_source_tree-classified P node h in
    let own =
      all-of_mem (kept existing) existing
        (λ e i. kept_self existing e (read_source_tree-Nodup P node h) i) in
    (check_kept-all merged existing).1
      (merge-keeps existing incoming existing c (validate_release-classified P release k) m own c).0
