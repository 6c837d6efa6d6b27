-- ===== src/Mirror/Tests.antt =====
-- A mirror of two sources, and replacements of a mirror in which a call fails.
use unlock_catalog_publisher.Base.{
  ℕ, ◌≡◌, refl, Bool, true, false, ◌∷◌, [], Dict, ok, none, some, codes, ◌⊎◌, ◌==◌, insert, any,
  lookup, Option, for_each, ◌>>=◌, ◌>>◌, err, all, contains,
}
use unlock_catalog_publisher.Base.Patterns.{id_pattern}
use unlock_catalog_publisher.Base.Distinct.{distinct, distinct_from, distinct_iff}
use unlock_catalog_publisher.Policy.Artifact.{object_path}
use unlock_catalog_publisher.Release.Types.{
  Tree, TreeFile, kind_live_manifest, kind_object, immutable,
}
use unlock_catalog_publisher.Release.Replace.{is_error, remains, missing, holds}
use unlock_catalog_publisher.Release.Tests.{toy, demo, node, tree_read}
use unlock_catalog_publisher.Release.Disk.{Node, plain, read_entry, read_repository_sources}
use unlock_catalog_publisher.Release.Complete.{tally, tally_file, validate_complete_source_tree}
use unlock_catalog_publisher.Mirror.Public.{verify_public_mirror_symm}
use unlock_catalog_publisher.Mirror.Compare.{
  verify_public_mirror, same_file, compare_file, compare_source, compare_mirror_trees, ensure_file,
  ensure_source, ensure_mirror_immutables_unchanged, mirror_immutable_changed, file_differs,
}
use unlock_catalog_publisher.Mirror.Install.{
  MirrorCall, restore_prior, install_staged, install_mirror_prefix, install_mirror_prefix-IsAtomic,
  restoration_fails, remove_failed, rollback_failed,
}
use unlock_catalog_publisher.Mirror.Exact.{ensure_mirror_immutables_unchanged-compared}

abbrev live : TreeFile
live = record { body = codes "live"; mode = 420; kind = kind_live_manifest }

abbrev stored : ℕ → TreeFile
stored c = record { body = c ∷ []; mode = 420; kind = kind_object }

abbrev protected : Dict Tree
protected =
    (codes "a", (codes "m", live) ∷ (codes "o", stored 1) ∷ [])
    ∷ (codes "b", (codes "m", live) ∷ [])
    ∷ []

-- The same trees, in another order.
abbrev mirrored : Dict Tree
mirrored =
    (codes "b", (codes "m", live) ∷ [])
    ∷ (codes "a", (codes "o", stored 1) ∷ (codes "m", live) ∷ [])
    ∷ []

abbrev tampered : Dict Tree
tampered =
    (codes "b", (codes "m", live) ∷ [])
    ∷ (codes "a", (codes "o", stored 2) ∷ (codes "m", live) ∷ [])
    ∷ []

mirror_is_accepted : compare_mirror_trees protected mirrored ≡ ok tt
unfolding compare_mirror_trees compare_source compare_file same_file for_each lookup ◌==◌ ◌>>=◌ ◌>>◌
mirror_is_accepted = refl

tampered_is_refused : compare_mirror_trees protected tampered ≡ err file_differs
unfolding compare_mirror_trees compare_source compare_file same_file for_each lookup ◌==◌ ◌>>=◌ ◌>>◌
tampered_is_refused = refl

tampered_is_kept :
    ensure_mirror_immutables_unchanged protected tampered ≡ err mirror_immutable_changed
unfolding ensure_mirror_immutables_unchanged ensure_source ensure_file same_file for_each lookup
    ◌==◌ ◌>>=◌ ◌>>◌ immutable
tampered_is_kept = refl

names_differ : distinct (codes "a" ∷ codes "b" ∷ []) ≡ true
unfolding distinct_from contains ◌==◌
names_differ = refl

names_differ_back : distinct (codes "b" ∷ codes "a" ∷ []) ≡ true
unfolding distinct_from contains ◌==◌
names_differ_back = refl

abbrev restore_fails : MirrorCall → Bool
restore_fails restore_prior = true
restore_fails call = false

-- The new mirror is not read back, and the old one cannot be put back: the backup holds it.
old_mirror_is_kept :
    install_mirror_prefix {X = ℕ} restore_fails false true
      (record { source = holds 1; staging = holds 2; backup = missing })
    ≡ (record { source = missing; staging = missing; backup = holds 1 }, some rollback_failed)
unfolding install_mirror_prefix install_staged
old_mirror_is_kept = refl

install_mirror_prefix-IsAtomic_example :
    let (after, result) =
      install_mirror_prefix {X = ℕ} restore_fails false true
        (record { source = holds 1; staging = holds 2; backup = missing }) in
    ((result ≡ none) × (false ≡ true) × (after.source ≡ holds 2) × (after.backup ≡ missing))
    ⊎ (((result ≡ some remove_failed)
          × (false ≡ true)
          × (after.source ≡ holds 2)
          × (after.backup ≡ remains (holds 1)))
        ⊎ (((is_error result ≡ true) × (after.source ≡ holds 1))
            ⊎ ((is_error result ≡ true)
                × (restoration_fails restore_fails false ≡ true)
                × (after.backup ≡ holds 1))))
install_mirror_prefix-IsAtomic_example = install_mirror_prefix-IsAtomic restore_fails false 1 2

ensure_mirror_immutables_unchanged-compared_example :
    ensure_mirror_immutables_unchanged protected mirrored ≡ ok tt
unfolding distinct_from contains all ◌==◌
ensure_mirror_immutables_unchanged-compared_example =
    ensure_mirror_immutables_unchanged-compared protected mirrored
      ((distinct_iff (codes "a" ∷ codes "b" ∷ [])).0 names_differ)
      ((distinct_iff (codes "b" ∷ codes "a" ∷ [])).0 names_differ_back) refl refl mirror_is_accepted

abbrev protected_prefix : Option (Dict Node)
protected_prefix = some ((codes "README.md", plain) ∷ (demo, node) ∷ [])

abbrev mirror_prefix : Option (Dict Node)
mirror_prefix = some ((demo, node) ∷ [])

prefix_is_accepted : verify_public_mirror toy protected_prefix mirror_prefix ≡ ok tt
unfolding ◌>>=◌ ◌>>◌ for_each ◌==◌ lookup insert id_pattern object_path all any read_entry
    read_repository_sources validate_complete_source_tree tally tally_file compare_mirror_trees
    compare_source compare_file same_file verify_public_mirror
prefix_is_accepted = rw (tree_read) refl

verify_public_mirror_symm_example : verify_public_mirror toy mirror_prefix protected_prefix ≡ ok tt
verify_public_mirror_symm_example =
    verify_public_mirror_symm toy protected_prefix mirror_prefix prefix_is_accepted
