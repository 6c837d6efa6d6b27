-- ===== src/Origin/Targets.antt =====
-- The targets of an origin (`originTargets`, internal/repository/origin.go): every file of every source is
-- one, under its own path.
use mathlib.Core.List.{
  mem-cons, mem-cons_self, mem-cons_of_mem, not-mem-nil, mem-map_of_mem, Nodup-cons, Mem-prop,
}
use mathlib.Core.Logic.Or
use unlock_catalog_publisher.Base.{
  ◌≡◌, ◌≢◌, refl, sym, ap, subst, ◌∙◌, true, [], ◌∷◌, ◌++◌, Mem, Nodup, Bytes, Dict, Option, some,
  keys, arith, all, lookup, insert, lookup-insert, ok, ◌==◌, ==_iff, ok-injective, Bytes-set,
  Bool-cases, inl, inr,
}
use unlock_catalog_publisher.Base.Growth.{lookup-mem}
use unlock_catalog_publisher.Base.Distinct.{distinct_iff}
use unlock_catalog_publisher.Base.Paths.{join_path}
use unlock_catalog_publisher.Base.Paths.Split.{no_slash}
use unlock_catalog_publisher.Release.Types.{Tree, TreeFile}
use unlock_catalog_publisher.Release.Joined.{plain_path, joins}
use unlock_catalog_publisher.Mirror.Exact.{tree_distinct}
use unlock_catalog_publisher.Origin.Types.{Sentinel}
use unlock_catalog_publisher.Origin.Verify.{add_files, add_sources, origin_targets}

-- A path is split at its first `/`.
below-injective :
    (i j p q : Bytes)
    → no_slash i ≡ true
    → no_slash j ≡ true
    → i ++ b'/' ∷ p ≡ j ++ b'/' ∷ q
    → (i ≡ j) × (p ≡ q)
unfolding all
below-injective [] [] p q h k e = let same : p ≡ q = ground arith in (refl, same)
below-injective [] (d ∷ j) p q h k e =
    let slash : b'/' ≡ d = ground arith in absurd (ground (arith, k, slash))
below-injective (c ∷ i) [] p q h k e =
    let slash : c ≡ b'/' = ground arith in absurd (ground (arith, h, slash))
below-injective (c ∷ i) (d ∷ j) p q h k e =
    let head : c ≡ d = ground arith in
    let tail : i ++ b'/' ∷ p ≡ j ++ b'/' ∷ q = ground arith in
    let (same, rest) = below-injective i j p q (ground (arith, h)) (ground (arith, k)) tail in
    (ap (λ x. x ∷ i) head ∙ ap (λ l. d ∷ l) same, rest)

lookup-insert_other :
    (key other body : Bytes) (m : Dict Bytes)
    → other ≢ key
    → lookup key (insert other body m) ≡ lookup key m
lookup-insert_other key other body m ne = elim (Bool-cases (other == key)) [
  | inl e ↦ absurd (ne ((==_iff other key).0 e))
  | inr e ↦ lookup-insert other key body m ∙ rw e refl
]

lookup-insert_same :
    (key body : Bytes) (m : Dict Bytes) → lookup key (insert key body m) ≡ some body
lookup-insert_same key body m = lookup-insert key key body m ∙ rw ((==_iff key key).1 refl) refl

-- Files under other paths leave a target as it is.
add_files-other :
    (source_id key : Bytes) (targets : Dict Bytes) (files : Tree)
    → all (plain_path source_id) files ≡ true
    → ((path : Bytes) → Mem path (keys files) → source_id ++ b'/' ∷ path ≢ key)
    → lookup key (add_files source_id targets files) ≡ lookup key targets
unfolding add_files all
add_files-other source_id key targets [] h ne = refl
add_files-other source_id key targets ((path, file) ∷ files) h ne =
    let first : join_path source_id path == source_id ++ b'/' ∷ path ≡ true = ground (arith, h) in
    let joined = (==_iff (join_path source_id path) (source_id ++ b'/' ∷ path)).0 first in
    add_files-other source_id key (insert (join_path source_id path) file.body targets) files
      (ground (arith, h)) (λ p i. ne p (mem-cons_of_mem path i))
    ∙ lookup-insert_other key (join_path source_id path) file.body targets
        (λ e. ne path mem-cons_self (sym joined ∙ e))

add_files-own :
    (source_id : Bytes) (targets : Dict Bytes) (files : Tree) (path : Bytes) (file : TreeFile)
    → no_slash source_id ≡ true
    → all (plain_path source_id) files ≡ true
    → Nodup (keys files)
    → Mem (path, file) files
    → lookup (source_id ++ b'/' ∷ path) (add_files source_id targets files) ≡ some file.body
unfolding add_files all
add_files-own source_id targets [] path file s h n i = absurd (not-mem-nil i)
add_files-own source_id targets ((p, f) ∷ files) path file s h n i =
    let first : join_path source_id p == source_id ++ b'/' ∷ p ≡ true = ground (arith, h) in
    let joined = (==_iff (join_path source_id p) (source_id ++ b'/' ∷ p)).0 first in
    let more : all (plain_path source_id) files ≡ true = ground (arith, h) in
    let key = source_id ++ b'/' ∷ path in
    let fresh = (Nodup-cons.0 n).0 in
    elim (Bool-cases (p == path)) [
      | inr e ↦
          let later : Mem (path, file) files =
            Or.elim Mem-prop (mem-cons.0 i)
              (λ (q : (path, file) ≡ (p, f)).
                absurd (cc (e, (==_iff p path).1 (sym (ap (λ x. x.0) q)))))
              (λ (r : Mem (path, file) files). r) in
          add_files-own source_id (insert (join_path source_id p) f.body targets) files path file s
            more (Nodup-cons.0 n).1 later
      | inl e ↦
          let same : p ≡ path = (==_iff p path).0 e in
          let body : f.body ≡ file.body =
            Or.elim (Bytes-set _ _) (mem-cons.0 i)
              (λ (q : (path, file) ≡ (p, f)). sym (ap (λ x. x.1.body) q))
              (λ (r : Mem (path, file) files). absurd (
                fresh (
                  subst (λ x. Mem x (keys files)) (sym same)
                    (mem-map_of_mem (λ (e : Bytes × TreeFile). e.0) r)))) in
          add_files-other source_id key (insert (join_path source_id p) f.body targets) files more
            (λ q j k. fresh (
              subst (λ x. Mem x (keys files))
                ((below-injective source_id source_id q path s s k).1 ∙ sym same) j))
          ∙ ap (λ k. lookup key (insert k f.body targets))
              (joined ∙ ap (λ x. source_id ++ b'/' ∷ x) same)
          ∙ lookup-insert_same key f.body targets
          ∙ ap some body
    ]

-- Sources of other IDs leave a target as it is.
add_sources-other :
    (source_id path : Bytes) (targets : Dict Bytes) (sources : Dict Tree)
    → no_slash source_id ≡ true
    → all joins sources ≡ true
    → (Mem source_id (keys sources) → ⊥)
    → lookup (source_id ++ b'/' ∷ path) (add_sources targets sources)
      ≡ lookup (source_id ++ b'/' ∷ path) targets
unfolding add_sources all
add_sources-other source_id path targets [] s h ne = refl
add_sources-other source_id path targets ((id, files) ∷ sources) s h ne =
    let slashless : no_slash id ≡ true = ground (arith, h) in
    add_sources-other source_id path (add_files id targets files) sources s (ground (arith, h))
      (λ i. ne (mem-cons_of_mem id i))
    ∙ add_files-other id (source_id ++ b'/' ∷ path) targets files (ground (arith, h)) λ q j e. ne (
        subst (λ x. Mem x (id ∷ keys sources)) (below-injective id source_id q path slashless s e).0
          mem-cons_self)

add_sources-own :
    (source_id : Bytes) (files : Tree) (path : Bytes) (file : TreeFile) (targets : Dict Bytes)
    (sources : Dict Tree)
    → all joins sources ≡ true
    → Nodup (keys sources)
    → all tree_distinct sources ≡ true
    → Mem (source_id, files) sources
    → Mem (path, file) files
    → lookup (source_id ++ b'/' ∷ path) (add_sources targets sources) ≡ some file.body
unfolding add_sources all
add_sources-own source_id files path file targets [] h n d m i = absurd (not-mem-nil m)
add_sources-own source_id files path file targets ((id, fs) ∷ sources) h n d m i =
    let fresh = (Nodup-cons.0 n).0 in
    let here : joins (id, fs) ≡ true = ground (arith, h) in
    let more : all joins sources ≡ true = ground (arith, h) in
    elim (Bool-cases (id == source_id)) [
      | inr e ↦
          let later : Mem (source_id, files) sources =
            Or.elim Mem-prop (mem-cons.0 m)
              (λ (q : (source_id, files) ≡ (id, fs)).
                absurd (cc (e, (==_iff id source_id).1 (sym (ap (λ x. x.0) q)))))
              (λ (r : Mem (source_id, files) sources). r) in
          add_sources-own source_id files path file (add_files id targets fs) sources more
            (Nodup-cons.0 n).1 (ground (arith, d)) later i
      | inl e ↦
          let same : id ≡ source_id = (==_iff id source_id).0 e in
          let slashless : no_slash id ≡ true = ground (arith, here) in
          let there : Mem (path, file) fs =
            Or.elim Mem-prop (mem-cons.0 m)
              (λ (q : (source_id, files) ≡ (id, fs)). subst (λ x. Mem (path, file) (x.1)) q i)
              (λ (r : Mem (source_id, files) sources). absurd (
                fresh (
                  subst (λ x. Mem x (keys sources)) (sym same)
                    (mem-map_of_mem (λ (e : Bytes × Tree). e.0) r)))) in
          subst
            (λ x.
              lookup (x ++ b'/' ∷ path) (add_sources (add_files id targets fs) sources)
              ≡ some file.body)
            same
            (add_sources-other id path (add_files id targets fs) sources slashless more fresh
              ∙ add_files-own id targets fs path file slashless (ground (arith, here))
                  ((distinct_iff (keys fs)).0 (ground (arith, d))) there)
    ]

-- Each file of each source is a target, under the ID and its path, with its bytes.
pub origin_targets-each :
    (sources : Dict Tree) (readme : Option Sentinel) {targets : Dict Bytes} (source_id : Bytes)
    (files : Tree) (path : Bytes) (file : TreeFile)
    → all joins sources ≡ true
    → Nodup (keys sources)
    → all tree_distinct sources ≡ true
    → origin_targets sources readme ≡ ok targets
    → Mem (source_id, files) sources
    → Mem (path, file) files
    → Mem (source_id ++ b'/' ∷ path, file.body) targets
unfolding origin_targets
origin_targets-each [] readme source_id files path file h n d o m i = absurd (not-mem-nil m)
origin_targets-each (source ∷ sources) readme {targets} source_id files path file h n d o m i =
    lookup-mem (source_id ++ b'/' ∷ path) targets (
      subst (λ t. lookup (source_id ++ b'/' ∷ path) t ≡ some file.body) (ok-injective o)
        (add_sources-own source_id files path file [] (source ∷ sources) h n d m i))
