-- ===== src/Release/Append.antt =====
-- The published history only grows: `MaterializeRelease` and `VerifyReleaseDiff`
-- (internal/repository/tree.go).
use mathlib.Core.List.{mem-cons, mem-map_of_mem, not-mem-nil, Nodup-cons}
use mathlib.Core.Logic.Or
use mathlib.Core.Bool.{Bool-set}
use unlock_catalog_publisher.Base.{
  ◌≡◌, ◌↔◌, refl, sym, ap, subst, ◌∙◌, Bool, true, false, not, ◌&&◌, ◌||◌, [], ◌∷◌, Mem, Nodup,
  keys, Bytes, Dict, none, some, arith, eqb, all, all-mem, all-of_mem, lookup, lookup-insert,
  insert, ok, for_each, ok-injective, bind_elim, refuse_elim, ◌>>=◌, ==_iff, ==_refl, ◌==◌,
  Bool-cases, inl, inr, Option-cases, if◌then◌else◌,
}
use unlock_catalog_publisher.Primitives.{Primitives}
use unlock_catalog_publisher.Release.Types.{Tree, TreeFile, FileKind, immutable, mode_file}
use unlock_catalog_publisher.Release.Paths.{classify_release_path, manifest_json, root_json}
use unlock_catalog_publisher.Release.Materialize.{merge_file}
use unlock_catalog_publisher.Release.Diff.{check_kept}

-- The two files that a release may change.
abbrev pub live : Bytes → Bool
live path = path == manifest_json || path == root_json

-- The file has the kind of its path and the mode 0644.
abbrev pub classified : Bytes × TreeFile → Bool
classified (path, file) =
    (if live path then not (immutable file.kind) else immutable file.kind)
    && eqb file.mode mode_file

-- The candidate has the file, unless it may change.
abbrev pub kept : Tree → Bytes × TreeFile → Bool
kept candidate (path, file) = not (immutable file.kind) || elim (lookup path candidate) [
  | none ↦ false
  | some other ↦ eqb other.mode file.mode && other.body == file.body
]

pub classify-live :
    (P : Primitives) (path body : Bytes) {kind : FileKind}
    → classify_release_path P path body ≡ ok kind
    → (if live path then not (immutable kind) else immutable kind) ≡ true
unfolding classify_release_path immutable
classify-live P path body h = ground arith

check_kept_iff :
    (candidate : Tree) (u : Unit {0}) (e : Bytes × TreeFile)
    → (check_kept candidate u e ≡ ok tt) ↔ (kept candidate e ≡ true)
unfolding check_kept
check_kept_iff candidate u (path, file) = (λ h. ground arith, λ h. ground arith)

pub check_kept-all :
    (candidate : Tree) (base : Tree)
    → (for_each (check_kept candidate) tt base ≡ ok tt) ↔ (all (kept candidate) base ≡ true)
unfolding for_each all ◌>>=◌
check_kept-all candidate [] = (λ h. refl, λ h. refl)
check_kept-all candidate (e ∷ es) = (
  λ h. bind_elim _ _ h λ u first rest.
      let one : kept candidate e ≡ true = (check_kept_iff candidate tt e).0 first in
      let more : all (kept candidate) es ≡ true = (check_kept-all candidate es).0 rest in
      ground arith,
  λ h.
      let first : check_kept candidate tt e ≡ ok tt =
        (check_kept_iff candidate tt e).1 (ground arith) in
      rw first ((check_kept-all candidate es).1 (ground arith)),
)

pub all-insert {ℓ} :
    {V : Type ℓ} (q : Bytes × V → Bool) (path : Bytes) (file : V) (m : Dict V)
    → all q m ≡ true
    → q (path, file) ≡ true
    → all q (insert path file m) ≡ true
unfolding all insert
all-insert q path file [] h k = ground arith
all-insert q path file ((found, other) ∷ m) h k = elim (Bool-cases (found == path)) [
  | inl e ↦ rw e (ground arith)
  | inr e ↦ rw e (ground (arith, all-insert q path file m))
]

-- A file that the merge may write keeps the files that must stay.
kept-insert :
    (merged : Tree) (path relative : Bytes) (f file : TreeFile)
    → classified (path, f) ≡ true
    → classified (relative, file) ≡ true
    → elim (lookup relative merged) [
      | none ↦ false
      | some prior ↦ immutable file.kind && not (prior.body == file.body)
    ]
      ≡ false
    → kept merged (path, f) ≡ true
    → kept (insert relative file merged) (path, f) ≡ true
kept-insert merged path relative f file a b guard h = elim (Bool-cases (relative == path)) [
  | inl e ↦
      let same : relative ≡ path = (==_iff relative path).0 e in
      let live_same : live relative ≡ live path = ap live same in
      let found : lookup path (insert relative file merged) ≡ some file =
        lookup-insert relative path file merged ∙ rw e refl in
      let prior_same : lookup relative merged ≡ lookup path merged =
        ap (λ p. lookup p merged) same in
      elim (Option-cases (lookup path merged)) [
        | inl n ↦ ground (arith, found)
        | inr (prior, s) ↦ ground (
          arith,
          found,
          ==_iff prior.body f.body,
          ==_iff prior.body file.body,
          ==_iff file.body f.body,
        )
      ]
  | inr e ↦
      let found : lookup path (insert relative file merged) ≡ lookup path merged =
        lookup-insert relative path file merged ∙ rw e refl in
      rw found h
]

merge_file-keeps :
    (base merged : Tree) (e : Bytes × TreeFile) (t : Tree)
    → all classified base ≡ true
    → classified e ≡ true
    → merge_file merged e ≡ ok t
    → (all (kept merged) base ≡ true → all (kept t) base ≡ true)
      × (all classified merged ≡ true → all classified t ≡ true)
unfolding merge_file
merge_file-keeps base merged (relative, file) t c d h = refuse_elim _ _ _ h λ guard out.
    let same : insert relative file merged ≡ t = ok-injective out in
    (
      λ kept_before.
          subst (λ r. all (kept r) base ≡ true) same
            (all-of_mem (kept (insert relative file merged)) base λ (path, f) m.
              kept-insert merged path relative f file (all-mem classified base c (path, f) m) d
                guard (all-mem (kept merged) base kept_before (path, f) m)),
      λ before.
          subst (λ r. all classified r ≡ true) same
            (all-insert classified relative file merged before d),
    )

pub merge-keeps :
    (base incoming : Tree) (s : Tree) {merged : Tree}
    → all classified base ≡ true
    → all classified incoming ≡ true
    → for_each merge_file s incoming ≡ ok merged
    → all (kept s) base ≡ true
    → all classified s ≡ true
    → (all (kept merged) base ≡ true) × (all classified merged ≡ true)
unfolding for_each all
merge-keeps base [] s {merged} c d h k l =
    let same : s ≡ merged = ok-injective h in
    (subst (λ r. all (kept r) base ≡ true) same k, subst (λ r. all classified r ≡ true) same l)
merge-keeps base (e ∷ incoming) s c d h k l = bind_elim _ _ h λ s' first rest.
    let step = merge_file-keeps base s e s' c (ground arith) first in
    merge-keeps base incoming s' c (ground arith) rest (step.0 k) (step.1 l)

kept_same : (path : Bytes) (f : TreeFile) (m : Tree) → kept ((path, f) ∷ m) (path, f) ≡ true
unfolding lookup
kept_same path f m = ground (arith, ==_refl path, ==_refl f.body)

-- A tree whose paths are distinct keeps its own files.
pub kept_self : (m : Tree) (e : Bytes × TreeFile) → Nodup (keys m) → Mem e m → kept m e ≡ true
unfolding lookup
kept_self [] e n i = absurd (not-mem-nil i)
kept_self ((found, other) ∷ m) (path, f) n i =
    Or.elim (Bool-set _ _) (mem-cons.0 i)
      (λ (same : (path, f) ≡ (found, other)).
        subst (λ e. kept (e ∷ m) (path, f) ≡ true) same (kept_same path f m))
      (λ (j : Mem (path, f) m). elim (Bool-cases (found == path)) [
        | inl s ↦ absurd (
            (Nodup-cons.0 n).0 (
              subst (λ k. Mem k (keys m)) (sym ((==_iff found path).0 s))
                (mem-map_of_mem (λ (e : Bytes × TreeFile). e.0) j)))
        | inr s ↦ rw s (kept_self m (path, f) (Nodup-cons.0 n).1 j)
      ])
