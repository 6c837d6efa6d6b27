-- ===== src/Cohort/Layout.antt =====
-- The files and directories of the candidate that `BuildCandidate` (internal/cohort/builder.go) writes, and what
-- the signer's checks (internal/signing/candidate.go) say of them.
use mathlib.Core.List.{mem-cons, mem-cons_of_mem, Mem-prop, not-mem-nil, Nodup-cons}
use mathlib.Core.Logic.Or
use mathlib.Core.Bool.{Bool-set}
use unlock_catalog_publisher.Base.{
  ℕ, ◌≡◌, refl, sym, subst, Bool, true, ◌||◌, ◌==◌, ==_iff, ==_refl, List, [], ◌∷◌, ◌++◌, map, Mem,
  Nodup, Bytes, Dict, some, arith, ltb, leb, length, all, all-of_mem, lookup, contains,
  mem-contains, keys, Bool-cases, inl, inr,
}
use unlock_catalog_publisher.Base.Growth.{contains-append}
use unlock_catalog_publisher.Base.Paths.Dir.{parent_paths}
use unlock_catalog_publisher.Base.Items.{Item, symlink, folder, plain, special, file_paths}
use unlock_catalog_publisher.Primitives.{Primitives}
use unlock_catalog_publisher.Catalog.Types.{SigningObject}
use unlock_catalog_publisher.Policy.Artifact.{object_path}
use unlock_catalog_publisher.Signing.Candidate.Exact.{
  object_paths, object_parents, valid_paths, expected_files,
}
use unlock_catalog_publisher.Cohort.Types.{VerifiedObject}
use unlock_catalog_publisher.Cohort.Build.{signing_object}
use unlock_catalog_publisher.Cohort.Objects.{right}
use unlock_catalog_publisher.Cohort.ObjectPaths.{longest_directory, IsStored, object_path-IsStored}

abbrev pub signed_objects : List VerifiedObject → List SigningObject
signed_objects = map signing_object

file_paths-cons :
    (p : Bytes) (entry : Bytes × Item) (items : Dict Item)
    → contains p (file_paths items) ≡ true
    → contains p (file_paths (entry ∷ items)) ≡ true
unfolding contains
file_paths-cons p (q, symlink) items h = h
file_paths-cons p (q, folder mode) items h = h
file_paths-cons p (q, plain mode content) items h = ground (arith, h)
file_paths-cons p (q, special) items h = ground (arith, h)

pub lookup-file_paths :
    (p : Bytes) (mode : ℕ) (content : Bytes) (items : Dict Item)
    → lookup p items ≡ some (plain mode content)
    → contains p (file_paths items) ≡ true
unfolding lookup contains
lookup-file_paths p mode content [] h = absurd (cc)
lookup-file_paths p mode content ((q, item) ∷ items) h = elim (Bool-cases (q == p)) [
  | inl e ↦
      let here : item ≡ plain mode content = ground (arith, e, h) in
      subst (λ i. contains p (file_paths ((q, i) ∷ items)) ≡ true) (sym here) (ground (arith, e))
  | inr e ↦
      let rest = lookup-file_paths p mode content items (ground (arith, e, h)) in
      file_paths-cons p (q, item) items rest
]

mem-cons_map :
    {p q : Bytes} {xs ys : List Bytes} → (Mem p xs → Mem p ys) → Mem p (q ∷ xs) → Mem p (q ∷ ys)
mem-cons_map {p} {q} f m =
    Or.elim Mem-prop (mem-cons.0 m) (λ (e : p ≡ q). mem-cons.1 (Or.inl e))
      (λ n. mem-cons_of_mem q (f n))

file_paths-keys : (p : Bytes) (items : Dict Item) → Mem p (file_paths items) → Mem p (keys items)
file_paths-keys p [] m = m
file_paths-keys p ((q, symlink) ∷ items) m = mem-cons_of_mem q (file_paths-keys p items m)
file_paths-keys p ((q, folder mode) ∷ items) m = mem-cons_of_mem q (file_paths-keys p items m)
file_paths-keys p ((q, plain mode content) ∷ items) m = mem-cons_map (file_paths-keys p items) m
file_paths-keys p ((q, special) ∷ items) m = mem-cons_map (file_paths-keys p items) m

pub file_paths-Nodup : (items : Dict Item) → Nodup (keys items) → Nodup (file_paths items)
file_paths-Nodup [] n = n
file_paths-Nodup ((q, symlink) ∷ items) n = file_paths-Nodup items (Nodup-cons.0 n).1
file_paths-Nodup ((q, folder mode) ∷ items) n = file_paths-Nodup items (Nodup-cons.0 n).1
file_paths-Nodup ((q, plain mode content) ∷ items) n =
    Nodup-cons.1 (
      λ m. (Nodup-cons.0 n).0 (file_paths-keys q items m),
      file_paths-Nodup items (Nodup-cons.0 n).1,
    )
file_paths-Nodup ((q, special) ∷ items) n =
    Nodup-cons.1 (
      λ m. (Nodup-cons.0 n).0 (file_paths-keys q items m),
      file_paths-Nodup items (Nodup-cons.0 n).1,
    )

all-append :
    (test : Bytes → Bool) (xs ys : List Bytes)
    → all test xs ≡ true
    → all test ys ≡ true
    → all test (xs ++ ys) ≡ true
unfolding all
all-append test [] ys h k = k
all-append test (x ∷ xs) ys h k = ground (arith, h, all-append test xs ys (ground (arith, h)) k)

all-weaken :
    (test weaker : Bytes → Bool) (xs : List Bytes)
    → ((x : Bytes) → test x ≡ true → weaker x ≡ true)
    → all test xs ≡ true
    → all weaker xs ≡ true
unfolding all
all-weaken test weaker [] f h = refl
all-weaken test weaker (x ∷ xs) f h =
    ground (arith, f x (ground (arith, h)), all-weaken test weaker xs f (ground (arith, h)))

-- The path of a right object.
pub right-IsStored :
    (P : Primitives) (items : Dict Item) (o : VerifiedObject)
    → right P items o ≡ true
    → IsStored o.descriptor.path
right-IsStored P items o h =
    let path : o.descriptor.path ≡ object_path o.descriptor.sha256 =
      (==_iff _ _).0 (ground (arith, h)) in
    subst IsStored (sym path) (object_path-IsStored o.descriptor.sha256 (ground (arith, h)))

module _ (P : Primitives) (items : Dict Item) where
  pub all-valid_paths :
      (objects : List VerifiedObject)
      → all (right P items) objects ≡ true
      → valid_paths (signed_objects objects) ≡ true
  unfolding all signing_object
  all-valid_paths [] h = refl
  all-valid_paths (o ∷ objects) h =
      let stored = right-IsStored P items o (ground (arith, h)) in
      let more = all-valid_paths objects (ground (arith, h)) in ground (arith, stored.valid, more)

  pub all-long :
      (objects : List VerifiedObject)
      → all (right P items) objects ≡ true
      → all (λ p. ltb longest_directory (length p)) (expected_files (signed_objects objects)) ≡ true
  unfolding all signing_object
  all-long [] h = refl
  all-long (o ∷ objects) h =
      let stored = right-IsStored P items o (ground (arith, h)) in
      let more = all-long objects (ground (arith, h)) in ground (arith, stored.long, more)

  pub all-short :
      (objects : List VerifiedObject)
      → all (right P items) objects ≡ true
      → all (λ p. leb (length p) longest_directory) (object_parents (signed_objects objects)) ≡ true
  unfolding all signing_object
  all-short [] h = refl
  all-short (o ∷ objects) h =
      all-append (λ p. leb (length p) longest_directory) (parent_paths o.descriptor.path)
        (object_parents (signed_objects objects))
        (right-IsStored P items o (ground (arith, h))).parents_short
        (all-short objects (ground (arith, h)))

-- An object's path, and the directories above it, are among those of all objects.
pub object_paths-contains :
    (o : VerifiedObject) (objects : List VerifiedObject)
    → Mem o objects
    → contains o.descriptor.path (object_paths (signed_objects objects)) ≡ true
unfolding contains signing_object
object_paths-contains o [] m = absurd (not-mem-nil m)
object_paths-contains o (x ∷ objects) m =
    Or.elim (Bool-set _ _) (mem-cons.0 m)
      (λ (e : o ≡ x).
        subst
          (λ (y : VerifiedObject).
            y.descriptor.path == o.descriptor.path
              || contains o.descriptor.path (object_paths (signed_objects objects))
            ≡ true)
          e (ground (arith, ==_refl o.descriptor.path)))
      (λ (i : Mem o objects). ground (arith, object_paths-contains o objects i))

pub object_parents-contains :
    (o : VerifiedObject) (objects : List VerifiedObject)
    → Mem o objects
    → all
        (λ d. contains d (object_parents (signed_objects objects)))
        (parent_paths o.descriptor.path)
      ≡ true
unfolding signing_object
object_parents-contains o [] m = absurd (not-mem-nil m)
object_parents-contains o (x ∷ objects) m =
    let own = parent_paths x.descriptor.path in
    let others = object_parents (signed_objects objects) in
    Or.elim (Bool-set _ _) (mem-cons.0 m)
      (λ (e : o ≡ x).
        all-of_mem (λ d. contains d (own ++ others)) (parent_paths o.descriptor.path)
          (λ d k.
            let here : contains d own ≡ true =
              mem-contains d own
                (subst (λ (y : VerifiedObject). Mem d (parent_paths y.descriptor.path)) e k) in
            ground (arith, contains-append d own others, here)))
      (λ (i : Mem o objects).
        all-weaken (λ d. contains d others) (λ d. contains d (own ++ others))
          (parent_paths o.descriptor.path) (λ d h. ground (arith, contains-append d own others, h))
          (object_parents-contains o objects i))
