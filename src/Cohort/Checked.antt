-- ===== src/Cohort/Checked.antt =====
-- The signer's checks of the objects (internal/signing/candidate.go), on what `BuildCandidate`
-- (internal/cohort/builder.go) has read, sorted and written.
use mathlib.Core.List.{mem-cons_self, Nodup-cons}
use unlock_catalog_publisher.Base.{
  suc, ◌≡◌, refl, sym, ap, subst, ◌∙◌, Bool, true, false, not, ◌==◌, ==_refl, List, [], ◌∷◌, map,
  Mem, Nodup, Bytes, Dict, Option, none, some, arith, eqb, ltb, leb, length, take-all, all, lookup,
  ok, for_each, ◌>>=◌, ◌>>◌, Bool-cases, inl, inr, less,
}
use unlock_catalog_publisher.Base.Text.{less_total}
use unlock_catalog_publisher.Base.Int.{pos, int_eq, int_eq_iff, int_le}
use unlock_catalog_publisher.Base.Sort.{IsSorted}
use unlock_catalog_publisher.Base.Items.{Item, plain}
use unlock_catalog_publisher.Primitives.{Primitives, digest_bytes}
use unlock_catalog_publisher.Catalog.Types.{ArtifactDescriptor, ArtifactPlatform}
use unlock_catalog_publisher.Policy.Artifact.{max_object_size}
use unlock_catalog_publisher.Signing.Candidate.Reading.{
  mode_file, max_int64, valid_candidate_file_mode, read_limited, read_regular_file, validate_object,
  validate_objects,
}
use unlock_catalog_publisher.Signing.Candidate.Request.{
  describes, equal_platform, out_of_order, match_objects,
}
use unlock_catalog_publisher.Cohort.Types.{VerifiedObject}
use unlock_catalog_publisher.Cohort.Build.{signing_object}
use unlock_catalog_publisher.Cohort.Objects.{right, by_artifact}
use unlock_catalog_publisher.Cohort.Layout.{signed_objects}

read_limited-all :
    (c : Bytes) → leb (length c) max_object_size ≡ true → read_limited (length c) c ≡ c
read_limited-all c h =
    let small : eqb (length c) max_int64 ≡ false = ground (arith, h) in
    rw small (take-all (suc (length c)) c (omega arith))

read_regular_file-exact :
    (items : Dict Item) (path c : Bytes)
    → lookup path items ≡ some (plain mode_file c)
    → leb (length c) max_object_size ≡ true
    → read_regular_file items path (pos (length c)) true ≡ ok c
unfolding read_regular_file valid_candidate_file_mode ◌>>=◌ ◌>>◌
read_regular_file-exact items path c there small =
    let whole = read_limited-all c small in
    let fits : ltb (length c) (length c) ≡ false = ground arith in
    let same : eqb (length c) (length c) ≡ true = ground arith in rw (there, whole, fits, same) refl

module _ (P : Primitives) (items written : Dict Item) where
  validate_object-ok :
      (o : VerifiedObject)
      → right P items o ≡ true
      → lookup o.descriptor.path written ≡ some (plain mode_file o.content)
      → validate_object P written tt (signing_object o) ≡ ok tt
  unfolding validate_object signing_object ◌>>=◌ ◌>>◌
  validate_object-ok o h there =
      let size : pos (length o.content) ≡ o.descriptor.length =
        (int_eq_iff _ _).0 (ground (arith, h)) in
      let digest : digest_bytes P o.content == o.descriptor.sha256 ≡ true = ground (arith, h) in
      let bounded : int_le (pos (length o.content)) (pos max_object_size) ≡ true =
        subst (λ m. int_le m (pos max_object_size) ≡ true) (sym size) (ground (arith, h)) in
      let small : leb (length o.content) max_object_size ≡ true = ground (arith, bounded) in
      let read = read_regular_file-exact written o.descriptor.path o.content there small in
      let sized : int_eq (pos (length o.content)) (pos (length o.content)) ≡ true =
        (int_eq_iff (pos (length o.content)) (pos (length o.content))).1 refl in
      rw (sym size, read, sized, digest) refl

  -- Each object is there with its content.
  abbrev pub AllThere : List VerifiedObject → Type 0
  AllThere [] = Unit
  AllThere (o ∷ objects) =
      (lookup o.descriptor.path written ≡ some (plain mode_file o.content)) × AllThere objects

  pub validate_objects-ok :
      (objects : List VerifiedObject)
      → all (right P items) objects ≡ true
      → AllThere objects
      → validate_objects P written (signed_objects objects) ≡ ok tt
  unfolding validate_objects for_each all ◌>>=◌
  validate_objects-ok [] h there = refl
  validate_objects-ok (o ∷ objects) h (there, rest) =
      ap (λ r. r >>= λ s. for_each (validate_object P written) s (signed_objects objects))
        (validate_object-ok o (ground (arith, h)) there)
      ∙ validate_objects-ok objects (ground (arith, h)) rest

equal_platform_refl : (platform : Option ArtifactPlatform) → equal_platform platform platform ≡ true
unfolding equal_platform
equal_platform_refl none = refl
equal_platform_refl (some p) = ground (arith, ==_refl p.os, ==_refl p.arch, ==_refl p.abi)

describes-signing_object : (o : VerifiedObject) → describes (signing_object o) o.descriptor ≡ true
unfolding describes signing_object
describes-signing_object o = ground (
  arith,
  ==_refl o.descriptor.artifact_id,
  ==_refl o.descriptor.path,
  ==_refl o.descriptor.sha256,
  (int_eq_iff o.descriptor.length o.descriptor.length).1 refl,
  ==_refl o.descriptor.permission,
  equal_platform_refl o.descriptor.platform,
)

abbrev pub descriptors : List VerifiedObject → List ArtifactDescriptor
descriptors = map λ o. o.descriptor

-- The object that comes first is after the one before it.
abbrev starts_after : Option Bytes → List VerifiedObject → Bool
starts_after previous [] = true
starts_after previous (o ∷ objects) = not (out_of_order previous o.descriptor.artifact_id)

starts_after-next :
    (o : VerifiedObject) (objects : List VerifiedObject)
    → IsSorted by_artifact (o ∷ objects)
    → Nodup (map by_artifact (o ∷ objects))
    → starts_after (some o.descriptor.artifact_id) objects ≡ true
starts_after-next o [] sorted n = refl
starts_after-next o (x ∷ objects) sorted n =
    elim (Bool-cases (less o.descriptor.artifact_id x.descriptor.artifact_id)) [
      | inl e ↦ ground (arith, e)
      | inr e ↦
          let same : o.descriptor.artifact_id ≡ x.descriptor.artifact_id =
            less_total _ _ e sorted.0 in
          absurd (
            (Nodup-cons.0 n).0
              (subst (λ i. Mem i (map by_artifact (x ∷ objects))) (sym same) mem-cons_self))
    ]

IsSorted-rest :
    (o : VerifiedObject) (objects : List VerifiedObject)
    → IsSorted by_artifact (o ∷ objects)
    → IsSorted by_artifact objects
IsSorted-rest o [] sorted = tt
IsSorted-rest o (x ∷ objects) sorted = sorted.1

pub match_objects-ok :
    (previous : Option Bytes) (objects : List VerifiedObject)
    → starts_after previous objects ≡ true
    → IsSorted by_artifact objects
    → Nodup (map by_artifact objects)
    → match_objects previous (descriptors objects) (signed_objects objects) ≡ ok tt
unfolding match_objects signing_object ◌>>◌
match_objects-ok previous [] first sorted n = refl
match_objects-ok previous (o ∷ objects) first sorted n =
    let described = describes-signing_object o in
    let ordered : out_of_order previous o.descriptor.artifact_id ≡ false = ground (arith, first) in
    let rest =
      match_objects-ok (some o.descriptor.artifact_id) objects
        (starts_after-next o objects sorted n) (IsSorted-rest o objects sorted)
        (Nodup-cons.0 n).1 in
    rw (described, ordered) rest

-- The first object has none before it.
pub starts_after-none : (objects : List VerifiedObject) → starts_after none objects ≡ true
starts_after-none [] = refl
starts_after-none (o ∷ objects) = refl
