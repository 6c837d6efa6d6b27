-- ===== src/Cohort/Objects.antt =====
-- The objects that `BuildCandidate` (internal/cohort/builder.go) has read and sorted.
use mathlib.Core.List.Perm
use unlock_catalog_publisher.Base.{
  ◌≡◌, refl, sym, ap, subst, ◌∙◌, Bool, true, ◌&&◌, ◌==◌, ==_iff, ==_refl, List, [], ◌∷◌, ◌++◌, map,
  Bytes, Dict, none, some, arith, length, all, all-mem, all-of_mem, lookup, ok, for_each,
  refuse_elim, or_fail_elim, ok-injective,
}
use unlock_catalog_publisher.Base.Growth.{flat_map, for_each-appends, for_each-all}
use unlock_catalog_publisher.Base.Int.{pos, int_eq, int_le}
use unlock_catalog_publisher.Base.Patterns.{digest_pattern}
use unlock_catalog_publisher.Base.Sort.{sort_by, sort_by-perm}
use unlock_catalog_publisher.Base.Items.{Item}
use unlock_catalog_publisher.Primitives.{Primitives, digest_bytes}
use unlock_catalog_publisher.Catalog.Types.{Source, ArtifactDescriptor}
use unlock_catalog_publisher.Policy.Artifact.{object_path, max_object_size}
use unlock_catalog_publisher.Policy.Validate.{validate}
use unlock_catalog_publisher.Policy.Contained.{validate-artifacts}
use unlock_catalog_publisher.Signing.Candidate.Reading.{content_of}
use unlock_catalog_publisher.Cohort.Types.{VerifiedObject}
use unlock_catalog_publisher.Cohort.Sources.{read_object}

-- The content of the file at a path, when there is one.
abbrev pub source_content : Dict Item → Bytes → Bytes
source_content items path = elim (lookup path items) [ none ↦ [] | some item ↦ content_of item ]

abbrev verified : Dict Item → ArtifactDescriptor → VerifiedObject
verified items a = record { descriptor = a; content = source_content items a.path }

-- The checks of the loop, and those that the policy has made before.
abbrev sized_right : Primitives → VerifiedObject → Bool
sized_right P o =
    int_eq (pos (length o.content)) o.descriptor.length
    && digest_bytes P o.content == o.descriptor.sha256

abbrev pub stored_right : ArtifactDescriptor → Bool
stored_right a =
    digest_pattern a.sha256
    && a.path == object_path a.sha256
    && int_le a.length (pos max_object_size)

abbrev pub right : Primitives → Dict Item → VerifiedObject → Bool
right P items o =
    stored_right o.descriptor
    && sized_right P o
    && o.content == source_content items o.descriptor.path

abbrev pub by_artifact : VerifiedObject → Bytes
by_artifact o = o.descriptor.artifact_id

module _ (P : Primitives) (items : Dict Item) where
  read_object-ok :
      (s : List VerifiedObject) (a : ArtifactDescriptor) (t : List VerifiedObject)
      → read_object P items s a ≡ ok t
      → (t ≡ s ++ verified items a ∷ []) × (sized_right P (verified items a) ≡ true)
  unfolding read_object
  read_object-ok s a t h = or_fail_elim _ _ _ h λ item found h₁. refuse_elim _ _ _ h₁ λ regular h₂.
      refuse_elim _ _ _ h₂ λ long h₃. refuse_elim _ _ _ h₃ λ digest out.
        let same : content_of item ≡ source_content items a.path =
          rw (source_content, found) refl in
        let now = sym (ok-injective out) in
        (
          now ∙ ap (λ c. s ++ record { descriptor = a; content = c } ∷ []) same,
          subst (λ c. sized_right P (record { descriptor = a; content = c }) ≡ true) same
              (ground (arith, long, digest)),
        )

  all-verified :
      (artifacts : List ArtifactDescriptor)
      → all (λ a. sized_right P (verified items a)) artifacts ≡ true
      → all stored_right artifacts ≡ true
      → all (right P items) (flat_map (λ a. verified items a ∷ []) artifacts) ≡ true
  unfolding all
  all-verified [] h k = refl
  all-verified (a ∷ artifacts) h k =
      let more = all-verified artifacts (ground (arith, h)) (ground (arith, k)) in
      let own = ==_refl (source_content items a.path) in
      let first : sized_right P (verified items a) ≡ true = ground (arith, h) in
      let stored : stored_right a ≡ true = ground (arith, k) in
      ground (arith, more, own, first, stored)

  -- What the loop has read, when the policy accepts the source.
  pub read-right :
      (source : Source) (source_root : Bytes) (read : List VerifiedObject)
      → validate source source_root ≡ ok tt
      → for_each (read_object P items) [] source.artifacts ≡ ok read
      → all (right P items) (sort_by by_artifact read) ≡ true
  read-right source source_root read policy h =
      let sizes =
        for_each-all (read_object P items) (λ a. sized_right P (verified items a))
          (λ s a t k. (read_object-ok s a t k).1) source.artifacts [] h in
      let whole =
        for_each-appends (read_object P items) (λ s. s) (λ a. verified items a ∷ [])
          (λ s a t k. (read_object-ok s a t k).0) source.artifacts [] h in
      let stored = all-of_mem stored_right source.artifacts (λ a m.
        let (digest, path, _, long, _, _, _, _) =
          validate-artifacts source source_root a policy m in
        ground (arith, digest, (==_iff _ _).1 path, long)) in
      let each =
        subst (λ l. all (right P items) l ≡ true) (sym whole)
          (all-verified source.artifacts sizes stored) in
      all-of_mem (right P items) (sort_by by_artifact read) (λ o m.
        all-mem (right P items) read each o ((Perm.mem_iff (sort_by-perm by_artifact read)).0 m))

  flat_map-descriptors :
      (artifacts : List ArtifactDescriptor)
      → map (λ (o : VerifiedObject). o.descriptor) (flat_map (λ a. verified items a ∷ []) artifacts)
        ≡ artifacts
  flat_map-descriptors [] = refl
  flat_map-descriptors (a ∷ artifacts) = ap (λ l. a ∷ l) (flat_map-descriptors artifacts)

  -- The descriptors are those of the source.
  pub read-descriptors :
      (artifacts : List ArtifactDescriptor) (read : List VerifiedObject)
      → for_each (read_object P items) [] artifacts ≡ ok read
      → map (λ (o : VerifiedObject). o.descriptor) read ≡ artifacts
  read-descriptors artifacts read h =
      let whole =
        for_each-appends (read_object P items) (λ s. s) (λ a. verified items a ∷ [])
          (λ s a t k. (read_object-ok s a t k).0) artifacts [] h in
      ap (map (λ (o : VerifiedObject). o.descriptor)) whole ∙ flat_map-descriptors artifacts
