-- ===== src/Policy/Contained.antt =====
-- The artifacts of a source that `Validate` accepts (internal/policy/validate.go).
use mathlib.Core.List.{Nodup-nil, Mem-prop}
use mathlib.Core.Bool.{Bool-set}
use unlock_catalog_publisher.Base.{
  ◌≡◌, ◌≢◌, refl, ap, subst, sym, ◌∙◌, Bool, true, false, not, ◌&&◌, List, [], ◌∷◌, Mem, Nodup,
  Bytes, Bytes-set, Dict, arith, keys, has_key, has_key-contains, insert, contains, contains-mem,
  mem-contains, none, some, ok, ok-injective, bind_elim, then_elim, refuse_elim, or_fail_elim,
  not-eq-false, ==_iff, ◌==◌,
}
use unlock_catalog_publisher.Base.Int.{pos, int_lt, int_le}
use unlock_catalog_publisher.Base.Patterns.{digest_pattern}
use unlock_catalog_publisher.Base.Growth.{
  flat_map, Grows, insert-Grows, insert_fresh, for_each-Grows, for_each-appends, for_each-each,
}
use unlock_catalog_publisher.Catalog.Types.{
  Source, Entry, ArtifactDescriptor, Cohort, Permission, permission_executable, same_platform,
}
use unlock_catalog_publisher.Policy.Artifact.{
  validate_artifact, check_platform, object_path, media_allowed, max_object_size,
}
use unlock_catalog_publisher.Policy.Validate.{
  validate, validate_header, add_entry, add_artifact, data_source_id, data_permissions,
  want_permissions, equal_permissions,
}
use unlock_catalog_publisher.Policy.References.{validate_references}
use unlock_catalog_publisher.Policy.Components.{add_entry-Grows}

-- Executable artifacts have the platform of the cohort, and others have none.
abbrev pub fits : ArtifactDescriptor → Cohort → Bool
fits artifact cohort = elim artifact.platform [
  | none ↦ not (artifact.permission == permission_executable)
  | some platform ↦
      artifact.permission == permission_executable
      && same_platform platform (record { os = cohort.os; arch = cohort.arch; abi = cohort.abi })
]

-- The artifact is stored where its digest says, within the bounds of the policy, and belongs to an
-- entry of the source.
abbrev pub IsContained : Source → List Bytes → ArtifactDescriptor → Type 0
IsContained source entry_ids artifact =
    (digest_pattern artifact.sha256 ≡ true)
    × (artifact.path ≡ object_path artifact.sha256)
    × (int_lt (pos 0) artifact.length ≡ true)
    × (int_le artifact.length (pos max_object_size) ≡ true)
    × (media_allowed artifact.permission artifact.media_type ≡ true)
    × (fits artifact source.cohort ≡ true)
    × Mem artifact.permission source.permissions
    × Mem artifact.entry_id entry_ids

check_platform-fits :
    (artifact : ArtifactDescriptor) (cohort : Cohort)
    → check_platform artifact cohort ≡ ok tt
    → fits artifact cohort ≡ true
unfolding check_platform
check_platform-fits artifact cohort h = ground arith

validate_artifact-ok :
    (artifact : ArtifactDescriptor) (cohort : Cohort)
    → validate_artifact artifact cohort ≡ ok tt
    → (digest_pattern artifact.sha256 ≡ true)
      × (artifact.path ≡ object_path artifact.sha256)
      × (int_lt (pos 0) artifact.length ≡ true)
      × (int_le artifact.length (pos max_object_size) ≡ true)
      × (media_allowed artifact.permission artifact.media_type ≡ true)
      × (fits artifact cohort ≡ true)
unfolding validate_artifact
validate_artifact-ok artifact cohort h = refuse_elim _ _ _ h λ sized h₁.
    refuse_elim _ _ _ h₁ λ located h₂. refuse_elim _ _ _ h₂ λ typed h₃. (
      ground arith,
      (==_iff _ _).0 (not-eq-false _ located),
      ground arith,
      ground arith,
      not-eq-false _ typed,
      check_platform-fits artifact cohort h₃,
    )

-- What a pass of the loop over the artifacts has checked.
add_artifact-ok :
    (source : Source) (entries : Dict Entry) (s : Dict ArtifactDescriptor × Bool)
    (artifact : ArtifactDescriptor) (t : Dict ArtifactDescriptor × Bool)
    → add_artifact source entries s artifact ≡ ok t
    → IsContained source (keys entries) artifact
      × (has_key artifact.artifact_id (s.0) ≡ false)
      × (t.0 ≡ insert artifact.artifact_id artifact (s.0))
unfolding add_artifact
add_artifact-ok source entries s artifact t h = refuse_elim _ _ _ h λ valid h₁.
    refuse_elim _ _ _ h₁ λ fresh h₂. refuse_elim _ _ _ h₂ λ owned h₃.
      refuse_elim _ _ _ h₃ λ permitted h₄. then_elim _ _ h₄ λ checked out.
        let (a, b, c, d, e, f) = validate_artifact-ok artifact source.cohort checked in
        (
          (
            a,
            b,
            c,
            d,
            e,
            f,
            contains-mem _ _ (not-eq-false _ permitted),
            contains-mem _ _
                (sym (has_key-contains artifact.entry_id entries) ∙ not-eq-false _ owned),
          ),
          fresh,
          ap (λ r. r.0) (sym (ok-injective out)),
        )

abbrev pub entry_ids : List Entry → List Bytes
entry_ids = flat_map λ e. e.entry_id ∷ []

abbrev pub by_id : List ArtifactDescriptor → Dict ArtifactDescriptor
by_id = flat_map λ a. (a.artifact_id, a) ∷ []

IsContained-prop :
    (source : Source) (ids : List Bytes) (artifact : ArtifactDescriptor)
    → IsProp (IsContained source ids artifact)
IsContained-prop source ids artifact = hlevel (Bool-set, Bytes-set, Mem-prop)

-- What the loops of `Validate` leave behind: the entries' IDs, and the artifacts under theirs.
pub validate-loops :
    (source : Source) (source_root : Bytes)
    → validate source source_root ≡ ok tt
    → ((artifact : ArtifactDescriptor)
        → Mem artifact source.artifacts
        → IsContained source (entry_ids source.entries) artifact)
      × Nodup (keys (by_id source.artifacts))
      × (validate_references source.entries (by_id source.artifacts) ≡ ok tt)
unfolding validate
validate-loops source source_root h = then_elim _ _ h λ header h₁. bind_elim _ _ h₁ λ s first h₂.
    refuse_elim _ _ _ h₂ λ some_entry h₃. bind_elim _ _ h₃ λ r second h₄.
      refuse_elim _ _ _ h₄ λ some_artifact h₅. refuse_elim _ _ _ h₅ λ quiet h₆.
        refuse_elim _ _ _ h₆ λ exec h₇. then_elim _ _ h₇ λ references revocations.
          let (ids, _) =
            for_each-Grows add_entry (λ r. keys (r.0)) (λ e. e.entry_id ∷ [])
              (λ r x u e. (add_entry-Grows r x u e).0) source.entries ([], []) first in
          let step = add_artifact-ok source (s.0) in
          let body = add_artifact source (s.0) in
          let all_there =
            for_each-appends body (λ t. t.0) (λ a. (a.artifact_id, a) ∷ [])
              (λ t a u e. (step t a u e).2 ∙ insert_fresh a.artifact_id a (t.0) (step t a u e).1)
              source.artifacts ([], false) second in
          let (grown, once) =
            for_each-Grows body (λ t. keys (t.0)) (λ a. a.artifact_id ∷ [])
              (λ t a u e.
                subst (λ d. Grows (keys (t.0)) (keys d) (a.artifact_id ∷ [])) (sym (step t a u e).2)
                  (insert-Grows a.artifact_id a (t.0) (step t a u e).1))
              source.artifacts ([], false) second in
          (
            λ a m.
                subst (λ l. IsContained source l a) ids
                  (for_each-each body (IsContained source (keys (s.0)))
                    (λ t x u e. (step t x u e).0) source.artifacts ([], false) second a m
                    (IsContained-prop source (keys (s.0)) a)),
            subst (λ d. Nodup (keys d)) all_there (once Nodup-nil),
            subst (λ d. validate_references source.entries d ≡ ok tt) all_there references,
          )

-- Each artifact of an accepted source is stored under its digest, is not longer than 64 MiB, has a
-- permission of the source and a media type of that permission, and belongs to one of its entries.
pub validate-artifacts :
    (source : Source) (source_root : Bytes) (artifact : ArtifactDescriptor)
    → validate source source_root ≡ ok tt
    → Mem artifact source.artifacts
    → IsContained source (entry_ids source.entries) artifact
validate-artifacts source source_root artifact h m =
    (validate-loops source source_root h).0 artifact m

equal_permissions_sound :
    (got want : List Permission) → equal_permissions got want ≡ true → got ≡ want
unfolding equal_permissions
equal_permissions_sound [] [] h = refl
equal_permissions_sound (p ∷ got) (q ∷ want) h =
    ground (arith, equal_permissions_sound got want, ==_iff p q)
equal_permissions_sound [] (q ∷ want) h = cc
equal_permissions_sound (p ∷ got) [] h = cc

validate_header-permissions :
    (source : Source) (source_root : Bytes)
    → validate_header source source_root ≡ ok tt
    → want_permissions source.source_id ≡ some source.permissions
unfolding validate_header
validate_header-permissions source source_root h = refuse_elim _ _ _ h λ rooted h₁.
    refuse_elim _ _ _ h₁ λ schema h₂. refuse_elim _ _ _ h₂ λ lifetime h₃.
      refuse_elim _ _ _ h₃ λ compatible h₄. refuse_elim _ _ _ h₄ λ cohort h₅.
        or_fail_elim _ _ _ h₅ λ want wanted out.
          let same = equal_permissions_sound source.permissions want (ground arith) in
          wanted ∙ ap some (sym same)

executable_not_data : contains permission_executable data_permissions ≡ false
unfolding contains ◌==◌
executable_not_data = refl

-- The data source has no executable artifact.
pub validate-data_source :
    (source : Source) (source_root : Bytes) (artifact : ArtifactDescriptor)
    → validate source source_root ≡ ok tt
    → source.source_id ≡ data_source_id
    → Mem artifact source.artifacts
    → artifact.permission ≢ permission_executable
unfolding validate want_permissions
validate-data_source source source_root artifact h data_source m e = then_elim _ _ h λ header rest.
    let (_, _, _, _, _, _, permitted, _) = validate-artifacts source source_root artifact h m in
    let wanted = validate_header-permissions source source_root header in
    let same : source.permissions ≡ data_permissions =
      ground (arith, ==_iff source.source_id data_source_id) in
    let listed : Mem permission_executable data_permissions =
      subst (Mem permission_executable) same (subst (λ p. Mem p source.permissions) e permitted) in
    cc (mem-contains permission_executable data_permissions listed, executable_not_data)
