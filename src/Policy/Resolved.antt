-- ===== src/Policy/Resolved.antt =====
-- The references of a source that `Validate` accepts (internal/policy/validate.go).
use unlock_catalog_publisher.Base.{
  ℕ, ◌+◌, ◌≡◌, ap, subst, sym, Bool, true, not, ◌||◌, ◌&&◌, List, [], ◌∷◌, ◌++◌, Mem, Bytes, Dict,
  arith, eqb, all, all-mem, keys, lookup, lookup-insert, contains, contains-mem, Result, ok,
  for_each, ok-injective, bind_elim, refuse_elim, ◌>>◌, not-eq-false, ◌==◌, if◌then◌else◌,
}
use unlock_catalog_publisher.Base.Growth.{flat_map, for_each-all, contains-append}
use unlock_catalog_publisher.Catalog.Types.{
  Source, Entry, ArtifactDescriptor, ArtifactComponent, RoutingComponent, DetectionComponent,
  permission_metadata, permission_routing_data, permission_detection_data, permission_executable,
}
use unlock_catalog_publisher.Policy.Types.{PolicyError}
use unlock_catalog_publisher.Policy.References.{
  count, refer, resolves, refer_metadata, refer_routing, refer_detected, refer_detection,
  refer_entry, check_referenced, validate_references,
}
use unlock_catalog_publisher.Policy.Validate.{validate}
use unlock_catalog_publisher.Policy.Writers.{flat_map-singleton}
use unlock_catalog_publisher.Policy.Contained.{by_id, validate-loops}

-- Each component of the entry names artifacts of the entry with the permission of its kind, and a
-- detection component names none twice.
abbrev pub resolved : Dict ArtifactDescriptor → Entry → Bool
resolved artifacts entry =
    let here = resolves artifacts entry.entry_id in
    all (λ c. here (λ p. p == permission_metadata) c.artifact_id) entry.metadata
    && all (λ c. c.artifact_id == [] || here (λ p. p == permission_routing_data) c.artifact_id)
        entry.routing
    && all
        (λ c.
          all (here λ p. p == permission_detection_data || p == permission_executable)
            c.artifact_ids)
        entry.detection

-- The artifact IDs that the components of an entry name.
abbrev pub mentions : Entry → List Bytes
mentions entry =
    flat_map (λ c. c.artifact_id ∷ []) entry.metadata
    ++ (flat_map (λ c. if c.artifact_id == [] then [] else c.artifact_id ∷ []) entry.routing
        ++ flat_map (λ c. c.artifact_ids) entry.detection)

-- `references[id] != 0`
abbrev referred : Bytes → Dict ℕ → Bool
referred id references = not (eqb (count id references) 0)

refer-referred :
    (id k : Bytes) (references : Dict ℕ)
    → referred k (refer id references) ≡ true
    → referred k references || id == k ≡ true
unfolding refer
refer-referred id k references h =
    ground (arith, lookup-insert id k (count id references + 1) references)

module _ {ℓ κ} {S : Type ℓ} {X : Type κ} (body : S → X → Result PolicyError S) (g : S → Dict ℕ)
    (f : X → List Bytes) (k : Bytes) where
  for_each-referred :
      ((s : S) (x : X) (t : S)
        → body s x ≡ ok t
        → referred k (g t) ≡ true
        → referred k (g s) || contains k (f x) ≡ true)
      → (xs : List X) (s : S) {t : S} → for_each body s xs ≡ ok t
      → referred k (g t) ≡ true
      → referred k (g s) || contains k (flat_map f xs) ≡ true
  unfolding for_each contains
  for_each-referred step [] s {t} h r =
      let same : g s ≡ g t = ap g (ok-injective h) in
      let back : referred k (g s) ≡ true = subst (λ d. referred k d ≡ true) (sym same) r in
      ground arith
  for_each-referred step (x ∷ xs) s h r = bind_elim _ _ h λ s' first rest.
      let later = for_each-referred step xs s' rest r in
      ground (arith, contains-append k (f x) (flat_map f xs), step s x s' first)

module _ (artifacts : Dict ArtifactDescriptor) (owner : Bytes) where
  refer_metadata-ok :
      (s : Dict ℕ) (c : ArtifactComponent) (t : Dict ℕ)
      → refer_metadata artifacts owner s c ≡ ok t
      → (resolves artifacts owner (λ p. p == permission_metadata) c.artifact_id ≡ true)
        × (t ≡ refer c.artifact_id s)
  unfolding refer_metadata
  refer_metadata-ok s c t h =
      refuse_elim _ _ _ h λ found out. (not-eq-false _ found, sym (ok-injective out))

  refer_routing-ok :
      (s : Dict ℕ) (c : RoutingComponent) (t : Dict ℕ)
      → refer_routing artifacts owner s c ≡ ok t
      → (c.artifact_id == []
            || resolves artifacts owner (λ p. p == permission_routing_data) c.artifact_id
          ≡ true)
        × (t ≡ (if c.artifact_id == [] then s else refer c.artifact_id s))
  unfolding refer_routing ◌>>◌
  refer_routing-ok s c t h = ground arith

  refer_detected-ok :
      (s : List Bytes × Dict ℕ) (id : Bytes) (t : List Bytes × Dict ℕ)
      → refer_detected artifacts owner s id ≡ ok t
      → (resolves artifacts owner
            (λ p. p == permission_detection_data || p == permission_executable)
            id
          ≡ true)
        × (t.1 ≡ refer id (s.1))
  unfolding refer_detected
  refer_detected-ok s id t h = refuse_elim _ _ _ h λ fresh h₁.
      refuse_elim _ _ _ h₁
        λ found out. (not-eq-false _ found, ap (λ r. r.1) (sym (ok-injective out)))

  refer_detection-ok :
      (s : Dict ℕ) (c : DetectionComponent) (t : Dict ℕ)
      → refer_detection artifacts owner s c ≡ ok t
      → (all
            (resolves artifacts owner
              λ p. p == permission_detection_data || p == permission_executable)
            c.artifact_ids
          ≡ true)
        × ((k : Bytes) → referred k t ≡ true → referred k s || contains k c.artifact_ids ≡ true)
  unfolding refer_detection contains
  refer_detection-ok s c t h = bind_elim _ _ h λ r loop out.
      let body = refer_detected artifacts owner in
      let same : r.1 ≡ t = ok-injective out in
      (
        for_each-all body _ (λ u x v e. (refer_detected-ok u x v e).0) c.artifact_ids ([], s) loop,
        λ k hit.
            subst (λ l. referred k s || contains k l ≡ true) (flat_map-singleton c.artifact_ids)
              (for_each-referred body (λ u. u.1) (λ x. x ∷ []) k
                (λ u x v e found. ground (
                  arith,
                  refer-referred x k (u.1)
                      (subst (λ d. referred k d ≡ true) (refer_detected-ok u x v e).1 found),
                ))
                c.artifact_ids ([], s) loop (subst (λ d. referred k d ≡ true) (sym same) hit)),
      )

refer_entry-ok :
    (artifacts : Dict ArtifactDescriptor) (s : Dict ℕ) (entry : Entry) (t : Dict ℕ)
    → refer_entry artifacts s entry ≡ ok t
    → (resolved artifacts entry ≡ true)
      × ((k : Bytes) → referred k t ≡ true → referred k s || contains k (mentions entry) ≡ true)
unfolding refer_entry contains
refer_entry-ok artifacts s entry t h = bind_elim _ _ h λ a metadata h₁.
    bind_elim _ _ h₁ λ b routing detection.
      let owner = entry.entry_id in
      let m =
        for_each-all (refer_metadata artifacts owner) _
          (λ u x v e. (refer_metadata-ok artifacts owner u x v e).0) entry.metadata s metadata in
      let r =
        for_each-all (refer_routing artifacts owner) _
          (λ u x v e. (refer_routing-ok artifacts owner u x v e).0) entry.routing a routing in
      let d =
        for_each-all (refer_detection artifacts owner) _
          (λ u x v e. (refer_detection-ok artifacts owner u x v e).0) entry.detection b detection in
      (
        ground (arith, m, r, d),
        λ k hit.
            let by_detection =
              for_each-referred (refer_detection artifacts owner) (λ u. u) (λ c. c.artifact_ids) k
                (λ u x v e. (refer_detection-ok artifacts owner u x v e).1 k) entry.detection b
                detection hit in
            let by_routing =
              for_each-referred (refer_routing artifacts owner) (λ u. u)
                (λ c. if c.artifact_id == [] then [] else c.artifact_id ∷ []) k
                (λ u x v e found.
                  let made =
                    subst (λ r. referred k r ≡ true) (refer_routing-ok artifacts owner u x v e).1
                      found in
                  ground (arith, refer-referred x.artifact_id k u))
                entry.routing a routing in
            let by_metadata =
              for_each-referred (refer_metadata artifacts owner) (λ u. u) (λ c. c.artifact_id ∷ [])
                k
                (λ u x v e found.
                  let made =
                    subst (λ r. referred k r ≡ true) (refer_metadata-ok artifacts owner u x v e).1
                      found in
                  ground (arith, refer-referred x.artifact_id k u))
                entry.metadata s metadata in
            let parts = contains-append k (flat_map (λ c. c.artifact_id ∷ []) entry.metadata) (
              flat_map (λ c. if c.artifact_id == [] then [] else c.artifact_id ∷ []) entry.routing
              ++ flat_map (λ c. c.artifact_ids) entry.detection) in
            let more =
              contains-append k
                (flat_map (λ c. if c.artifact_id == [] then [] else c.artifact_id ∷ [])
                  entry.routing)
                (flat_map (λ c. c.artifact_ids) entry.detection) in
            ground arith,
      )

validate_references-ok :
    (entries : List Entry) (artifacts : Dict ArtifactDescriptor)
    → validate_references entries artifacts ≡ ok tt
    → (all (resolved artifacts) entries ≡ true)
      × (all (λ id. contains id (flat_map mentions entries)) (keys artifacts) ≡ true)
unfolding validate_references check_referenced lookup
validate_references-ok entries artifacts h = bind_elim _ _ h λ references first second. (
  for_each-all (refer_entry artifacts) _ (λ u x v e. (refer_entry-ok artifacts u x v e).0) entries
      [] first,
  for_each-all (check_referenced references) _
      (λ u id v e. ground (
        arith,
        for_each-referred (refer_entry artifacts) (λ d. d) mentions id
            (λ a x b e. (refer_entry-ok artifacts a x b e).1 id) entries [] first,
      ))
      (keys artifacts) tt second,
)

-- In an accepted source each component names artifacts of its own entry with the permission of its
-- kind, and each artifact is named by a component.
pub validate-references :
    (source : Source) (source_root : Bytes)
    → validate source source_root ≡ ok tt
    → ((entry : Entry) → Mem entry source.entries → resolved (by_id source.artifacts) entry ≡ true)
      × ((id : Bytes)
          → Mem id (keys (by_id source.artifacts))
          → Mem id (flat_map mentions source.entries))
validate-references source source_root h =
    let (_, _, checked) = validate-loops source source_root h in
    let (good, named) = validate_references-ok source.entries (by_id source.artifacts) checked in
    (
      all-mem _ source.entries good,
      λ id m. contains-mem id _ (all-mem _ (keys (by_id source.artifacts)) named id m),
    )
