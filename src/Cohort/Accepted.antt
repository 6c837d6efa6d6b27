-- ===== src/Cohort/Accepted.antt =====
-- What `BuildCandidate` (internal/cohort/builder.go) publishes, and the checks of the signer
-- (internal/signing/candidate.go) on it.
use mathlib.Core.List.Perm
use unlock_catalog_publisher.Base.{
  false, ◌≡◌, refl, sym, ap, subst, ◌∙◌, List, [], ◌∷◌, map, Nodup, Bytes, Dict, none, some, keys,
  lookup, ok, for_each, refuse_elim, or_fail_elim, bind_elim, then_elim, wrap_then_elim,
  ok-injective,
}
use unlock_catalog_publisher.Base.Sort.{sort_by-map, sort_by, sort_by-perm, sort_by-IsSorted}
use unlock_catalog_publisher.Base.Paths.{join_path}
use unlock_catalog_publisher.Base.Paths.Dir.{dir}
use unlock_catalog_publisher.Base.Items.{Item, plain}
use unlock_catalog_publisher.Time.{Time}
use unlock_catalog_publisher.Primitives.{Primitives, digest_bytes}
use unlock_catalog_publisher.Catalog.Types.{Source, SigningRequest, ArtifactDescriptor}
use unlock_catalog_publisher.Catalog.Normalize.{manifest_from_source}
use unlock_catalog_publisher.Policy.Validate.{validate}
use unlock_catalog_publisher.Policy.Contained.{by_id, validate-loops}
use unlock_catalog_publisher.Signing.Candidate.Types.{manifest_payload_name, signing_request_name}
use unlock_catalog_publisher.Signing.Candidate.Reading.{mode_file, validate_objects}
use unlock_catalog_publisher.Signing.Candidate.Request.{match_objects}
use unlock_catalog_publisher.Signing.Candidate.Tree.{validate_candidate_tree}
use unlock_catalog_publisher.Signing.Candidate.Exact.{validate_candidate_tree_iff}
use unlock_catalog_publisher.Cohort.Types.{Candidate, VerifiedObject, SourceDirectory}
use unlock_catalog_publisher.Cohort.Sources.{read_object}
use unlock_catalog_publisher.Cohort.Published.{write_candidate-IsPublished, IsPublished-IsExact}
use unlock_catalog_publisher.Cohort.Write.{write_candidate}
use unlock_catalog_publisher.Cohort.Build.{
  read_source, BuildTools, signing_request, build_candidate,
}
use unlock_catalog_publisher.Cohort.Objects.{by_artifact, read-right, read-descriptors}
use unlock_catalog_publisher.Cohort.Layout.{signed_objects}
use unlock_catalog_publisher.Cohort.Checked.{
  validate_objects-ok, descriptors, match_objects-ok, starts_after-none,
}

ids-descriptors :
    (read : List VerifiedObject) → map by_artifact read ≡ keys (by_id (descriptors read))
ids-descriptors [] = refl
ids-descriptors (o ∷ read) = ap (λ l. by_artifact o ∷ l) (ids-descriptors read)

-- The IDs of the objects are those of the source, each once.
sorted-Nodup :
    (P : Primitives) (items : Dict Item) (source : Source) (source_root : Bytes)
    (read : List VerifiedObject)
    → validate source source_root ≡ ok tt
    → for_each (read_object P items) [] source.artifacts ≡ ok read
    → Nodup (map by_artifact (sort_by by_artifact read))
sorted-Nodup P items source source_root read policy h =
    let (_, once, _) = validate-loops source source_root policy in
    let same =
      ids-descriptors read
      ∙ ap (λ l. keys (by_id l)) (read-descriptors P items source.artifacts read h) in
    Perm.nodup (Perm.map by_artifact (Perm.symm (sort_by-perm by_artifact read)))
      (subst Nodup (sym same) once)

-- The descriptors of the sorted objects are the sorted artifacts.
sorted-descriptors :
    (P : Primitives) (items : Dict Item) (artifacts : List ArtifactDescriptor)
    (read : List VerifiedObject)
    → for_each (read_object P items) [] artifacts ≡ ok read
    → descriptors (sort_by by_artifact read)
      ≡ sort_by (λ (a : ArtifactDescriptor). a.artifact_id) artifacts
sorted-descriptors P items artifacts read h =
    sym (sort_by-map (λ (o : VerifiedObject). o.descriptor) (λ a. a.artifact_id) read)
    ∙ ap (sort_by (λ (a : ArtifactDescriptor). a.artifact_id))
        (read-descriptors P items artifacts read h)

module _ (P : Primitives) (T : BuildTools) where
  -- The two documents of a candidate, and its directory.
  pub record IsAccepted (root : SourceDirectory) (source_file output_root : Bytes) (epoch : Time)
      (candidate : Candidate) (written : Dict Item) : Type 0 where
    pub source : Source
    pub payload : Bytes
    pub request : SigningRequest
    pub request_bytes : Bytes
    pub source_there : read_source P T root ≡ ok source
    pub policy_accepts : validate source (dir source_file) ≡ ok tt
    pub destination :
        (candidate.directory ≡ join_path output_root source.source_id)
        × (T.exists candidate.directory ≡ false)
    pub identity :
        (candidate.source_id ≡ source.source_id)
        × (request.source_id ≡ source.source_id)
        × (request.version ≡ source.version)
    pub payload_there : lookup manifest_payload_name written ≡ some (plain mode_file payload)
    pub request_there : lookup signing_request_name written ≡ some (plain mode_file request_bytes)
    pub payload_canonical : T.canonical_manifest (manifest_from_source source epoch) ≡ some payload
    pub request_marshalled : T.marshal_request request ≡ some request_bytes
    pub digests :
        (candidate.payload_sha256 ≡ digest_bytes P payload)
        × (request.payload_sha256 ≡ digest_bytes P payload)
    pub tree_accepted : validate_candidate_tree written request.objects ≡ ok tt
    pub objects_accepted : validate_objects P written request.objects ≡ ok tt
    pub objects_match :
        match_objects none (sort_by (λ a. a.artifact_id) source.artifacts) request.objects ≡ ok tt

  abbrev made_candidate : Source → Bytes → Bytes → Candidate
  made_candidate source payload output_root = record {
    source_id = source.source_id;
    directory = join_path output_root source.source_id;
    payload_sha256 = digest_bytes P payload;
  }

  abbrev made_request : Source → Time → Bytes → List VerifiedObject → SigningRequest
  made_request source epoch payload objects =
      signing_request source (manifest_from_source source epoch) (digest_bytes P payload) objects

  -- What follows from the steps before the writing.
  written-IsAccepted :
      (root : SourceDirectory) (source_file output_root : Bytes) (epoch : Time) (source : Source)
      (read : List VerifiedObject) (payload request_bytes : Bytes)
      → read_source P T root ≡ ok source
      → validate source (dir source_file) ≡ ok tt
      → for_each (read_object P root.items) [] source.artifacts ≡ ok read
      → T.canonical_manifest (manifest_from_source source epoch) ≡ some payload
      → T.marshal_request (made_request source epoch payload (sort_by by_artifact read))
        ≡ some request_bytes
      → T.exists (join_path output_root source.source_id) ≡ false
      → (disk : Dict Item) × (write_candidate payload request_bytes (sort_by by_artifact read)
          ≡ ok disk)
        × IsAccepted root source_file output_root epoch
            (made_candidate source payload output_root)
            disk
  unfolding signing_request
  written-IsAccepted root source_file output_root epoch source read payload request_bytes found
        policy reads canonical marshalled absent =
      let objects = sort_by by_artifact read in
      let all_right = read-right P root.items source (dir source_file) read policy reads in
      let (disk, succeeds, w) =
        write_candidate-IsPublished P root.items payload request_bytes objects all_right in
      let exact = IsPublished-IsExact P root.items payload request_bytes objects all_right disk w in
      let matched =
        match_objects-ok none objects (starts_after-none objects)
          (sort_by-IsSorted by_artifact read)
          (sorted-Nodup P root.items source (dir source_file) read policy reads) in
      (
        disk,
        succeeds,
        record {
          source = source;
          payload = payload;
          request = made_request source epoch payload objects;
          request_bytes = request_bytes;
          source_there = found;
          policy_accepts = policy;
          destination = (refl, absent);
          identity = (refl, refl, refl);
          payload_there = w.payload_there;
          request_there = w.request_there;
          payload_canonical = canonical;
          request_marshalled = marshalled;
          digests = (refl, refl);
          tree_accepted = (validate_candidate_tree_iff disk (signed_objects objects)).1 exact;
          objects_accepted = validate_objects-ok P root.items disk objects all_right w.all_there;
          objects_match =
              subst (λ l. match_objects none l (signed_objects objects) ≡ ok tt)
                (sorted-descriptors P root.items source.artifacts read reads) matched;
        },
      )

  -- A candidate that is built comes from the source document, which the policy accepts, and goes to a path where
  -- nothing was. It holds the canonical payload of the source's manifest and the request that names its digest,
  -- and the signer's checks of the candidate's tree, of its objects and of their agreement with the sorted
  -- artifacts of the manifest accept what was written.
  pub build_candidate-IsAccepted :
      (root : SourceDirectory) (source_file output_root : Bytes) (epoch : Time)
      (candidate : Candidate) (written : Dict Item)
      → build_candidate P T root source_file output_root epoch ≡ ok (candidate, written)
      → IsAccepted root source_file output_root epoch candidate written
  unfolding build_candidate
  build_candidate-IsAccepted root source_file output_root epoch candidate written h =
      refuse_elim _ _ _ h λ dated h₁. refuse_elim _ _ _ h₁ λ named h₂.
        bind_elim _ _ h₂ λ source found h₃. wrap_then_elim _ _ _ h₃ λ policy h₄.
          then_elim _ _ h₄ λ tree h₅. bind_elim _ _ h₅ λ read reads h₆.
            or_fail_elim _ _ _ h₆ λ payload canonical h₇.
              or_fail_elim _ _ _ h₇ λ request_bytes marshalled h₈. refuse_elim _ _ _ h₈ λ absent h₉.
                bind_elim _ _ h₉ λ made writes out.
                  let (disk, succeeds, accepted) =
                    written-IsAccepted root source_file output_root epoch source read payload
                      request_bytes found policy reads canonical marshalled absent in
                  let whole = ok-injective out in
                  let same : disk ≡ written =
                    ok-injective (sym succeeds ∙ writes) ∙ ap (λ p. p.1) whole in
                  subst (λ c. IsAccepted root source_file output_root epoch c written)
                    (ap (λ p. p.0) whole)
                    (subst
                      (λ d.
                        IsAccepted root source_file output_root epoch
                          (made_candidate source payload output_root) d)
                      same accepted)
