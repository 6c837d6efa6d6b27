-- ===== src/Signing/Candidate/Holds.antt =====
-- What a candidate that `inspectCandidate` (internal/signing/candidate.go) accepts holds on the disk.
use unlock_catalog_publisher.Base.{
  ◌≡◌, refl, sym, ap, subst, ◌∙◌, true, ◌&&◌, ==_iff, List, [], Bytes, Dict, Option, none, some,
  arith, eqb, all, lookup, ok, refuse_elim, or_fail_elim, bind_elim, then_elim, wrap_then_elim,
  wrap-eq-ok, ok-injective, not-eq-false, or_fail-eq-ok, some-injective,
}
use unlock_catalog_publisher.Base.Items.{Item, plain}
use unlock_catalog_publisher.Primitives.{Primitives, digest_bytes}
use unlock_catalog_publisher.Json.Walk.{Token}
use unlock_catalog_publisher.Json.Values.{Value, emit, unique}
use unlock_catalog_publisher.Json.Complete.{reject_duplicate_json_fields_iff}
use unlock_catalog_publisher.Catalog.Types.{Manifest, SigningRequest}
use unlock_catalog_publisher.Policy.Validate.{validate}
use unlock_catalog_publisher.Signing.Provider.{PreparedCandidate}
use unlock_catalog_publisher.Signing.Candidate.Types.{
  CandidateDirectory, root_unopenable, manifest_payload_name, signing_request_name,
  max_payload_bytes, max_request_bytes, decode_strict_json, reject_duplicate_json_members,
}
use unlock_catalog_publisher.Signing.Candidate.Reading.{mode_file, mode_directory}
use unlock_catalog_publisher.Signing.Candidate.Request.{
  duration, source_of, candidate_path, validate_request_and_policy,
}
use unlock_catalog_publisher.Signing.Candidate.Inspect.{
  CandidateTools, validate_candidate_root, inspect_candidate,
}
use unlock_catalog_publisher.Signing.Candidate.Held.{
  IsRead-there, object_held, artifact_held, validate_objects-held, match_objects-held,
}
use unlock_catalog_publisher.Signing.Candidate.Exact.{IsExact, validate_candidate_tree_iff}

module _ (P : Primitives) (items : Dict Item) where
  validate_request_and_policy-ok :
      (manifest : Manifest) (request : SigningRequest) (payload : Bytes)
      → validate_request_and_policy P manifest request payload ≡ ok tt
      → all (object_held P items) request.objects ≡ true
      → (request.source_id ≡ manifest.source_id)
        × (request.payload_sha256 ≡ digest_bytes P payload)
        × (validate
              (source_of manifest request (duration request.expires_at request.published_at))
              (candidate_path manifest.source_id)
            ≡ ok tt)
        × (all (artifact_held P items) manifest.artifacts ≡ true)
  unfolding validate_request_and_policy source_of
  validate_request_and_policy-ok manifest request payload h k = refuse_elim _ _ _ h λ schema h₁.
      refuse_elim _ _ _ h₁ λ policy h₂. refuse_elim _ _ _ h₂ λ same h₃.
        refuse_elim _ _ _ h₃ λ utc h₄. refuse_elim _ _ _ h₄ λ digest h₅.
          refuse_elim _ _ _ h₅ λ positive h₆. wrap_then_elim _ _ _ h₆ λ accepted h₇.
            refuse_elim _ _ _ h₇ λ count matched. (
              (==_iff _ _).0 (ground (arith, same)),
              (==_iff _ _).0 (not-eq-false _ digest),
              accepted,
              match_objects-held P items none manifest.artifacts request.objects matched
                  (not-eq-false _ count) k,
            )

-- A document that is decoded repeats no member of an object.
decode_strict_json-ok :
    {A : Type 0} (tokens : Bytes → List Token) (decode : Bytes → Option A) (content : Bytes) (a : A)
    → decode_strict_json tokens decode content ≡ ok a
    → (decode content ≡ some a) × ((v : Value) × (tokens content ≡ emit v []) × (unique v ≡ true))
unfolding decode_strict_json reject_duplicate_json_members
decode_strict_json-ok tokens decode content a h = refuse_elim _ _ _ h λ filled h₁.
    then_elim _ _ h₁ λ walked h₂. (
      or_fail-eq-ok _ _ h₂,
      (reject_duplicate_json_fields_iff (tokens content)).0 (wrap-eq-ok _ _ walked),
    )

module _ (P : Primitives) (T : CandidateTools) where
  -- The two documents of a candidate, as they stand on the disk and as they were decoded.
  pub record IsInspected (root : CandidateDirectory) (candidate : PreparedCandidate) : Type 0 where
    pub manifest : Manifest
    pub request : SigningRequest
    pub request_bytes : Bytes
    pub root_directory : (root.is_directory && eqb root.mode mode_directory) ≡ true
    pub payload_there :
        lookup manifest_payload_name root.items ≡ some (plain mode_file candidate.payload)
    pub request_there :
        lookup signing_request_name root.items ≡ some (plain mode_file request_bytes)
    pub payload_canonical : T.canonical_manifest manifest ≡ some candidate.payload
    pub request_canonical : T.marshal_request request ≡ some request_bytes
    pub payload_decoded : T.decode_manifest candidate.payload ≡ some manifest
    pub request_decoded : T.decode_request request_bytes ≡ some request
    pub payload_members : (v : Value) × (T.tokens candidate.payload ≡ emit v []) × (unique v ≡ true)
    pub identity :
        (root.name ≡ manifest.source_id) × (candidate.inspection.source_id ≡ manifest.source_id)
    pub digests :
        (candidate.inspection.request_digest ≡ digest_bytes P request_bytes)
        × (candidate.inspection.payload_sha256 ≡ digest_bytes P candidate.payload)
    pub policy_accepts :
        validate
          (source_of manifest request (duration request.expires_at request.published_at))
          (candidate_path manifest.source_id)
        ≡ ok tt
    pub tree_exact : IsExact root.items request.objects
    pub artifacts_held : all (artifact_held P root.items) manifest.artifacts ≡ true

  validate_candidate_root-ok :
      (opened : Option CandidateDirectory) (root : CandidateDirectory)
      → validate_candidate_root opened ≡ ok root
      → (opened ≡ some root) × ((root.is_directory && eqb root.mode mode_directory) ≡ true)
  unfolding validate_candidate_root
  validate_candidate_root-ok opened root h = or_fail_elim _ root_unopenable _ h λ found there h₁.
      refuse_elim _ _ _ h₁ λ right out.
        let same = ok-injective out in
        (
          there ∙ ap some same,
          subst (λ (r : CandidateDirectory). (r.is_directory && eqb r.mode mode_directory) ≡ true)
              same (ground (arith, right)),
        )

  -- A candidate that is accepted for signing is a directory of mode 0755 named by its source, whose payload is
  -- the canonical form of a manifest without repeated members; the digests that are signed are those of the two
  -- documents on the disk; the policy accepts the source that they describe; the tree holds the expected files and
  -- nothing else; and each artifact of the manifest is there with its digest and its length.
  pub inspect_candidate-IsInspected :
      (root : CandidateDirectory) (candidate : PreparedCandidate)
      → inspect_candidate P T (some root) ≡ ok candidate
      → IsInspected root candidate
  unfolding inspect_candidate
  inspect_candidate-IsInspected root candidate h = bind_elim _ _ h λ opened checked h₁.
      bind_elim _ _ h₁ λ payload payload_read h₂. bind_elim _ _ h₂ λ request_bytes request_read h₃.
        bind_elim _ _ h₃ λ manifest decoded h₄. or_fail_elim _ _ _ h₄ λ canonical encoded h₅.
          refuse_elim _ _ _ h₅ λ payload_same h₆. bind_elim _ _ h₆ λ request request_decoded h₇.
            or_fail_elim _ _ _ h₇ λ canonical_request marshalled h₈.
              refuse_elim _ _ _ h₈ λ request_same h₉. refuse_elim _ _ _ h₉ λ named h₁₀.
                then_elim _ _ h₁₀ λ policy h₁₁. then_elim _ _ h₁₁ λ tree h₁₂.
                  then_elim _ _ h₁₂ λ objects out.
                    let same : opened ≡ root =
                      some-injective
                        (sym ((validate_candidate_root-ok (some root) opened checked).0)) in
                    let held = validate_objects-held P opened.items request.objects objects in
                    let (source, digest, accepted, artifacts) =
                      validate_request_and_policy-ok P opened.items manifest request payload policy
                        held in
                    let (payload_decoded, members) =
                      decode_strict_json-ok T.tokens T.decode_manifest payload manifest decoded in
                    let name = (==_iff _ _).0 (not-eq-false _ named) in
                    subst (λ r. IsInspected r candidate) same
                      (subst (IsInspected opened) (ok-injective out) (record {
                        manifest = manifest;
                        request = request;
                        request_bytes = request_bytes;
                        root_directory = (validate_candidate_root-ok (some root) opened checked).1;
                        payload_there =
                            IsRead-there opened.items manifest_payload_name max_payload_bytes
                              payload refl payload_read;
                        request_there =
                            IsRead-there opened.items signing_request_name max_request_bytes
                              request_bytes refl request_read;
                        payload_canonical =
                            encoded ∙ ap some (sym ((==_iff _ _).0 (not-eq-false _ payload_same)));
                        request_canonical =
                            marshalled
                            ∙ ap some (sym ((==_iff _ _).0 (not-eq-false _ request_same)));
                        payload_decoded = payload_decoded;
                        request_decoded =
                            (decode_strict_json-ok T.tokens T.decode_request request_bytes request
                              request_decoded).0;
                        payload_members = members;
                        identity = (name ∙ source, source);
                        digests = (refl, digest);
                        policy_accepts = accepted;
                        tree_exact =
                            (validate_candidate_tree_iff opened.items request.objects).0 tree;
                        artifacts_held = artifacts;
                      }))
