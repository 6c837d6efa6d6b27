-- ===== src/Assembler/Signed.antt =====
-- What a release that `Assemble` writes has gone through (internal/assemble/assembler.go).
use unlock_catalog_publisher.Base.{
  ◌≡◌, refl, sym, ap, subst, ◌∙◌, true, false, List, [], ◌∷◌, Perm, ◌++◌, Bytes, Dict, some, codes,
  arith, lookup, insert, lookup-insert, ok, ok-injective, bind_elim, then_elim, refuse_elim,
  or_fail_elim, wrap_then_elim, wrap-eq-ok, ==_iff, ==_refl, ◌==◌, not-eq-false, refuse-eq-ok,
  or_false_iff, if◌then◌else◌,
}
use unlock_catalog_publisher.Primitives.{Primitives, digest_bytes}
use unlock_catalog_publisher.Time.{is_zero}
use unlock_catalog_publisher.Catalog.Types.{Manifest, SigningRequest}
use unlock_catalog_publisher.Trust.Types.{Fragment}
use unlock_catalog_publisher.Trust.Threshold.Met.{HasTwoSigners, verify_threshold-two_signers}
use unlock_catalog_publisher.Trust.Bridge.{sorted_signatures, verify_signed_root}
use unlock_catalog_publisher.History.Revocations.{validate_revocation_history}
use unlock_catalog_publisher.History.Permissions.{permission_sets_equal}
use unlock_catalog_publisher.History.Multiset.{permission_sets_equal_sound}
use unlock_catalog_publisher.Signing.Provider.{Inspection}
use unlock_catalog_publisher.Assembler.Steps.{
  Options, Tools, write_release_file, padded, check_candidate, check_trust, write_release, assemble,
  verify_candidate_readback, next_manifest_root,
}

-- The directory of the version in the archive.
abbrev pub archive : Manifest → Bytes
archive manifest = codes "archive/" ++ padded 20 manifest.version

module _ (P : Primitives) (T : Tools) (options : Options) (fragments : List Fragment) where
  pub record IsReleased (files : Dict Bytes) : Type 0 where
    pub inspection : Inspection
    pub manifest : Manifest
    pub request : SigningRequest
    pub payload : Bytes
    pub request_bytes : Bytes
    pub manifest_bytes : Bytes
    pub root_bytes : Bytes
    pub inspected : T.inspect options.candidate_dir ≡ some inspection
    pub payload_read :
        T.read_file options.candidate_dir (codes "manifest.payload.json") ≡ some payload
    pub request_read :
        T.read_file options.candidate_dir (codes "signing-request.json") ≡ some request_bytes
    pub decoded : T.decode_manifest payload ≡ some manifest
    pub request_decoded : T.decode_request request_bytes ≡ some request
    pub request_unchanged : digest_bytes P request_bytes ≡ inspection.request_digest
    pub payload_unchanged : digest_bytes P payload ≡ inspection.payload_sha256
    pub permissions_granted : Perm request.permissions options.granted_permissions
    pub source_expected :
        (manifest.source_id ≡ options.expected_source_id)
        × (request.source_id ≡ options.expected_source_id)
    pub request_matches :
        (request.payload_sha256 ≡ digest_bytes P payload) × (request.version ≡ manifest.version)
    pub revocations_kept :
        validate_revocation_history manifest.revocations options.prior_revocations ≡ ok tt
    pub root_published :
        verify_signed_root P T.marshal_root options.current_root options.published_root
          (if is_zero options.now then manifest.published_at else options.now)
        ≡ ok tt
    pub current_signers : HasTwoSigners P payload options.current_root fragments
    pub next_signers : HasTwoSigners P payload options.published_root.signed fragments
    pub encoded :
        T.marshal_signed_manifest
          (record { signed = manifest; signatures = sorted_signatures fragments })
        ≡ some manifest_bytes
    pub root_encoded : T.marshal_signed_root options.published_root ≡ some root_bytes
    pub manifest_archived :
        lookup (archive manifest ++ codes "/manifest.json") files ≡ some manifest_bytes
    pub root_archived : lookup (archive manifest ++ codes "/root.json") files ≡ some root_bytes

==-append : (p s t : Bytes) → (p ++ s == p ++ t) ≡ (s == t)
unfolding ◌==◌
==-append [] s t = refl
==-append (a ∷ p) s t = ground (arith, ==-append p s t)

write_release_file-ok :
    (staging : Dict Bytes) (path content : Bytes) {after : Dict Bytes}
    → write_release_file staging path content ≡ ok after
    → after ≡ insert path content staging
unfolding write_release_file
write_release_file-ok staging path content h =
    refuse_elim _ _ _ h λ safe out. sym (ok-injective out)

names_differ : (codes "/root.json" == codes "/manifest.json") ≡ false
unfolding ◌==◌
names_differ = refl

module _ (P : Primitives) (T : Tools) where
  write_release-archives :
      (options : Options) (manifest : Manifest) (request : SigningRequest)
      (manifest_bytes root_bytes : Bytes) {files : Dict Bytes}
      → write_release P T options manifest request manifest_bytes root_bytes ≡ ok files
      → (lookup (archive manifest ++ codes "/manifest.json") files ≡ some manifest_bytes)
        × (lookup (archive manifest ++ codes "/root.json") files ≡ some root_bytes)
  unfolding write_release
  write_release-archives options manifest request manifest_bytes root_bytes {files} h =
      bind_elim _ _ h λ with_manifest w₁ h₁. bind_elim _ _ h₁ λ with_root w₂ h₂.
        bind_elim _ _ h₂ λ s w₃ h₃. or_fail_elim _ _ _ h₃ λ built w₄ h₄.
          bind_elim _ _ h₄ λ with_archive w₅ last.
            let mpath = archive manifest ++ codes "/manifest.json" in
            let rpath = archive manifest ++ codes "/root.json" in
            let final = write_release_file-ok with_archive rpath root_bytes last in
            let before = write_release_file-ok _ mpath manifest_bytes w₅ in
            let differ : (rpath == mpath) ≡ false =
              ==-append (archive manifest) (codes "/root.json") (codes "/manifest.json")
              ∙ names_differ in
            (
              ap (lookup mpath) final
                  ∙ lookup-insert rpath mpath root_bytes with_archive
                  ∙ rw differ (
                      ap (lookup mpath) before
                      ∙ lookup-insert mpath mpath manifest_bytes _
                      ∙ rw (==_refl mpath) refl),
              ap (lookup rpath) final
                  ∙ lookup-insert rpath rpath root_bytes with_archive
                  ∙ rw (==_refl rpath) refl,
            )

  -- What `check_candidate` has read and compared.
  record IsChecked (options : Options) (inspection : Inspection) (manifest : Manifest)
      (request : SigningRequest) (payload : Bytes) : Type 0 where
    request_bytes : Bytes
    payload_read : T.read_file options.candidate_dir (codes "manifest.payload.json") ≡ some payload
    request_read :
        T.read_file options.candidate_dir (codes "signing-request.json") ≡ some request_bytes
    decoded : T.decode_manifest payload ≡ some manifest
    request_decoded : T.decode_request request_bytes ≡ some request
    request_unchanged : digest_bytes P request_bytes ≡ inspection.request_digest
    payload_unchanged : digest_bytes P payload ≡ inspection.payload_sha256
    granted : permission_sets_equal request.permissions options.granted_permissions ≡ true
    source_expected :
        (manifest.source_id ≡ options.expected_source_id)
        × (request.source_id ≡ options.expected_source_id)
    request_matches :
        (request.payload_sha256 ≡ digest_bytes P payload) × (request.version ≡ manifest.version)

  check_candidate-IsChecked :
      (options : Options) (inspection : Inspection) (c : Manifest × SigningRequest × Bytes)
      → check_candidate P T options inspection ≡ ok c
      → IsChecked options inspection (c.0) (c.1) (c.2)
  unfolding check_candidate verify_candidate_readback
  check_candidate-IsChecked options inspection c h = or_fail_elim _ _ _ h λ payload read h₁.
      or_fail_elim _ _ _ h₁ λ request_bytes read_request h₂. then_elim _ _ h₂ λ readback h₃.
        or_fail_elim _ _ _ h₃ λ request decoded h₄.
          or_fail_elim _ _ _ h₄ λ manifest decoded_manifest h₅. refuse_elim _ _ _ h₅ λ source h₆.
            refuse_elim _ _ _ h₆ λ granted h₇. refuse_elim _ _ _ h₇ λ digest h₈.
              refuse_elim _ _ _ h₈ λ metadata out.
                refuse_elim _ _ _ readback λ request_same payload_same.
                  subst
                    (λ (r : Manifest × SigningRequest × Bytes).
                      IsChecked options inspection (r.0) (r.1) (r.2))
                    (ok-injective out)
                    (record {
                      request_bytes = request_bytes;
                      payload_read = read;
                      request_read = read_request;
                      decoded = decoded_manifest;
                      request_decoded = decoded;
                      request_unchanged = (==_iff _ _).0 (not-eq-false _ request_same);
                      payload_unchanged =
                          (==_iff _ _).0 (not-eq-false _ (refuse-eq-ok _ _ payload_same));
                      granted = not-eq-false _ granted;
                      source_expected = (
                        (==_iff _ _).0 (not-eq-false _ ((or_false_iff _ _).0 source).1),
                        (==_iff _ _).0 (not-eq-false _ ((or_false_iff _ _).0 source).0),
                      );
                      request_matches = (
                        (==_iff _ _).0 (not-eq-false _ ((or_false_iff _ _).0 digest).0),
                        ground (arith, metadata),
                      );
                    })

  -- A release that is written comes of the manifest and the signing request that stand in the candidate's
  -- directory with the digests of its inspection. Both are of the expected source and of one version, and the
  -- request names the digest of the manifest's payload and asks for exactly the granted permissions. Two keys of
  -- the current root and two of the published root signed the payload, which keeps the prior revocations; the
  -- published root is verified, and the archive of the version holds both files.
  pub assemble-IsReleased :
      (options : Options) (fragments : List Fragment) {files : Dict Bytes}
      → assemble P T options fragments ≡ ok files
      → IsReleased P T options fragments files
  unfolding assemble check_trust
  assemble-IsReleased options fragments {files} h = refuse_elim _ _ _ h λ given h₁.
      refuse_elim _ _ _ h₁ λ new h₂. or_fail_elim _ _ _ h₂ λ inspection inspected h₃.
        bind_elim _ _ h₃ λ c checked h₄. then_elim _ _ h₄ λ trust h₅.
          or_fail_elim _ _ _ h₅ λ manifest_bytes encoded h₆.
            or_fail_elim _ _ _ h₆ λ root_bytes root_encoded last.
              wrap_then_elim _ _ _ trust λ kept t₁. wrap_then_elim _ _ _ t₁ λ published t₂.
                wrap_then_elim _ _ _ t₂ λ current t₃.
                  let next = wrap-eq-ok next_manifest_root _ t₃ in
                  let k = check_candidate-IsChecked options inspection c checked in
                  let (m, r) =
                    write_release-archives options (c.0) (c.1) manifest_bytes root_bytes last in
                  record {
                    inspection = inspection;
                    manifest = c.0;
                    request = c.1;
                    payload = c.2;
                    request_bytes = k.request_bytes;
                    payload_read = k.payload_read;
                    request_read = k.request_read;
                    request_decoded = k.request_decoded;
                    request_unchanged = k.request_unchanged;
                    request_matches = k.request_matches;
                    manifest_bytes = manifest_bytes;
                    root_bytes = root_bytes;
                    inspected = inspected;
                    decoded = k.decoded;
                    payload_unchanged = k.payload_unchanged;
                    permissions_granted =
                        permission_sets_equal_sound (c.1).permissions options.granted_permissions
                          k.granted;
                    source_expected = k.source_expected;
                    revocations_kept = kept;
                    root_published = published;
                    current_signers =
                        verify_threshold-two_signers P (c.2) options.current_root _ fragments
                          current;
                    next_signers =
                        verify_threshold-two_signers P (c.2) options.published_root.signed _
                          fragments next;
                    encoded = encoded;
                    root_encoded = root_encoded;
                    manifest_archived = m;
                    root_archived = r;
                  }
