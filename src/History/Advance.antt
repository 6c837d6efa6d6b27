-- ===== src/History/Advance.antt =====
-- What `verifyForwardOnly` accepts (cmd/catalog-publisher/materialize.go).
use unlock_catalog_publisher.Base.{
  ◌≤◌, ◌≡◌, subst, Bool, true, false, List, [], ◌∷◌, ◌++◌, Bytes, Dict, Option, some, arith, lookup,
  has_key, ok, bind_elim, then_elim, refuse_elim, or_fail_elim, wrap_then_elim, wrap-eq-ok, ==_iff,
  ◌==◌, Bool-cases, inl, inr, ◌⊎◌,
}
use unlock_catalog_publisher.Base.Growth.{flat_map, for_each-appends, for_each-at}
use unlock_catalog_publisher.Primitives.{Primitives, digest_bytes}
use unlock_catalog_publisher.Catalog.Types.{Manifest}
use unlock_catalog_publisher.Trust.Types.{Fragment, Signature, TrustRoot}
use unlock_catalog_publisher.Trust.Bridge.{to_fragment}
use unlock_catalog_publisher.Trust.Threshold.Met.{HasTwoSigners, verify_threshold-two_signers}
use unlock_catalog_publisher.History.Revocations.{verify_revocations_forward}
use unlock_catalog_publisher.History.Forward.{
  PublishedRelease, select_signature, verify_signed_bytes, check_signed, check_forward,
  verify_forward_only, threshold, manifest_lacks_threshold, revocations,
}

otherwise :
    {A : Type 0} {b : Bool} (m k : A) {r : A}
    → b ≡ false
    → (elim b [ true ↦ m | false ↦ k ]) ≡ r
    → k ≡ r
otherwise {b = true} m k e h = absurd (cc)
otherwise {b = false} m k e h = h

-- The fragments of the signatures whose keys the root has.
abbrev pub trusted : Bytes → TrustRoot → List Signature → List Fragment
trusted digest root =
    flat_map
      λ s. elim (has_key s.key_id root.keys) [ false ↦ [] | true ↦ to_fragment digest s ∷ [] ]

module _ (P : Primitives) where
  select_signature-ok :
      (digest : Bytes) (root : TrustRoot) (s : List Bytes × List Fragment) (x : Signature)
      (t : List Bytes × List Fragment)
      → select_signature P digest root s x ≡ ok t
      → t.1
        ≡ s.1 ++ elim (has_key x.key_id root.keys) [ false ↦ [] | true ↦ to_fragment digest x ∷ [] ]
  unfolding select_signature
  select_signature-ok digest root s x t h = refuse_elim _ _ _ h λ fresh out.
      elim (Bool-cases (has_key x.key_id root.keys)) [
        | inl e ↦ rw e (ground arith)
        | inr e ↦ rw e (ground (arith, mathlib.Core.List.append-nil (s.1)))
      ]

  -- Signed bytes that are accepted carry the signatures of two different keys of the root.
  pub verify_signed_bytes-two_signers :
      (payload : Bytes) (signatures : List Signature) (root : TrustRoot)
      → verify_signed_bytes P payload signatures root ≡ ok tt
      → HasTwoSigners P payload root (trusted (digest_bytes P payload) root signatures)
  unfolding verify_signed_bytes
  verify_signed_bytes-two_signers payload signatures root h = bind_elim _ _ h λ s loop last.
      let digest = digest_bytes P payload in
      let same =
        for_each-appends (select_signature P digest root) (λ s. s.1) _
          (select_signature-ok digest root) signatures ([], []) loop in
      subst (HasTwoSigners P payload root) same
        (verify_threshold-two_signers P payload root digest (s.1) (wrap-eq-ok threshold _ last))

  module _ (marshal_root : TrustRoot → Option Bytes)
      (canonical_manifest : Manifest → Option Bytes) where
    -- Two keys of the prior root signed the next root, and two signed the next manifest.
    pub record IsRotated (prior next : PublishedRelease) : Type 0 where
      pub root_payload : Bytes
      pub manifest_payload : Bytes
      pub root_marshalled : marshal_root next.root.signed ≡ some root_payload
      pub manifest_canonical : canonical_manifest next.manifest.signed ≡ some manifest_payload
      pub root_signers :
          HasTwoSigners P root_payload prior.root.signed
            (trusted (digest_bytes P root_payload) prior.root.signed next.root.signatures)
      pub manifest_signers :
          HasTwoSigners P manifest_payload prior.root.signed
            (trusted (digest_bytes P manifest_payload) prior.root.signed next.manifest.signatures)

    pub record IsAdvanced (prior next : PublishedRelease) : Type 0 where
      pub manifest_newer : prior.manifest.signed.version ≤ next.manifest.signed.version
      pub manifest_same :
          prior.manifest.signed.version ≡ next.manifest.signed.version
          → prior.manifest_bytes ≡ next.manifest_bytes
      pub root_newer : prior.root.signed.version ≤ next.root.signed.version
      pub root_same :
          prior.root.signed.version ≡ next.root.signed.version → prior.root_bytes ≡ next.root_bytes
      pub rotated : (next.root_bytes ≡ prior.root_bytes) ⊎ IsRotated prior next
      pub revocations_kept :
          verify_revocations_forward prior.manifest.signed.revocations
            next.manifest.signed.revocations
          ≡ ok tt

    check_signed-ok :
        (prior next : PublishedRelease)
        → check_signed P marshal_root canonical_manifest prior next ≡ ok tt
        → (next.root_bytes ≡ prior.root_bytes) ⊎ IsRotated prior next
    unfolding check_signed
    check_signed-ok prior next h = elim (Bool-cases (next.root_bytes == prior.root_bytes)) [
      | inl e ↦ inl ((==_iff _ _).0 e)
      | inr e ↦ inr (
          or_fail_elim _ _ _ (otherwise _ _ e h) λ root_payload marshalled h₁.
            wrap_then_elim _ _ _ h₁ λ root_signed h₂.
              or_fail_elim _ _ _ h₂ λ manifest_payload canonical last. record {
                root_payload = root_payload;
                manifest_payload = manifest_payload;
                root_marshalled = marshalled;
                manifest_canonical = canonical;
                root_signers =
                    verify_signed_bytes-two_signers root_payload next.root.signatures
                      prior.root.signed root_signed;
                manifest_signers =
                    verify_signed_bytes-two_signers manifest_payload next.manifest.signatures
                      prior.root.signed (wrap-eq-ok manifest_lacks_threshold _ last);
              })
    ]

    -- When a candidate is accepted, each published source is in it, with versions that are not older,
    -- the same bytes at the same version, the prior revocations, and, for a new root, signatures of two
    -- keys of the prior root on the root and on the manifest.
    pub verify_forward_only-IsAdvanced :
        (before after : Dict PublishedRelease) (source_id : Bytes) (prior : PublishedRelease)
        (candidate : Dict PublishedRelease)
        → verify_forward_only P marshal_root canonical_manifest
            (before ++ (source_id, prior) ∷ after)
            candidate
          ≡ ok tt
        → (next : PublishedRelease) × (lookup source_id candidate ≡ some next)
          × IsAdvanced prior next
    unfolding verify_forward_only check_forward
    verify_forward_only-IsAdvanced before after source_id prior candidate h =
        let body = check_forward P marshal_root canonical_manifest candidate in
        let (u, v, one) = for_each-at body before (source_id, prior) after tt h in
        or_fail_elim _ _ _ one λ next found h₁. refuse_elim _ _ _ h₁ λ manifest h₂.
          refuse_elim _ _ _ h₂ λ root h₃. then_elim _ _ h₃ λ signed last. (
            next,
            found,
            record {
              manifest_newer = ground (arith, manifest);
              manifest_same =
                  λ e. ground (arith, manifest, e, ==_iff next.manifest_bytes prior.manifest_bytes);
              root_newer = ground (arith, root);
              root_same = λ e. ground (arith, root, e, ==_iff next.root_bytes prior.root_bytes);
              rotated = check_signed-ok prior next signed;
              revocations_kept = wrap-eq-ok revocations _ last;
            },
          )
