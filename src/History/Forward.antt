-- ===== src/History/Forward.antt =====
-- `verifyForwardOnly` and `verifySignedBytes` (cmd/catalog-publisher/materialize.go).
use unlock_catalog_publisher.Base.{
  true, false, not, ◌&&◌, ◌||◌, List, [], ◌∷◌, ◌++◌, Bytes, Dict, Option, eqb, ltb, contains,
  lookup, has_key, Result, ok, ◌>>=◌, ◌>>◌, refuse, or_fail, wrap, for_each, ◌==◌,
}
use unlock_catalog_publisher.Primitives.{Primitives, digest_bytes}
use unlock_catalog_publisher.Catalog.Types.{Manifest}
use unlock_catalog_publisher.Trust.Types.{Fragment, Signature, TrustRoot, SignedRoot, TrustError}
use unlock_catalog_publisher.Trust.Threshold.{verify_threshold}
use unlock_catalog_publisher.Trust.Bridge.{to_fragment}
use unlock_catalog_publisher.History.Revocations.{HistoryError, verify_revocations_forward}

-- `assemble.SignedManifest` and `publishedRelease`.
pub record SignedManifest : Type 0 where
  pub signed : Manifest
  pub signatures : List Signature

pub record PublishedRelease : Type 0 where
  pub manifest : SignedManifest
  pub root : SignedRoot
  pub manifest_bytes : Bytes
  pub root_bytes : Bytes

pub data ForwardError : Type 0 where
  source_was_deleted manifest_not_advanced root_not_advanced : ForwardError
  root_not_canonical manifest_not_canonical duplicate_signature : ForwardError
  threshold : TrustError → ForwardError
  root_lacks_threshold manifest_lacks_threshold : ForwardError → ForwardError
  revocations : HistoryError → ForwardError

module _ (P : Primitives) where
  -- The loop over the signatures; it writes `seen` and `fragments`.
  unfoldable pub select_signature :
      Bytes
      → TrustRoot
      → List Bytes × List Fragment
      → Signature
      → Result ForwardError (List Bytes × List Fragment)
  select_signature request_digest root (seen, fragments) signature = do
    refuse (contains signature.key_id seen) duplicate_signature
    let fragment = to_fragment request_digest signature
    elim (has_key signature.key_id root.keys) [
      | false ↦ ok (signature.key_id ∷ seen, fragments)
      | true ↦ ok (signature.key_id ∷ seen, fragments ++ fragment ∷ [])
    ]

  unfoldable pub verify_signed_bytes :
      Bytes → List Signature → TrustRoot → Result ForwardError (Unit {0})
  verify_signed_bytes payload signatures root = do
    let request_digest = digest_bytes P payload
    (seen, fragments) ← for_each (select_signature request_digest root) ([], []) signatures
    wrap threshold (verify_threshold P payload request_digest fragments root)

  -- `json.Marshal` of a root and `CanonicalManifest` are parameters.
  module _ (marshal_root : TrustRoot → Option Bytes)
      (canonical_manifest : Manifest → Option Bytes) where
    -- The checks of a root that differs from the one before it.
    unfoldable pub check_signed :
        PublishedRelease → PublishedRelease → Result ForwardError (Unit {0})
    check_signed prior next = elim (next.root_bytes == prior.root_bytes) [
      | true ↦ ok tt
      | false ↦ do
        root_payload ← or_fail (marshal_root next.root.signed) root_not_canonical
        wrap root_lacks_threshold
            (verify_signed_bytes root_payload next.root.signatures prior.root.signed)
        manifest_payload ← or_fail (canonical_manifest next.manifest.signed) manifest_not_canonical
        wrap manifest_lacks_threshold
            (verify_signed_bytes manifest_payload next.manifest.signatures prior.root.signed)
    ]

    -- The body of the loop over `base`.
    unfoldable pub check_forward :
        Dict PublishedRelease → Unit {0} → Bytes × PublishedRelease → Result ForwardError (Unit {0})
    check_forward candidate u (source_id, prior) = do
      next ← or_fail (lookup source_id candidate) source_was_deleted
      let old = prior.manifest.signed
      let new = next.manifest.signed
      refuse
          (ltb new.version old.version
            || (eqb new.version old.version && not (next.manifest_bytes == prior.manifest_bytes)))
          manifest_not_advanced
      refuse
          (ltb next.root.signed.version prior.root.signed.version
            || (eqb next.root.signed.version prior.root.signed.version
                && not (next.root_bytes == prior.root_bytes)))
          root_not_advanced
      check_signed prior next
      wrap revocations (verify_revocations_forward old.revocations new.revocations)

    unfoldable pub verify_forward_only :
        Dict PublishedRelease → Dict PublishedRelease → Result ForwardError (Unit {0})
    verify_forward_only base candidate = for_each (check_forward candidate) tt base
