-- ===== src/Signing/Fragments.antt =====
-- `ValidateFragmentSet` and `validateFragmentShape` (internal/signing/provider.go).
use unlock_catalog_publisher.Base.{
  not, List, [], ◌∷◌, ◌++◌, Bytes, Dict, eqb, length, contains, lookup, Result, ok, ◌>>=◌, ◌>>◌,
  refuse, or_fail, for_each, ◌==◌,
}
use unlock_catalog_publisher.Base.Patterns.{id_pattern, digest_pattern}
use unlock_catalog_publisher.Primitives.{Primitives, public_key_size, sized, valid_signature}
use unlock_catalog_publisher.Trust.Types.{Fragment}
use unlock_catalog_publisher.Signing.Types.{
  SigningError, digest_invalid, no_fragments, fragment_digest_invalid, fragment_key_id_invalid,
  signature_required, fragment_digest_mismatch, duplicate_key_id, key_not_trusted,
  key_material_reused, signature_invalid,
}

unfoldable pub validate_fragment_shape : Fragment → Result SigningError (Unit {0})
validate_fragment_shape fragment = do
  refuse (not (digest_pattern fragment.request_digest)) fragment_digest_invalid
  refuse (not (id_pattern fragment.key_id)) fragment_key_id_invalid
  refuse (fragment.signature == []) signature_required

module _ (P : Primitives) (payload request_digest : Bytes) (public_keys : Dict Bytes) where
  -- The body of the loop; it writes `seenIDs` and `seenMaterial`.
  unfoldable pub guard_fragment :
      List Bytes × List Bytes → Fragment → Result SigningError (List Bytes × List Bytes)
  guard_fragment (seen_ids, seen_material) fragment = do
    validate_fragment_shape fragment
    refuse (not (fragment.request_digest == request_digest)) fragment_digest_mismatch
    refuse (contains fragment.key_id seen_ids) duplicate_key_id
    public_key ←
        or_fail (sized public_key_size (lookup fragment.key_id public_keys)) key_not_trusted
    refuse (contains public_key seen_material) key_material_reused
    refuse (not (valid_signature P public_key payload fragment.signature)) signature_invalid
    ok (seen_ids ++ fragment.key_id ∷ [], seen_material ++ public_key ∷ [])

  unfoldable pub validate_fragment_set : List Fragment → Result SigningError (Unit {0})
  validate_fragment_set fragments = do
    refuse (not (digest_pattern request_digest)) digest_invalid
    refuse (eqb (length fragments) 0) no_fragments
    s ← for_each guard_fragment ([], []) fragments
    ok tt
