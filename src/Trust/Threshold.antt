-- ===== src/Trust/Threshold.antt =====
-- `VerifyThreshold` (internal/assemble/root.go).
pub mod Loop
pub mod Met
use unlock_catalog_publisher.Base.{
  ℕ, ◌+◌, Bool, not, ◌||◌, List, [], ◌∷◌, Bytes, Dict, length, contains, lookup, Result, ok, ◌>>=◌,
  ◌>>◌, refuse, or_fail, for_each, ◌==◌,
}
use unlock_catalog_publisher.Base.Int.{pos, int_lt}
use unlock_catalog_publisher.Base.Patterns.{digest_pattern}
use unlock_catalog_publisher.Primitives.{Primitives, valid_signature}
use unlock_catalog_publisher.Trust.Types.{
  Fragment, TrustRoot, TrustError, digest_invalid, threshold_not_met, fragment_digest_mismatch,
  duplicate_key_id, key_not_trusted, signature_invalid,
}
use unlock_catalog_publisher.Trust.Keys.{validate_root}

module _ (P : Primitives) (payload request_digest : Bytes) where
  -- The body of the loop over the fragments; it writes `seen` and `valid`.
  unfoldable pub check_fragment :
      Dict Bytes → List Bytes × ℕ → Fragment → Result TrustError (List Bytes × ℕ)
  check_fragment keys (seen, valid) fragment = do
    refuse (not (fragment.request_digest == request_digest)) fragment_digest_mismatch
    refuse (contains fragment.key_id seen) duplicate_key_id
    public_key ← or_fail (lookup fragment.key_id keys) key_not_trusted
    refuse (not (valid_signature P public_key payload fragment.signature)) signature_invalid
    ok (fragment.key_id ∷ seen, valid + 1)

  unfoldable pub verify_threshold : List Fragment → TrustRoot → Result TrustError (Unit {0})
  unfolding check_fragment
  verify_threshold fragments root = do
    keys ← validate_root P root
    refuse (not (digest_pattern request_digest)) digest_invalid
    refuse (int_lt (pos (length fragments)) root.threshold) threshold_not_met
    (seen, valid) ← for_each (check_fragment keys) ([], 0) fragments
    refuse (int_lt (pos valid) root.threshold) threshold_not_met
    ok tt
