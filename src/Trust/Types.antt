-- ===== src/Trust/Types.antt =====
-- The data of internal/assemble/root.go and the fragment of internal/signing/provider.go.
use unlock_catalog_publisher.Base.{ℕ, Bytes, Dict, List}
use unlock_catalog_publisher.Base.Int.{ℤ}
use unlock_catalog_publisher.Time.{Time}

-- One signer's contribution: the digest of what was signed, the key, and the base64 signature.
pub record Fragment : Type 0 where
  pub request_digest : Bytes
  pub key_id : Bytes
  pub signature : Bytes

pub record Signature : Type 0 where
  pub key_id : Bytes
  pub value : Bytes

-- `keys` maps a key ID to base64 key material.
pub record TrustRoot : Type 0 where
  pub version : ℕ
  pub threshold : ℤ
  pub expires_at : Time
  pub keys : Dict Bytes

pub record SignedRoot : Type 0 where
  pub signed : TrustRoot
  pub signatures : List Signature

-- What `validateRoot` and `VerifyThreshold` report.
pub data TrustError : Type 0 where
  not_two_of_three key_id_invalid not_ed25519 key_material_reused : TrustError
  digest_invalid threshold_not_met fragment_digest_mismatch duplicate_key_id : TrustError
  key_not_trusted signature_invalid : TrustError

-- What `AssembleSignedRoot` and `verifyBridgeFragments` report; an error that is wrapped is held.
pub data BridgeError : Type 0 where
  current_root next_root current_root_threshold next_root_threshold : TrustError → BridgeError
  time_required version_not_increased window_too_short keys_not_retained : BridgeError
  marshal_failed key_material_changed root_fragment_digest_mismatch : BridgeError
  root_fragment_duplicate root_fragment_not_trusted root_fragment_key_invalid : BridgeError
  root_fragment_signature_invalid signatures_not_canonical : BridgeError
