-- ===== src/Signing/Provider.antt =====
-- `Sign` of a prepared candidate (internal/signing/provider.go).
use unlock_catalog_publisher.Base.{
  ℕ, not, ◌||◌, Bytes, Option, eqb, length, Result, ok, ◌>>=◌, ◌>>◌, refuse, or_fail,
}
use unlock_catalog_publisher.Base.Patterns.{id_pattern}
use unlock_catalog_publisher.Primitives.{Primitives, public_key_size, signature_size}
use unlock_catalog_publisher.Trust.Types.{Fragment}
use unlock_catalog_publisher.Signing.Types.{
  SigningError, candidate_required, provider_required, provider_key_id_invalid,
  provider_key_length_invalid, provider_signature_invalid,
}

-- The interface `KeyProvider`; an operation returns the error that the provider gives.
pub record KeyProvider : Type 0 where
  pub key_id : Bytes
  pub public_key : Result SigningError Bytes
  pub sign : Bytes → Result SigningError Bytes

pub record Inspection : Type 0 where
  pub source_id : Bytes
  pub version : ℕ
  pub request_digest : Bytes
  pub payload_sha256 : Bytes
  pub object_count : ℕ

pub record PreparedCandidate : Type 0 where
  pub inspection : Inspection
  pub payload : Bytes

-- `base64.StdEncoding.EncodeToString` is a parameter.
module _ (P : Primitives) (base64_encode : Bytes → Bytes) where
  -- A nil candidate or provider is `none`.
  unfoldable pub sign_candidate :
      Option PreparedCandidate → Option KeyProvider → Result SigningError Fragment
  sign_candidate prepared given = do
    candidate ← or_fail prepared candidate_required
    provider ← or_fail given provider_required
    refuse (not (id_pattern provider.key_id)) provider_key_id_invalid
    public_key ← provider.public_key
    refuse (not (eqb (length public_key) public_key_size)) provider_key_length_invalid
    signature ← provider.sign candidate.payload
    refuse
        (not (eqb (length signature) signature_size)
          || not (P.ed25519_verify public_key candidate.payload signature))
        provider_signature_invalid
    ok (record {
      request_digest = candidate.inspection.request_digest;
      key_id = provider.key_id;
      signature = base64_encode signature;
    })
