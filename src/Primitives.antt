-- ===== src/Primitives.antt =====
-- The primitives of Go's standard library that the packages call and the development does not
-- define: SHA-256, Ed25519 verification and base64 decoding. They are parameters.
use unlock_catalog_publisher.Base.{
  ℕ, Bool, false, Bytes, Option, none, some, length, eqb, if◌then◌else◌,
}
use unlock_catalog_publisher.Base.Patterns.{hex_encode}

pub record Primitives : Type 0 where
  -- `sha256.Sum256`
  pub sha256 : Bytes → Bytes
  -- `ed25519.Verify(publicKey, message, signature)`
  pub ed25519_verify : Bytes → Bytes → Bytes → Bool
  -- `base64.StdEncoding.Strict().DecodeString`
  pub base64_decode : Bytes → Option Bytes

-- `ed25519.PublicKeySize` and `ed25519.SignatureSize`.
abbrev pub public_key_size : ℕ
public_key_size = 32

abbrev pub signature_size : ℕ
signature_size = 64

-- `if len(value) != size { … }`
unfoldable pub sized : ℕ → Option Bytes → Option Bytes
sized size none = none
sized size (some value) = if eqb (length value) size then some value else none

module _ (P : Primitives) where
  -- `DigestBytes`, `digestBytes`
  unfoldable pub digest_bytes : Bytes → Bytes
  unfolding hex_encode
  digest_bytes content = hex_encode (P.sha256 content)

  -- `publicKey, err := …DecodeString(encoded); err != nil || len(publicKey) != PublicKeySize`
  unfoldable pub decode_key : Bytes → Option Bytes
  unfolding sized
  decode_key encoded = sized public_key_size (P.base64_decode encoded)

  -- `err != nil || len(signature) != SignatureSize || !ed25519.Verify(key, payload, signature)`,
  -- negated.
  unfoldable pub valid_signature : Bytes → Bytes → Bytes → Bool
  unfolding sized
  valid_signature key payload encoded = elim (sized signature_size (P.base64_decode encoded)) [
    | none ↦ false
    | some signature ↦ P.ed25519_verify key payload signature
  ]
