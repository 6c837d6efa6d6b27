-- ===== src/Signing/Types.antt =====
-- The errors of internal/signing/provider.go and file_provider.go.

pub data SigningError : Type 0 where
  candidate_required provider_required provider_key_id_invalid : SigningError
  provider_key_length_invalid provider_signature_invalid key_unreadable sign_failed : SigningError
  provider_closed passphrase_invalid key_file_unreadable identity_failed decrypt_failed :
      SigningError
  key_too_long key_undecodable key_schema_invalid key_id_invalid seed_length_invalid : SigningError
  digest_invalid no_fragments fragment_digest_invalid fragment_key_id_invalid : SigningError
  signature_required fragment_digest_mismatch duplicate_key_id key_not_trusted : SigningError
  key_material_reused signature_invalid : SigningError
