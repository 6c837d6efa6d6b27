-- ===== src/Signing/Tests.antt =====
-- A provider, what it signs, and a key file that is opened and closed.
use unlock_catalog_publisher.Base.{
  ℕ, zero, suc, ◌≡◌, ◌≢◌, refl, Bool, true, false, [], ◌∷◌, ◌++◌, Nodup, Bytes, Dict, some, ok, err,
  codes, eqb, length, all, ◌>>=◌, ◌>>◌, for_each, ◌==◌, lookup, contains,
}
use unlock_catalog_publisher.Base.Int.{pos}
use unlock_catalog_publisher.Base.Growth.{flat_map}
use unlock_catalog_publisher.Base.Patterns.{id_pattern, digest_pattern, is_hex}
use unlock_catalog_publisher.Primitives.{Primitives, sized, valid_signature}
use unlock_catalog_publisher.Trust.Types.{Fragment}
use unlock_catalog_publisher.Signing.Types.{provider_closed}
use unlock_catalog_publisher.Signing.Provider.{KeyProvider, PreparedCandidate, sign_candidate}
use unlock_catalog_publisher.Signing.FileProvider.{
  EncryptedFileProvider, KeyTools, open_encrypted_file_provider, public_key, sign, ask_public_key,
  ask_sign, ask_close, after_calls, IsWiped, open_encrypted_file_provider-close,
}
use unlock_catalog_publisher.Signing.Fragments.{
  validate_fragment_shape, guard_fragment, validate_fragment_set,
}
use unlock_catalog_publisher.Signing.Signed.{
  material, guarded, validate_fragment_set-guarded, validate_fragment_set-sign_candidate,
}

abbrev copies : ℕ → Bytes → Bytes
copies zero c = []
copies (suc n) c = c ++ copies n c

-- Base64 that changes nothing, and signatures that begin like their key.
abbrev plain_verify : Bytes → Bytes → Bytes → Bool
plain_verify (k ∷ _) message (s ∷ _) = eqb k s
plain_verify _ message _ = false

abbrev plain : Primitives
plain = record {
  sha256 = λ content. copies 32 (7 ∷ []);
  ed25519_verify = plain_verify;
  base64_decode = λ encoded. some encoded;
}

abbrev candidate : PreparedCandidate
candidate = record {
  inspection = record {
    source_id = codes "demo";
    version = 1;
    request_digest = copies 64 (codes "0");
    payload_sha256 = copies 64 (codes "0");
    object_count = 1;
  };
  payload = codes "payload";
}

abbrev provider : KeyProvider
provider = record {
  key_id = codes "one";
  public_key = ok (copies 32 (5 ∷ []));
  sign = λ message. ok (copies 64 (5 ∷ []));
}

abbrev known_keys : Dict Bytes
known_keys = (codes "two", copies 32 (6 ∷ [])) ∷ (codes "one", copies 32 (5 ∷ [])) ∷ []

abbrev by_one : Fragment
by_one = record {
  request_digest = copies 64 (codes "0");
  key_id = codes "one";
  signature = copies 64 (5 ∷ []);
}

abbrev tools : KeyTools
tools = record {
  read_owner_only_file = λ path. some path;
  new_scrypt_identity = λ phrase. some phrase;
  decrypt = λ content identity. some content;
  decode_envelope = λ content. some (record {
    schema_version = pos 1;
    algorithm = codes "Ed25519";
    key_id = codes "one";
    seed = copies 32 (5 ∷ []);
  });
  new_key_from_seed = λ seed. seed ++ seed;
  public_of = λ key. key;
  ed25519_sign = λ key message. key;
}

abbrev opened : EncryptedFileProvider
opened = record {
  key_id = codes "one";
  public = copies 32 (5 ∷ []) ++ copies 32 (5 ∷ []);
  private = copies 32 (5 ∷ []) ++ copies 32 (5 ∷ []);
  public_array = copies 32 (5 ∷ []) ++ copies 32 (5 ∷ []);
  private_array = copies 32 (5 ∷ []) ++ copies 32 (5 ∷ []);
  closed = false;
}

signs : sign_candidate plain (λ s. s) (some candidate) (some provider) ≡ ok by_one
unfolding ◌>>=◌ ◌>>◌ ◌==◌ id_pattern all sign_candidate
signs = refl

digest_fits : digest_pattern candidate.inspection.request_digest ≡ true
unfolding digest_pattern all is_hex
digest_fits = refl

key_known : lookup provider.key_id known_keys ≡ some (copies 32 (5 ∷ []))
unfolding lookup ◌==◌
key_known = refl

opens : open_encrypted_file_provider tools (codes "key.age") (codes "phrase") ≡ ok opened
unfolding ◌>>=◌ ◌>>◌ ◌==◌ id_pattern all open_encrypted_file_provider
opens = refl

guard_accepts :
    validate_fragment_set plain (codes "payload") (copies 64 (codes "0")) known_keys (by_one ∷ [])
    ≡ ok tt
unfolding ◌>>=◌ ◌>>◌ for_each ◌==◌ lookup contains id_pattern digest_pattern is_hex all sized
    valid_signature validate_fragment_shape guard_fragment validate_fragment_set
guard_accepts = refl

validate_fragment_set-sign_candidate_example :
    validate_fragment_set plain candidate.payload candidate.inspection.request_digest known_keys
      (by_one ∷ [])
    ≡ ok tt
validate_fragment_set-sign_candidate_example =
    validate_fragment_set-sign_candidate plain (λ s. s) (λ s. refl) refl candidate provider
      known_keys (copies 32 (5 ∷ [])) by_one digest_fits refl key_known signs

validate_fragment_set-guarded_example :
    (length (by_one ∷ []) ≢ 0)
    × (all (guarded plain (codes "payload") (copies 64 (codes "0")) known_keys) (by_one ∷ [])
        ≡ true)
    × Nodup (flat_map (λ (f : Fragment). f.key_id ∷ []) (by_one ∷ []))
    × Nodup (flat_map (material known_keys) (by_one ∷ []))
validate_fragment_set-guarded_example =
    validate_fragment_set-guarded plain (codes "payload") (copies 64 (codes "0")) known_keys
      (by_one ∷ []) guard_accepts

open_encrypted_file_provider-close_example :
    let later = after_calls opened ((ask_sign [] ∷ []) ++ ask_close ∷ ask_public_key ∷ []) in
    IsWiped later
    × (length later.private_array ≡ length opened.private)
    × (length later.public_array ≡ length opened.public)
    × (public_key tools later ≡ err provider_closed)
    × (sign tools later (codes "m") ≡ err provider_closed)
open_encrypted_file_provider-close_example =
    open_encrypted_file_provider-close tools (codes "key.age") (codes "phrase") opened
      (ask_sign [] ∷ []) (ask_public_key ∷ []) (codes "m") opens
