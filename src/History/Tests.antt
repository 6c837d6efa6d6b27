-- ===== src/History/Tests.antt =====
-- Two releases of a source, the second with a new root, and three lists of revocations.
use unlock_catalog_publisher.Base.{
  Mem, true, all, Perm, ℕ, ◌≡◌, refl, List, [], ◌∷◌, Bytes, Option, some, ok, codes, all, ◌>>=◌,
  ◌>>◌, for_each, ◌==◌, lookup, contains, has_key, insert,
}
use unlock_catalog_publisher.Base.Int.{pos}
use unlock_catalog_publisher.Base.Patterns.{id_pattern, digest_pattern, is_hex, hex_encode}
use unlock_catalog_publisher.Primitives.{digest_bytes, decode_key, valid_signature, sized}
use unlock_catalog_publisher.Catalog.Types.{Manifest, Revocation}
use unlock_catalog_publisher.Trust.Keys.{validate_root, validate_key}
use unlock_catalog_publisher.Trust.Threshold.{verify_threshold, check_fragment}
use unlock_catalog_publisher.Trust.Threshold.Met.{HasTwoSigners}
use unlock_catalog_publisher.Trust.Sample.{toy, day_one, far, old_root, marshal, assembled}
use unlock_catalog_publisher.History.Revocations.{
  index_revocation, weakened, check_revocation, validate_revocation_history,
  verify_revocations_forward,
}
use unlock_catalog_publisher.History.Forward.{
  PublishedRelease, select_signature, verify_signed_bytes, check_signed, check_forward,
  verify_forward_only,
}
use unlock_catalog_publisher.History.Permissions.{permission_sets_equal, count_up, count_down}
use unlock_catalog_publisher.History.Multiset.{permission_sets_equal_sound}
use unlock_catalog_publisher.History.Order.{Persists, validate_revocation_history_trans}
use unlock_catalog_publisher.History.Advance.{
  trusted, verify_signed_bytes-two_signers, IsAdvanced, verify_forward_only-IsAdvanced,
}

abbrev revoked : ℕ → Bytes → Revocation
revoked version id = record {
  revocation_id = id;
  kind = codes "key";
  target_id = codes "old-key";
  version = version;
  reason = codes "lost";
}

abbrev first : List Revocation
first = revoked 1 (codes "r1") ∷ []

abbrev second : List Revocation
second = revoked 1 (codes "r2") ∷ revoked 2 (codes "r1") ∷ []

abbrev third : List Revocation
third = revoked 4 (codes "r1") ∷ revoked 3 (codes "r3") ∷ revoked 1 (codes "r2") ∷ []

abbrev manifest : ℕ → List Revocation → Manifest
manifest version revocations = record {
  schema_version = pos 1;
  protocol = codes "unlock-catalog-v1";
  source_id = codes "demo";
  version = version;
  published_at = day_one;
  expires_at = far;
  min_core_protocol = pos 1;
  max_core_protocol = pos 1;
  min_core_version = [];
  max_core_version = [];
  compatibility_epoch = pos 1;
  entries = [];
  artifacts = [];
  revocations = revocations;
}

abbrev canonical : Manifest → Option Bytes
canonical m = some (m.version ∷ [])

abbrev prior : PublishedRelease
prior = record {
  manifest = record { signed = manifest 1 first; signatures = [] };
  root = record { signed = old_root; signatures = [] };
  manifest_bytes = 1 ∷ [];
  root_bytes = 1 ∷ [];
}

abbrev next : PublishedRelease
next = record {
  manifest = record { signed = manifest 2 second; signatures = assembled.signatures };
  root = assembled;
  manifest_bytes = 2 ∷ [];
  root_bytes = 2 ∷ [];
}

second_accepted : validate_revocation_history second first ≡ ok tt
unfolding ◌>>=◌ ◌>>◌ for_each ◌==◌ lookup has_key insert index_revocation weakened check_revocation
    validate_revocation_history
second_accepted = refl

third_accepted : validate_revocation_history third second ≡ ok tt
unfolding ◌>>=◌ ◌>>◌ for_each ◌==◌ lookup has_key insert index_revocation weakened check_revocation
    validate_revocation_history
third_accepted = refl

signed_accepted : verify_signed_bytes toy (2 ∷ []) assembled.signatures old_root ≡ ok tt
unfolding ◌>>=◌ ◌>>◌ for_each ◌==◌ lookup has_key contains insert all validate_root validate_key
    id_pattern decode_key digest_pattern is_hex check_fragment valid_signature sized digest_bytes
    hex_encode verify_threshold select_signature verify_signed_bytes
signed_accepted = refl

forward_accepted :
    verify_forward_only toy marshal canonical
      ((codes "demo", prior) ∷ [])
      ((codes "demo", next) ∷ [])
    ≡ ok tt
unfolding ◌>>=◌ ◌>>◌ for_each ◌==◌ lookup has_key contains insert all validate_root validate_key
    id_pattern decode_key digest_pattern is_hex check_fragment valid_signature sized digest_bytes
    hex_encode verify_threshold select_signature verify_signed_bytes index_revocation weakened
    check_revocation verify_revocations_forward check_signed check_forward verify_forward_only
forward_accepted = refl

validate_revocation_history_trans_example :
    (validate_revocation_history third first ≡ ok tt)
    × ((old : Revocation) → Mem old first → Persists third old)
validate_revocation_history_trans_example =
    validate_revocation_history_trans first second third second_accepted third_accepted

verify_signed_bytes-two_signers_example :
    HasTwoSigners toy
      (2 ∷ [])
      old_root
      (trusted (digest_bytes toy (2 ∷ [])) old_root assembled.signatures)
verify_signed_bytes-two_signers_example =
    verify_signed_bytes-two_signers toy (2 ∷ []) assembled.signatures old_root signed_accepted

verify_forward_only-IsAdvanced_example :
    (after : PublishedRelease) × (lookup (codes "demo") ((codes "demo", next) ∷ []) ≡ some after)
    × IsAdvanced toy marshal canonical prior after
verify_forward_only-IsAdvanced_example =
    verify_forward_only-IsAdvanced toy marshal canonical [] [] (codes "demo") prior
      ((codes "demo", next) ∷ []) forward_accepted

permissions_match :
    permission_sets_equal
      (codes "a" ∷ codes "b" ∷ codes "a" ∷ [])
      (codes "b" ∷ codes "a" ∷ codes "a" ∷ [])
    ≡ true
unfolding permission_sets_equal count_up count_down lookup insert all ◌==◌
permissions_match = refl

permission_sets_equal_sound_example :
    Perm (codes "a" ∷ codes "b" ∷ codes "a" ∷ []) (codes "b" ∷ codes "a" ∷ codes "a" ∷ [])
permission_sets_equal_sound_example =
    permission_sets_equal_sound (codes "a" ∷ codes "b" ∷ codes "a" ∷ [])
      (codes "b" ∷ codes "a" ∷ codes "a" ∷ []) permissions_match
