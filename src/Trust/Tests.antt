-- ===== src/Trust/Tests.antt =====
-- Runs of internal/assemble/root.go on the sample roots.
use mathlib.Core.List.Perm
use unlock_catalog_publisher.Base.{
  all, ◌≡◌, refl, [], ◌∷◌, ok, ◌>>=◌, ◌>>◌, for_each, ◌==◌, less, lookup, contains, has_key, insert,
  ◌↔◌,
}
use unlock_catalog_publisher.Base.Patterns.{id_pattern, digest_pattern, is_hex, hex_encode}
use unlock_catalog_publisher.Base.Sort.{sort_by}
use unlock_catalog_publisher.Primitives.{digest_bytes, decode_key, valid_signature, sized}
use unlock_catalog_publisher.Trust.Keys.{validate_root, validate_key}
use unlock_catalog_publisher.Trust.Threshold.{verify_threshold, check_fragment}
use unlock_catalog_publisher.Trust.Threshold.Met.{
  IsMet, verify_threshold_iff, HasTwoSigners, verify_threshold-two_signers,
}
use unlock_catalog_publisher.Trust.Bridge.Fragments.{verify_bridge_fragments-perm}
use unlock_catalog_publisher.Trust.Bridge.RoundTrip.{
  IsAssembled, assemble_signed_root-IsAssembled, verify_signed_root-assemble_signed_root,
}
use unlock_catalog_publisher.Trust.Bridge.{
  assemble_signed_root, verify_signed_root, verify_bridge_fragments, sorted_signatures, shared_keys,
  copy_keys, merge_key, check_bridge_fragment,
}
use unlock_catalog_publisher.Trust.Sample.{
  toy, day_one, old_root, new_root, marshal, digest, signed_by_two, signed_by_one, both, assembled,
}

threshold_met : verify_threshold toy (2 ∷ []) digest both old_root ≡ ok tt
unfolding verify_threshold ◌>>=◌ ◌>>◌ for_each all contains lookup insert ◌==◌ validate_root
    validate_key id_pattern decode_key digest_pattern is_hex check_fragment valid_signature sized
    digest_bytes hex_encode
threshold_met = refl

assembles : assemble_signed_root toy marshal old_root new_root both day_one ≡ ok assembled
unfolding verify_threshold ◌>>=◌ ◌>>◌ for_each all contains lookup insert ◌==◌ validate_root
    validate_key id_pattern decode_key digest_pattern is_hex check_fragment valid_signature sized
    digest_bytes hex_encode assemble_signed_root verify_bridge_fragments check_bridge_fragment
    merge_key copy_keys shared_keys sorted_signatures sort_by less has_key
assembles = refl

bridges : verify_bridge_fragments toy (2 ∷ []) digest old_root new_root both ≡ ok tt
unfolding verify_threshold ◌>>=◌ ◌>>◌ for_each all contains lookup insert ◌==◌ validate_root
    validate_key id_pattern decode_key digest_pattern is_hex check_fragment valid_signature sized
    digest_bytes hex_encode verify_bridge_fragments check_bridge_fragment merge_key copy_keys
    has_key
bridges = refl

verify_threshold_iff_example :
    (verify_threshold toy (2 ∷ []) digest both old_root ≡ ok tt)
    ↔ IsMet toy (2 ∷ []) digest both old_root
verify_threshold_iff_example = verify_threshold_iff toy (2 ∷ []) digest both old_root

verify_threshold-two_signers_example : HasTwoSigners toy (2 ∷ []) old_root both
verify_threshold-two_signers_example =
    verify_threshold-two_signers toy (2 ∷ []) old_root digest both threshold_met

verify_bridge_fragments-perm_example :
    verify_bridge_fragments toy
      (2 ∷ [])
      digest
      old_root
      new_root
      (signed_by_one ∷ signed_by_two ∷ [])
    ≡ ok tt
verify_bridge_fragments-perm_example =
    verify_bridge_fragments-perm toy (2 ∷ []) digest old_root new_root both
      (signed_by_one ∷ signed_by_two ∷ []) (Perm.swap signed_by_one signed_by_two []) bridges

assemble_signed_root-IsAssembled_example :
    IsAssembled toy marshal old_root new_root both day_one assembled
assemble_signed_root-IsAssembled_example =
    assemble_signed_root-IsAssembled toy marshal old_root new_root both day_one assembles

verify_signed_root-assemble_signed_root_example :
    verify_signed_root toy marshal old_root assembled day_one ≡ ok tt
verify_signed_root-assemble_signed_root_example =
    verify_signed_root-assemble_signed_root toy marshal old_root new_root both day_one assembles
