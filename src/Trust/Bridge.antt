-- ===== src/Trust/Bridge.antt =====
-- `AssembleSignedRoot`, `verifyBridgeFragments` and `verifySignedRoot` (internal/assemble/root.go).
pub mod Fragments
pub mod Laws
pub mod RoundTrip
use unlock_catalog_publisher.Base.{
  ℕ, zero, suc, ◌+◌, ◌*◌, Bool, true, false, not, ◌&&◌, ◌||◌, List, [], ◌∷◌, ◌++◌, map, Bytes, Dict,
  Option, none, some, length, leb, contains, lookup, has_key, insert, Result, ok, err, ◌>>=◌, ◌>>◌,
  refuse, or_fail, wrap, for_each, ◌==◌, if◌then◌else◌,
}
use unlock_catalog_publisher.Base.Int.{pos, int_lt}
use unlock_catalog_publisher.Base.Sort.{sort_by}
use unlock_catalog_publisher.Time.{Time, second, add, before, equal, is_zero, utc}
use unlock_catalog_publisher.Primitives.{Primitives, digest_bytes, decode_key, valid_signature}
use unlock_catalog_publisher.Trust.Types.{
  Fragment, Signature, TrustRoot, SignedRoot, BridgeError, current_root, next_root,
  current_root_threshold, next_root_threshold, time_required, version_not_increased,
  window_too_short, keys_not_retained, marshal_failed, key_material_changed,
  root_fragment_digest_mismatch, root_fragment_duplicate, root_fragment_not_trusted,
  root_fragment_key_invalid, root_fragment_signature_invalid, signatures_not_canonical,
}
use unlock_catalog_publisher.Trust.Keys.{validate_root}
use unlock_catalog_publisher.Trust.Threshold.{verify_threshold}

-- `bridgeCompatibilityWindow`: 90 days.
abbrev pub bridge_compatibility_window : ℕ
bridge_compatibility_window = 90 * 24 * 3600 * second

-- `for keyID, material := range current.Keys { union[keyID] = material }`
unfoldable pub copy_keys : Dict Bytes → Dict Bytes → Dict Bytes
copy_keys union [] = union
copy_keys union ((key_id, material) ∷ keys) = copy_keys (insert key_id material union) keys

-- The body of the loop over `next.Keys`; it writes `union`.
unfoldable pub merge_key : Dict Bytes → Bytes × Bytes → Result BridgeError (Dict Bytes)
merge_key union (key_id, material) = do
  refuse (elim (lookup key_id union) [ none ↦ false | some prior ↦ not (prior == material) ])
      key_material_changed
  ok (insert key_id material union)

-- `shared`: the keys of `current` that `next` has, with equal material.
unfoldable pub shared_keys : Dict Bytes → Dict Bytes → ℕ
shared_keys [] next = 0
shared_keys ((key_id, current_key) ∷ current) next =
    let rest = shared_keys current next in
    elim (lookup key_id next) [
      | none ↦ rest
      | some next_key ↦ if current_key == next_key then suc rest else rest
    ]

abbrev pub to_signature : Fragment → Signature
to_signature fragment = record { key_id = fragment.key_id; value = fragment.signature }

-- The signatures of the fragments, sorted by key ID.
unfoldable pub sorted_signatures : List Fragment → List Signature
sorted_signatures fragments = sort_by (λ s. s.key_id) (map to_signature fragments)

unfoldable pub reflect_signatures_equal : List Signature → List Signature → Bool
reflect_signatures_equal [] [] = true
reflect_signatures_equal (l ∷ left) (r ∷ right) =
    l.key_id == r.key_id && l.value == r.value && reflect_signatures_equal left right
reflect_signatures_equal _ _ = false

module _ (P : Primitives) (payload digest : Bytes) (current next : TrustRoot) where
  -- The body of the loop over the fragments; it writes `seen`, `oldFragments` and `newFragments`.
  unfoldable pub check_bridge_fragment :
      Dict Bytes
      → List Bytes × List Fragment × List Fragment
      → Fragment
      → Result BridgeError (List Bytes × List Fragment × List Fragment)
  check_bridge_fragment union (seen, old_fragments, new_fragments) fragment = do
    refuse (not (fragment.request_digest == digest)) root_fragment_digest_mismatch
    refuse (contains fragment.key_id seen) root_fragment_duplicate
    encoded ← or_fail (lookup fragment.key_id union) root_fragment_not_trusted
    public_key ← or_fail (decode_key P encoded) root_fragment_key_invalid
    refuse (not (valid_signature P public_key payload fragment.signature))
        root_fragment_signature_invalid
    ok (
      fragment.key_id ∷ seen,
      (if has_key fragment.key_id current.keys
          then old_fragments ++ fragment ∷ []
          else old_fragments),
      (if has_key fragment.key_id next.keys then new_fragments ++ fragment ∷ [] else new_fragments),
    )

  unfoldable pub verify_bridge_fragments : List Fragment → Result BridgeError (Unit {0})
  unfolding copy_keys merge_key check_bridge_fragment
  verify_bridge_fragments fragments = do
    union ← for_each merge_key (copy_keys [] current.keys) next.keys
    (seen, old_fragments, new_fragments) ←
        for_each (check_bridge_fragment union) ([], [], []) fragments
    wrap current_root_threshold (verify_threshold P payload digest old_fragments current)
    wrap next_root_threshold (verify_threshold P payload digest new_fragments next)
    ok tt

-- `SignatureFragment{…}` of a signature, as `verifySignedRoot` makes it.
abbrev pub to_fragment : Bytes → Signature → Fragment
to_fragment digest signature = record {
  request_digest = digest;
  key_id = signature.key_id;
  signature = signature.value;
}

-- `json.Marshal` of a root, which fails on a time that has no RFC 3339 form.
module _ (P : Primitives) (marshal_root : TrustRoot → Option Bytes) where
  unfoldable pub assemble_signed_root :
      TrustRoot → TrustRoot → List Fragment → Time → Result BridgeError SignedRoot
  unfolding shared_keys sorted_signatures verify_bridge_fragments
  assemble_signed_root current next fragments now = do
    current_keys ← wrap current_root (validate_root P current)
    next_keys ← wrap next_root (validate_root P next)
    refuse (is_zero now || not (equal now (utc now))) time_required
    refuse (leb next.version current.version) version_not_increased
    let compatibility_deadline = add now bridge_compatibility_window
    refuse
        (before current.expires_at compatibility_deadline
          || before next.expires_at compatibility_deadline)
        window_too_short
    let shared = shared_keys current_keys next_keys
    refuse (int_lt (pos shared) current.threshold || int_lt (pos shared) next.threshold)
        keys_not_retained
    payload ← or_fail (marshal_root next) marshal_failed
    verify_bridge_fragments P payload (digest_bytes P payload) current next fragments
    ok (record { signed = next; signatures = sorted_signatures fragments })

  unfoldable pub verify_signed_root : TrustRoot → SignedRoot → Time → Result BridgeError (Unit {0})
  verify_signed_root current root now = do
    payload ← or_fail (marshal_root root.signed) marshal_failed
    let fragments = map (to_fragment (digest_bytes P payload)) root.signatures
    assembled ← assemble_signed_root current root.signed fragments now
    refuse (not (reflect_signatures_equal assembled.signatures root.signatures))
        signatures_not_canonical
    ok tt
