-- ===== src/Trust/Bridge/RoundTrip.antt =====
-- `AssembleSignedRoot` and then `verifySignedRoot` (internal/assemble/root.go); what each assembled
-- root has.
use mathlib.Core.List.Perm
use mathlib.Core.List.{mem-cons_self, mem-cons_of_mem}
use unlock_catalog_publisher.Base.{
  ◌+◌, ◌≤◌, ◌<◌, ◌≡◌, refl, sym, ap, ◌∙◌, true, List, [], ◌∷◌, map, Bytes, Option, some, arith, ok,
  ◌>>=◌, ◌>>◌, Perm, Mem, ==_refl,
}
use unlock_catalog_publisher.Base.Sort.{
  sort_by, IsSorted, sort_by-perm, sort_by-IsSorted, sort_by_idem, sort_by-map,
}
use unlock_catalog_publisher.Time.{Time}
use unlock_catalog_publisher.Primitives.{Primitives, digest_bytes}
use unlock_catalog_publisher.Trust.Types.{Fragment, Signature, TrustRoot, SignedRoot}
use unlock_catalog_publisher.Trust.Threshold.Met.{HasTwoSigners, verify_threshold-two_signers}
use unlock_catalog_publisher.Trust.Bridge.{
  assemble_signed_root, verify_signed_root, sorted_signatures, to_signature, to_fragment,
  reflect_signatures_equal, bridge_compatibility_window,
}
use unlock_catalog_publisher.Trust.Bridge.Fragments.{
  of_root, accepts-digest, verify_bridge_fragments_sound, verify_bridge_fragments-perm,
}
use unlock_catalog_publisher.Trust.Bridge.Laws.{
  IsChecked, assemble_signed_root_sound, assemble_signed_root_complete,
}

reflect_signatures_equal_refl : (s : List Signature) → reflect_signatures_equal s s ≡ true
unfolding reflect_signatures_equal
reflect_signatures_equal_refl [] = refl
reflect_signatures_equal_refl (x ∷ xs) =
    ground (arith, ==_refl x.key_id, ==_refl x.value, reflect_signatures_equal_refl xs)

map-to_signature : (d : Bytes) (s : List Signature) → map to_signature (map (to_fragment d) s) ≡ s
map-to_signature d [] = refl
map-to_signature d (x ∷ xs) = ap (λ r. x ∷ r) (map-to_signature d xs)

map-to_fragment :
    (d : Bytes) (fs : List Fragment)
    → ((f : Fragment) → Mem f fs → f.request_digest ≡ d)
    → map (to_fragment d) (map to_signature fs) ≡ fs
map-to_fragment d [] h = refl
map-to_fragment d (f ∷ fs) h =
    let rest = map-to_fragment d fs (λ g m. h g (mem-cons_of_mem f m)) in
    rw (rest, sym (h f mem-cons_self))

resigned :
    (d : Bytes) (fs : List Fragment)
    → ((f : Fragment) → Mem f fs → f.request_digest ≡ d)
    → map (to_fragment d) (sorted_signatures fs) ≡ sort_by (λ f. f.key_id) fs
unfolding sorted_signatures
resigned d fs h =
    ap (map (to_fragment d)) (sort_by-map to_signature (λ s. s.key_id) fs)
    ∙ map-to_fragment d (sort_by (λ f. f.key_id) fs)
        (λ f m. h f ((Perm.mem_iff (sort_by-perm (λ f. f.key_id) fs)).0 m))

sorted_signatures-to_fragment :
    (d : Bytes) (fs : List Fragment)
    → sorted_signatures (map (to_fragment d) (sorted_signatures fs)) ≡ sorted_signatures fs
unfolding sorted_signatures
sorted_signatures-to_fragment d fs =
    ap (sort_by λ s. s.key_id) (map-to_signature d (sorted_signatures fs))
    ∙ sort_by_idem (λ s. s.key_id) (map to_signature fs)

module _ (P : Primitives) (marshal_root : TrustRoot → Option Bytes) (current next : TrustRoot)
    (fragments : List Fragment) (now : Time) where
  -- The fragments that verification makes of the signatures pass the same checks.
  resigned-IsChecked :
      (c : IsChecked P marshal_root current next fragments now)
      → IsChecked P marshal_root current next
          (map (to_fragment (digest_bytes P c.payload)) (sorted_signatures fragments))
          now
  resigned-IsChecked c =
      let digest = digest_bytes P c.payload in
      let b = verify_bridge_fragments_sound P c.payload digest current next fragments c.bridged in
      let same =
        resigned digest fragments
          (λ f m. accepts-digest P c.payload digest current next b.union f (b.accepted f m)) in
      record {
        current_keys = c.current_keys;
        next_keys = c.next_keys;
        payload = c.payload;
        current_valid = c.current_valid;
        next_valid = c.next_valid;
        started = c.started;
        increases = c.increases;
        current_lasts = c.current_lasts;
        next_lasts = c.next_lasts;
        current_retained = c.current_retained;
        next_retained = c.next_retained;
        marshalled = c.marshalled;
        bridged = rw same (
            verify_bridge_fragments-perm P c.payload digest current next fragments _
              (Perm.symm (sort_by-perm (λ f. f.key_id) fragments)) c.bridged);
      }

  -- A root that was assembled is accepted by `verifySignedRoot` at the same time.
  pub verify_signed_root-assemble_signed_root :
      {root : SignedRoot}
      → assemble_signed_root P marshal_root current next fragments now ≡ ok root
      → verify_signed_root P marshal_root current root now ≡ ok tt
  unfolding verify_signed_root ◌>>=◌ ◌>>◌
  verify_signed_root-assemble_signed_root h =
      let (c, out) = assemble_signed_root_sound P marshal_root current next fragments now h in
      let again =
        assemble_signed_root_complete P marshal_root current next _ now (resigned-IsChecked c) in
      rw (out, c.marshalled, again)
        (rw (
          sorted_signatures-to_fragment (digest_bytes P c.payload) fragments,
          reflect_signatures_equal_refl (sorted_signatures fragments),
        ))

  -- The result of `AssembleSignedRoot`, and what it guarantees.
  pub record IsAssembled (root : SignedRoot) : Type 0 where
    pub payload : Bytes
    pub marshalled : marshal_root next ≡ some payload
    pub unchanged : root.signed ≡ next
    pub newer : current.version < next.version
    pub current_lasts : now.instant + bridge_compatibility_window ≤ current.expires_at.instant
    pub next_lasts : now.instant + bridge_compatibility_window ≤ next.expires_at.instant
    pub each_signature : Perm root.signatures (map to_signature fragments)
    pub in_order : IsSorted (λ s. s.key_id) root.signatures
    pub current_signers : HasTwoSigners P payload current (of_root current fragments)
    pub next_signers : HasTwoSigners P payload next (of_root next fragments)

  -- `AssembleSignedRoot` returns the next root unchanged with the signatures of the fragments in
  -- order; its version is newer, both roots last 90 more days, and two keys of each signed it.
  pub assemble_signed_root-IsAssembled :
      {root : SignedRoot}
      → assemble_signed_root P marshal_root current next fragments now ≡ ok root
      → IsAssembled root
  unfolding sorted_signatures
  assemble_signed_root-IsAssembled h =
      let (c, out) = assemble_signed_root_sound P marshal_root current next fragments now h in
      let digest = digest_bytes P c.payload in
      let b = verify_bridge_fragments_sound P c.payload digest current next fragments c.bridged in
      rw out (record {
        payload = c.payload;
        marshalled = c.marshalled;
        unchanged = refl;
        newer = ground (arith, c.increases);
        current_lasts = ground (arith, c.current_lasts);
        next_lasts = ground (arith, c.next_lasts);
        each_signature = sort_by-perm (λ s. s.key_id) (map to_signature fragments);
        in_order = sort_by-IsSorted (λ s. s.key_id) (map to_signature fragments);
        current_signers =
            verify_threshold-two_signers P c.payload current digest _ b.current_threshold;
        next_signers = verify_threshold-two_signers P c.payload next digest _ b.next_threshold;
      })
