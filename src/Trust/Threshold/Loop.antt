-- ===== src/Trust/Threshold/Loop.antt =====
-- The loop of `VerifyThreshold` over the fragments: when it ends without an error.
use unlock_catalog_publisher.Base.{
  ℕ, ◌+◌, ◌≡◌, refl, subst, ap, Bool, true, false, ◌&&◌, List, [], ◌∷◌, Bytes, Dict, none, some,
  arith, ◌>>=◌, ◌>>◌, length, all, contains, lookup, ==_iff, ok, for_each, ◌==◌, Option-cases, inl,
  inr, >>=-eq-ok, ok-injective, ◌↔◌, map,
}
use unlock_catalog_publisher.Base.Distinct.{distinct_from}
use unlock_catalog_publisher.Primitives.{Primitives, valid_signature}
use unlock_catalog_publisher.Trust.Types.{Fragment}
use unlock_catalog_publisher.Trust.Threshold.{check_fragment}

abbrev pub key_ids : List Fragment → List Bytes
key_ids = map λ f. f.key_id

module _ (P : Primitives) (payload : Bytes) (keys : Dict Bytes) where
  -- A trusted key with the fragment's ID signed the payload.
  abbrev pub SignedBy : Fragment → Type 0
  SignedBy f =
      (public_key : Bytes) × (lookup f.key_id keys ≡ some public_key)
      × (valid_signature P public_key payload f.signature ≡ true)

  -- `SignedBy`, as a test.
  pub signed : Fragment → Bool
  signed fragment = elim (lookup fragment.key_id keys) [
    | none ↦ false
    | some public_key ↦ valid_signature P public_key payload fragment.signature
  ]

  pub signed_sound : (f : Fragment) → signed f ≡ true → SignedBy f
  unfolding signed
  signed_sound f h = elim (Option-cases (lookup f.key_id keys)) [
    | inl e ↦ absurd (ground arith)
    | inr (k, e) ↦ (k, e, ground arith)
  ]

module _ (P : Primitives) (payload request_digest : Bytes) (keys : Dict Bytes) where
  pub acceptable : Fragment → Bool
  acceptable f = f.request_digest == request_digest && signed P payload keys f

  check_fragment-eq-ok :
      (seen : List Bytes) (valid : ℕ) (f : Fragment) (s : List Bytes × ℕ)
      → (check_fragment P payload request_digest keys (seen, valid) f ≡ ok s) ↔ (
          (acceptable f ≡ true)
          × (contains f.key_id seen ≡ false)
          × (s ≡ (f.key_id ∷ seen, valid + 1)))
  unfolding check_fragment acceptable signed ◌>>=◌ ◌>>◌
  check_fragment-eq-ok seen valid f s = (λ h. ground arith, λ h. ground arith)

  pub loop_sound :
      (fragments : List Fragment) (seen : List Bytes) (valid : ℕ) {s : List Bytes × ℕ}
      → for_each (check_fragment P payload request_digest keys) (seen, valid) fragments ≡ ok s
      → (all acceptable fragments ≡ true)
        × (distinct_from seen (key_ids fragments) ≡ true)
        × (s.1 ≡ valid + length fragments)
  unfolding for_each all distinct_from ◌>>=◌
  loop_sound [] seen valid h =
      (refl, refl, omega (arith, ap (λ (s : List Bytes × ℕ). s.1) (ok-injective h)))
  loop_sound (f ∷ fs) seen valid {s} h =
      let (s', first, rest) =
        >>=-eq-ok (check_fragment P payload request_digest keys (seen, valid) f)
          (λ s'. for_each (check_fragment P payload request_digest keys) s' fs) h in
      let (good, fresh, out) = (check_fragment-eq-ok seen valid f s').0 first in
      let (goods, apart, count) = loop_sound fs (f.key_id ∷ seen) (valid + 1) {s = s} (
        subst (λ t. for_each (check_fragment P payload request_digest keys) t fs ≡ ok s) out
          rest) in
      (ground arith, ground arith, omega arith)

  pub loop_complete :
      (fragments : List Fragment) (seen : List Bytes) (valid : ℕ)
      → all acceptable fragments ≡ true
      → distinct_from seen (key_ids fragments) ≡ true
      → (s : List Bytes × ℕ) × (for_each
            (check_fragment P payload request_digest keys)
            (seen, valid)
            fragments
          ≡ ok s)
        × (s.1 ≡ valid + length fragments)
  unfolding for_each all distinct_from ◌>>=◌
  loop_complete [] seen valid h k = ((seen, valid), refl, omega arith)
  loop_complete (f ∷ fs) seen valid h k =
      let (s, rest, count) =
        loop_complete fs (f.key_id ∷ seen) (valid + 1) (ground arith) (ground arith) in
      let first =
        (check_fragment-eq-ok seen valid f (f.key_id ∷ seen, valid + 1)).1
          (ground arith, ground arith, refl) in
      (s, rw first rest, omega arith)

  pub acceptable_sound :
      (f : Fragment)
      → acceptable f ≡ true
      → (f.request_digest ≡ request_digest) × SignedBy P payload keys f
  unfolding acceptable
  acceptable_sound f h = (
    ground (arith, ==_iff f.request_digest request_digest),
    signed_sound P payload keys f (ground arith),
  )

  pub acceptable_complete :
      (f : Fragment)
      → f.request_digest ≡ request_digest
      → SignedBy P payload keys f
      → acceptable f ≡ true
  unfolding acceptable signed
  acceptable_complete f h s = ground (arith, ==_iff f.request_digest request_digest)
