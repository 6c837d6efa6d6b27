-- ===== src/Signing/Signed.antt =====
-- What `Sign` makes and `ValidateFragmentSet` accepts (internal/signing/provider.go).
use mathlib.Core.List.{Nodup-nil}
use unlock_catalog_publisher.Base.{
  ◌≡◌, ◌≢◌, refl, sym, ap, subst, ◌∙◌, Bool, true, false, ◌&&◌, List, [], ◌∷◌, Nodup, Bytes, Dict,
  none, some, arith, length, all, contains, lookup, ok, for_each, ok-injective, some-injective,
  bind_elim, then_elim, refuse_elim, or_fail_elim, ◌>>=◌, ◌>>◌, ==_iff, ==_refl, ◌==◌, not-eq-false,
  inl, inr, Bool-cases,
}
use unlock_catalog_publisher.Base.Growth.{flat_map, Grows, Grows-one, for_each-Grows, for_each-all}
use unlock_catalog_publisher.Base.Patterns.{id_pattern, digest_pattern}
use unlock_catalog_publisher.Primitives.{
  Primitives, public_key_size, signature_size, sized, valid_signature,
}
use unlock_catalog_publisher.Trust.Types.{Fragment}
use unlock_catalog_publisher.Signing.Types.{candidate_required, provider_required}
use unlock_catalog_publisher.Signing.Provider.{KeyProvider, PreparedCandidate, sign_candidate}
use unlock_catalog_publisher.Signing.Fragments.{
  validate_fragment_shape, guard_fragment, validate_fragment_set,
}

-- The material of the fragment's key.
abbrev pub material : Dict Bytes → Fragment → List Bytes
material public_keys fragment = elim (sized public_key_size (lookup fragment.key_id public_keys)) [
  | none ↦ []
  | some key ↦ key ∷ []
]

-- The fragment is for the request, and its key signed the payload.
abbrev pub guarded : Primitives → Bytes → Bytes → Dict Bytes → Fragment → Bool
guarded P payload request_digest public_keys fragment =
    fragment.request_digest == request_digest
    && elim (sized public_key_size (lookup fragment.key_id public_keys)) [
      | none ↦ false
      | some key ↦ valid_signature P key payload fragment.signature
    ]

module _ (P : Primitives) (payload request_digest : Bytes) (public_keys : Dict Bytes) where
  guard_fragment-ok :
      (s : List Bytes × List Bytes) (f : Fragment) (t : List Bytes × List Bytes)
      → guard_fragment P payload request_digest public_keys s f ≡ ok t
      → (guarded P payload request_digest public_keys f ≡ true)
        × Grows (s.0) (t.0) (f.key_id ∷ [])
        × Grows (s.1) (t.1) (material public_keys f)
  unfolding guard_fragment
  guard_fragment-ok s f t h = then_elim _ _ h λ shape h₁. refuse_elim _ _ _ h₁ λ same h₂.
      refuse_elim _ _ _ h₂ λ fresh h₃. or_fail_elim _ _ _ h₃ λ key found h₄.
        refuse_elim _ _ _ h₄ λ new h₅. refuse_elim _ _ _ h₅ λ signed out.
          let made = ok-injective out in
          (
            ground arith,
            subst (λ r. Grows (s.0) (r.0) (f.key_id ∷ [])) made (Grows-one (s.0) f.key_id fresh),
            subst (λ r. Grows (s.1) (r.1) (material public_keys f)) made
                (rw (found, material) (Grows-one (s.1) key new)),
          )

  -- An accepted set is not empty, each of its fragments is for the request and signed by its key, and
  -- neither two key IDs nor the material of two keys are the same.
  pub validate_fragment_set-guarded :
      (fragments : List Fragment)
      → validate_fragment_set P payload request_digest public_keys fragments ≡ ok tt
      → (length fragments ≢ 0)
        × (all (guarded P payload request_digest public_keys) fragments ≡ true)
        × Nodup (flat_map (λ f. f.key_id ∷ []) fragments)
        × Nodup (flat_map (material public_keys) fragments)
  unfolding validate_fragment_set
  validate_fragment_set-guarded fragments h = refuse_elim _ _ _ h λ digest h₁.
      refuse_elim _ _ _ h₁ λ some_fragment h₂. bind_elim _ _ h₂ λ s loop out.
        let body = guard_fragment P payload request_digest public_keys in
        let (ids, ids_once) =
          for_each-Grows body (λ r. r.0) (λ f. f.key_id ∷ [])
            (λ r x u e. (guard_fragment-ok r x u e).1) fragments ([], []) loop in
        let (keys, keys_once) =
          for_each-Grows body (λ r. r.1) (material public_keys)
            (λ r x u e. (guard_fragment-ok r x u e).2) fragments ([], []) loop in
        (
          ground arith,
          for_each-all body _ (λ r x u e. (guard_fragment-ok r x u e).0) fragments ([], []) loop,
          subst Nodup ids (ids_once Nodup-nil),
          subst Nodup keys (keys_once Nodup-nil),
        )

module _ (P : Primitives) (base64_encode : Bytes → Bytes)
    (decode-encode : (s : Bytes) → P.base64_decode (base64_encode s) ≡ some s)
    (decode-nil : P.base64_decode [] ≡ some []) where
  encode-not_nil : (s : Bytes) → length s ≡ signature_size → base64_encode s == [] ≡ false
  encode-not_nil s h = elim (Bool-cases (base64_encode s == [])) [
    | inr e ↦ e
    | inl e ↦
        let nil : base64_encode s ≡ [] = (==_iff (base64_encode s) []).0 e in
        let same : some [] ≡ some s =
          sym decode-nil ∙ ap P.base64_decode (sym nil) ∙ decode-encode s in
        absurd (ground (arith, same, h))
  ]

  -- What a signature that is returned has gone through.
  record IsSigned (candidate : PreparedCandidate) (provider : KeyProvider) (fragment : Fragment)
      : Type 0 where
    key : Bytes
    signature : Bytes
    named : id_pattern provider.key_id ≡ true
    given : provider.public_key ≡ ok key
    key_long : length key ≡ public_key_size
    signature_long : length signature ≡ signature_size
    verified : P.ed25519_verify key candidate.payload signature ≡ true
    made : fragment ≡ record {
      request_digest = candidate.inspection.request_digest;
      key_id = provider.key_id;
      signature = base64_encode signature;
    }

  sign_candidate-IsSigned :
      (candidate : PreparedCandidate) (provider : KeyProvider) (fragment : Fragment)
      → sign_candidate P base64_encode (some candidate) (some provider) ≡ ok fragment
      → IsSigned candidate provider fragment
  unfolding sign_candidate
  sign_candidate-IsSigned candidate provider fragment h =
      or_fail_elim _ candidate_required _ h λ c here h₀.
        or_fail_elim _ provider_required _ h₀ λ p there h₁. refuse_elim _ _ _ h₁ λ named h₂.
          bind_elim _ _ h₂ λ key read h₃. refuse_elim _ _ _ h₃ λ long h₄.
            bind_elim _ _ h₄ λ signature signed h₅. refuse_elim _ _ _ h₅ λ valid out.
              let c_same : c ≡ candidate = some-injective (sym here) in
              let p_same : p ≡ provider = some-injective (sym there) in
              subst (λ c. IsSigned c provider fragment) c_same
                (subst (λ p. IsSigned c p fragment) p_same
                  (record {
                    key = key;
                    signature = signature;
                    named = not-eq-false _ named;
                    given = read;
                    key_long = ground (arith, long);
                    signature_long = ground (arith, valid);
                    verified = ground (arith, valid);
                    made = sym (ok-injective out);
                  }))

  sized_key :
      (key : Bytes) → length key ≡ public_key_size → sized public_key_size (some key) ≡ some key
  unfolding sized
  sized_key key h = ground (arith, h)

  valid_encoded :
      (key payload signature : Bytes)
      → length signature ≡ signature_size
      → P.ed25519_verify key payload signature ≡ true
      → valid_signature P key payload (base64_encode signature) ≡ true
  unfolding valid_signature sized
  valid_encoded key payload signature h v = ground (arith, h, v, decode-encode signature)

  -- What `Sign` returns for a request's candidate, the guard accepts with the provider's key, when
  -- base64 decodes what it encodes.
  pub validate_fragment_set-sign_candidate :
      (candidate : PreparedCandidate) (provider : KeyProvider) (public_keys : Dict Bytes)
      (key : Bytes) (fragment : Fragment)
      → digest_pattern candidate.inspection.request_digest ≡ true
      → provider.public_key ≡ ok key
      → lookup provider.key_id public_keys ≡ some key
      → sign_candidate P base64_encode (some candidate) (some provider) ≡ ok fragment
      → validate_fragment_set P candidate.payload candidate.inspection.request_digest public_keys
          (fragment ∷ [])
        ≡ ok tt
  unfolding validate_fragment_set guard_fragment validate_fragment_shape contains for_each ◌>>=◌
      ◌>>◌
  validate_fragment_set-sign_candidate candidate provider public_keys key fragment digest given
        known h =
      let s = sign_candidate-IsSigned candidate provider fragment h in
      let same : s.key ≡ key = ok-injective (sym s.given ∙ given) in
      let key_long : length key ≡ public_key_size = ap length (sym same) ∙ s.key_long in
      let verified =
        subst (λ k. P.ed25519_verify k candidate.payload s.signature ≡ true) same s.verified in
      rw
        (
          s.made,
          digest,
          s.named,
          ==_refl candidate.inspection.request_digest,
          encode-not_nil s.signature s.signature_long,
          known,
          sized_key key key_long,
          valid_encoded key candidate.payload s.signature s.signature_long verified,
        )
        refl
