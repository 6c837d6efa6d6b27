-- ===== src/Trust/Keys.antt =====
-- `validateRoot` (internal/assemble/root.go): the keys of a root, decoded.
use unlock_catalog_publisher.Base.{
  ◌≡◌, ◌≢◌, Bool, true, false, not, ◌||◌, List, [], ◌∷◌, Bytes, Dict, some, arith, eqb, length,
  contains, lookup, insert, lookup-insert, ==_iff, for_each-invariant, Result, ok, ◌>>=◌, ◌>>◌,
  refuse, or_fail, for_each, Option-cases, inl, inr, refuse_elim, bind_elim, ok-injective,
}
use unlock_catalog_publisher.Base.Int.{pos, int_eq, int_eq_iff}
use unlock_catalog_publisher.Base.Patterns.{id_pattern}
use unlock_catalog_publisher.Time.{is_zero}
use unlock_catalog_publisher.Primitives.{Primitives, decode_key}
use unlock_catalog_publisher.Trust.Types.{
  TrustRoot, TrustError, not_two_of_three, key_id_invalid, not_ed25519, key_material_reused,
}

-- `root.Version == 0 || root.Threshold != 2 || len(root.Keys) != 3 || root.ExpiresAt.IsZero()`
abbrev malformed : TrustRoot → Bool
malformed root =
    eqb root.version 0
    || not (int_eq root.threshold (pos 2))
    || not (eqb (length root.keys) 3)
    || is_zero root.expires_at

-- A root that is versioned, asks for two of its three keys, and has an expiry.
pub record IsTwoOfThree (root : TrustRoot) : Type 0 where
  pub versioned : root.version ≢ 0
  pub two : root.threshold ≡ pos 2
  pub three : length root.keys ≡ 3
  pub expires : root.expires_at.instant ≢ 0

malformed-IsTwoOfThree : (root : TrustRoot) → malformed root ≡ false → IsTwoOfThree root
malformed-IsTwoOfThree root h = ground (arith, int_eq_iff root.threshold (pos 2))

module _ (P : Primitives) where
  -- The body of the loop over `root.Keys`; it writes `seenMaterial` and `keys`.
  unfoldable pub validate_key :
      List Bytes × Dict Bytes → Bytes × Bytes → Result TrustError (List Bytes × Dict Bytes)
  validate_key (seen_material, keys) (key_id, encoded) = do
    refuse (not (id_pattern key_id)) key_id_invalid
    material ← or_fail (decode_key P encoded) not_ed25519
    refuse (contains material seen_material) key_material_reused
    ok (material ∷ seen_material, insert key_id material keys)

  unfoldable pub validate_root : TrustRoot → Result TrustError (Dict Bytes)
  unfolding validate_key
  validate_root root = do
    refuse (malformed root) not_two_of_three
    (seen_material, keys) ← for_each validate_key ([], []) root.keys
    ok keys

  -- Different IDs have different material, and the material of each is in `seen`.
  record IsSeparate (seen : List Bytes) (keys : Dict Bytes) : Type 0 where
    listed : (k m : Bytes) → lookup k keys ≡ some m → contains m seen ≡ true
    separate : (j k m : Bytes) → lookup j keys ≡ some m → lookup k keys ≡ some m → j ≡ k

  -- What a step of the loop that succeeds has checked, and what it wrote.
  validate_key-ok :
      (seen : List Bytes) (keys : Dict Bytes) (id encoded : Bytes) {s : List Bytes × Dict Bytes}
      → validate_key (seen, keys) (id, encoded) ≡ ok s
      → (m : Bytes) × (decode_key P encoded ≡ some m)
        × (id_pattern id ≡ true)
        × (contains m seen ≡ false)
        × (s ≡ (m ∷ seen, insert id m keys))
  unfolding validate_key ◌>>=◌ ◌>>◌
  validate_key-ok seen keys id encoded h = elim (Option-cases (decode_key P encoded)) [
    | inl e ↦ absurd (ground arith)
    | inr (m, e) ↦ (m, e, ground arith, ground arith, ground arith)
  ]

  insert-IsSeparate :
      (seen : List Bytes) (keys : Dict Bytes) (id m : Bytes)
      → contains m seen ≡ false
      → IsSeparate seen keys
      → IsSeparate (m ∷ seen) (insert id m keys)
  unfolding contains
  insert-IsSeparate seen keys id m fresh h = record {
    listed = λ k n found. ground (arith, lookup-insert id k m keys, h.listed k n, ==_iff m n);
    separate = λ j k n fj fk. ground (
      arith,
      lookup-insert id j m keys,
      lookup-insert id k m keys,
      h.listed j n,
      h.listed k n,
      h.separate j k n,
      ==_iff id j,
      ==_iff id k,
      ==_iff m n,
    );
  }

  validate_keys-IsSeparate :
      (entries : Dict Bytes) {s : List Bytes × Dict Bytes}
      → for_each validate_key ([], []) entries ≡ ok s
      → IsSeparate s.0 s.1
  unfolding lookup
  validate_keys-IsSeparate entries h =
      for_each-invariant validate_key (λ s. IsSeparate s.0 s.1)
        (λ (seen, keys) (id, encoded) t v e.
          let (m, _, _, fresh, out) = validate_key-ok seen keys id encoded e in
          rw out (insert-IsSeparate seen keys id m fresh v))
        entries ([], []) (record { listed = λ k m e. cc; separate = λ j k m e f. cc }) h

  pub validate_root-ok :
      (root : TrustRoot) {keys : Dict Bytes}
      → validate_root root ≡ ok keys
      → IsTwoOfThree root
        × (s : List Bytes × Dict Bytes) × (for_each validate_key ([], []) root.keys ≡ ok s)
        × (s.1 ≡ keys)
  unfolding validate_root
  validate_root-ok root h = refuse_elim _ _ _ h λ shape rest.
      bind_elim _ _ rest
        λ s loop out. (malformed-IsTwoOfThree root shape, s, loop, ok-injective out)

  -- Two IDs of a validated root with the same key material are one ID.
  pub validate_root-separate :
      (root : TrustRoot) {keys : Dict Bytes} (j k m : Bytes)
      → validate_root root ≡ ok keys
      → lookup j keys ≡ some m
      → lookup k keys ≡ some m
      → j ≡ k
  validate_root-separate root j k m h fj fk =
      let (_, s, loop, out) = validate_root-ok root h in
      (validate_keys-IsSeparate root.keys loop).separate j k m (rw out fj) (rw out fk)
