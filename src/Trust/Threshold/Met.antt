-- ===== src/Trust/Threshold/Met.antt =====
-- When `VerifyThreshold` accepts, and what that means.
use mathlib.Core.List.{mem-cons_self, mem-cons_of_mem, Nodup-cons}
use mathlib.Core.List.Perm
use unlock_catalog_publisher.Base.{
  ℕ, ◌≤◌, ◌≡◌, ◌≢◌, sym, subst, true, false, List, [], ◌∷◌, Bytes, Dict, arith, length, ok,
  bind_elim, refuse_elim, ◌>>=◌, ◌>>◌, not-eq-false, ◌↔◌, Mem, Nodup, Perm, length-perm, all-mem,
  all-of_mem,
}
use unlock_catalog_publisher.Base.Distinct.{distinct_iff}
use unlock_catalog_publisher.Base.Int.{pos, int_lt}
use unlock_catalog_publisher.Base.Patterns.{digest_pattern}
use unlock_catalog_publisher.Primitives.{Primitives}
use unlock_catalog_publisher.Trust.Types.{Fragment, TrustRoot}
use unlock_catalog_publisher.Trust.Keys.{
  IsTwoOfThree, validate_root, validate_root-ok, validate_root-separate,
}
use unlock_catalog_publisher.Trust.Threshold.{verify_threshold}
use unlock_catalog_publisher.Trust.Threshold.Loop.{
  key_ids, SignedBy, acceptable, loop_sound, loop_complete, acceptable_sound, acceptable_complete,
}

-- Both thresholds of a 2-of-3 root, on a count.
enough :
    (root : TrustRoot) (n : ℕ)
    → IsTwoOfThree root
    → (int_lt (pos n) root.threshold ≡ false) ↔ (2 ≤ n)
enough root n shape = rw shape.two ground arith

module _ (P : Primitives) (payload request_digest : Bytes) where
  -- What the code promises of an accepted set of fragments.
  pub record IsMet (fragments : List Fragment) (root : TrustRoot) : Type 0 where
    pub keys : Dict Bytes
    pub root_valid : validate_root P root ≡ ok keys
    pub digest_valid : digest_pattern request_digest ≡ true
    pub enough : 2 ≤ length fragments
    pub same_request : (f : Fragment) → Mem f fragments → f.request_digest ≡ request_digest
    pub signed_by : (f : Fragment) → Mem f fragments → SignedBy P payload keys f
    pub one_each : Nodup (key_ids fragments)

  verify_threshold_sound :
      (fragments : List Fragment) (root : TrustRoot)
      → verify_threshold P payload request_digest fragments root ≡ ok tt
      → IsMet fragments root
  unfolding verify_threshold
  verify_threshold_sound fragments root h = bind_elim _ _ h λ keys valid_root h₁.
      refuse_elim _ _ _ h₁ λ digest h₂. refuse_elim _ _ _ h₂ λ many h₃.
        bind_elim _ _ h₃ λ s loop h₄.
          let shape = (validate_root-ok P root valid_root).0 in
          let (good, apart, _) = loop_sound P payload request_digest keys fragments [] 0 loop in
          let each = λ (f : Fragment) (m : Mem f fragments).
            acceptable_sound P payload request_digest keys f (all-mem _ fragments good f m) in
          record {
            keys = keys;
            root_valid = valid_root;
            digest_valid = not-eq-false _ digest;
            enough = (enough root (length fragments) shape).0 many;
            same_request = λ f m. (each f m).0;
            signed_by = λ f m. (each f m).1;
            one_each = (distinct_iff _).0 apart;
          }

  verify_threshold_complete :
      (fragments : List Fragment) (root : TrustRoot)
      → IsMet fragments root
      → verify_threshold P payload request_digest fragments root ≡ ok tt
  unfolding verify_threshold ◌>>=◌ ◌>>◌
  verify_threshold_complete fragments root met =
      let shape = (validate_root-ok P root met.root_valid).0 in
      let good = all-of_mem (acceptable P payload request_digest met.keys) fragments (λ f m.
        acceptable_complete P payload request_digest met.keys f (met.same_request f m)
          (met.signed_by f m)) in
      let (s, loop, count) =
        loop_complete P payload request_digest met.keys fragments [] 0 good
          ((distinct_iff _).1 met.one_each) in
      rw
        (
          met.root_valid,
          met.digest_valid,
          (enough root (length fragments) shape).1 met.enough,
          loop,
        )
        (rw ((enough root s.1 shape).1 (omega (arith, met.enough))))

  -- `VerifyThreshold` accepts exactly the sets of fragments that meet the threshold of the root.
  pub verify_threshold_iff :
      (fragments : List Fragment) (root : TrustRoot)
      → (verify_threshold P payload request_digest fragments root ≡ ok tt) ↔ IsMet fragments root
  verify_threshold_iff fragments root =
      (verify_threshold_sound fragments root, verify_threshold_complete fragments root)

  -- The order in which the fragments come does not matter.
  pub verify_threshold-perm :
      (fragments others : List Fragment) (root : TrustRoot)
      → Perm fragments others
      → verify_threshold P payload request_digest fragments root ≡ ok tt
      → verify_threshold P payload request_digest others root ≡ ok tt
  verify_threshold-perm fragments others root p h =
      let met = verify_threshold_sound fragments root h in
      verify_threshold_complete others root (record {
        keys = met.keys;
        root_valid = met.root_valid;
        digest_valid = met.digest_valid;
        enough = omega (arith, met.enough, length-perm p);
        same_request = λ f m. met.same_request f ((Perm.mem_iff p).1 m);
        signed_by = λ f m. met.signed_by f ((Perm.mem_iff p).1 m);
        one_each = Perm.nodup (Perm.map (λ f. f.key_id) p) met.one_each;
      })

module _ (P : Primitives) (payload : Bytes) (root : TrustRoot) where
  -- Two of the fragments are signatures of the payload by two different keys of a valid root.
  pub record HasTwoSigners (fragments : List Fragment) : Type 0 where
    pub keys : Dict Bytes
    pub root_valid : validate_root P root ≡ ok keys
    pub first : Fragment
    pub second : Fragment
    pub first_given : Mem first fragments
    pub second_given : Mem second fragments
    pub first_signed : SignedBy P payload keys first
    pub second_signed : SignedBy P payload keys second
    pub differ : first_signed.0 ≢ second_signed.0

  IsMet-two_signers :
      (request_digest : Bytes) (fragments : List Fragment)
      → IsMet P payload request_digest fragments root
      → HasTwoSigners fragments
  IsMet-two_signers d [] met = absurd (omega (arith, met.enough))
  IsMet-two_signers d (f ∷ []) met = absurd (omega (arith, met.enough))
  IsMet-two_signers d (f ∷ g ∷ rest) met =
      let s = met.signed_by f mem-cons_self in
      let t = met.signed_by g (mem-cons_of_mem f mem-cons_self) in
      record {
        keys = met.keys;
        root_valid = met.root_valid;
        first = f;
        second = g;
        first_given = mem-cons_self;
        second_given = mem-cons_of_mem f mem-cons_self;
        first_signed = s;
        second_signed = t;
        differ = λ e. (Nodup-cons.0 met.one_each).0 (
            subst (λ k. Mem k (key_ids (g ∷ rest)))
              (sym
                (validate_root-separate P root f.key_id g.key_id s.0 met.root_valid s.1 (rw e t.1)))
              mem-cons_self);
      }

  -- An accepted set of fragments has the signatures of two different keys.
  pub verify_threshold-two_signers :
      (request_digest : Bytes) (fragments : List Fragment)
      → verify_threshold P payload request_digest fragments root ≡ ok tt
      → HasTwoSigners fragments
  verify_threshold-two_signers d fragments h =
      IsMet-two_signers d fragments (verify_threshold_sound P payload d fragments root h)
