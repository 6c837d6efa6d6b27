-- ===== src/Trust/Bridge/Fragments.antt =====
-- `verifyBridgeFragments`: when it accepts, and that the order of the fragments does not matter.
use mathlib.Core.List.Perm
use mathlib.Core.List.{append_assoc, append-nil}
use unlock_catalog_publisher.Base.{
  ◌≡◌, refl, sym, subst, ap, ◌∙◌, Bool, true, false, ◌&&◌, List, [], ◌∷◌, ◌++◌, Bytes, Dict, none,
  some, arith, all, contains, lookup, has_key, ==_iff, ok, ◌>>=◌, ◌>>◌, for_each, ◌==◌, Bool-cases,
  inl, inr, >>=-eq-ok, ok-injective, ◌↔◌, Perm, bind_elim, wrap_then_elim, all-mem, all-of_mem,
  if◌then◌else◌, Mem,
}
use unlock_catalog_publisher.Base.Distinct.{distinct_from, distinct, distinct_iff}
use unlock_catalog_publisher.Base.Sort.{keep, keep-perm}
use unlock_catalog_publisher.Primitives.{Primitives, decode_key, valid_signature}
use unlock_catalog_publisher.Trust.Types.{Fragment, TrustRoot}
use unlock_catalog_publisher.Trust.Threshold.{verify_threshold}
use unlock_catalog_publisher.Trust.Threshold.Loop.{key_ids}
use unlock_catalog_publisher.Trust.Threshold.Met.{verify_threshold-perm}
use unlock_catalog_publisher.Trust.Bridge.{
  check_bridge_fragment, merge_key, copy_keys, verify_bridge_fragments,
}

-- The fragments whose key the root has.
abbrev pub of_root : TrustRoot → List Fragment → List Fragment
of_root root = keep λ f. has_key f.key_id root.keys

module _ (P : Primitives) (payload digest : Bytes) (current next : TrustRoot) where
  -- The fragment is for this request, and a key of either root signed the payload.
  pub accepts : Dict Bytes → Fragment → Bool
  accepts union f = f.request_digest == digest && elim (lookup f.key_id union) [
    | none ↦ false
    | some encoded ↦ elim (decode_key P encoded) [
      | none ↦ false
      | some public_key ↦ valid_signature P public_key payload f.signature
    ]
  ]

  pub accepts-digest :
      (union : Dict Bytes) (f : Fragment) → accepts union f ≡ true → f.request_digest ≡ digest
  unfolding accepts
  accepts-digest union f h = ground (arith, ==_iff f.request_digest digest)

  check_bridge_fragment-eq-ok :
      (union : Dict Bytes) (seen : List Bytes) (old new : List Fragment) (f : Fragment)
      (s : List Bytes × List Fragment × List Fragment)
      → (check_bridge_fragment P payload digest current next union (seen, old, new) f ≡ ok s) ↔ (
          (accepts union f ≡ true)
          × (contains f.key_id seen ≡ false)
          × (s ≡ (
            f.key_id ∷ seen,
            (if has_key f.key_id current.keys then old ++ f ∷ [] else old),
            (if has_key f.key_id next.keys then new ++ f ∷ [] else new),
          )))
  unfolding check_bridge_fragment accepts ◌>>=◌ ◌>>◌
  check_bridge_fragment-eq-ok union seen old new f s = (λ h. ground arith, λ h. ground arith)

  keep-nil : (p : Fragment → Bool) (out : List Fragment) → out ++ keep p [] ≡ out
  unfolding keep
  keep-nil p out = append-nil out

  keep-snoc :
      (p : Fragment → Bool) (out fs : List Fragment) (f : Fragment)
      → (if p f then out ++ f ∷ [] else out) ++ keep p fs ≡ out ++ keep p (f ∷ fs)
  unfolding keep
  keep-snoc p out fs f = elim (Bool-cases (p f)) [
    | inl e ↦ rw e (append_assoc out (f ∷ []) (keep p fs))
    | inr e ↦ rw e
  ]

  bridge_loop_sound :
      (union : Dict Bytes) (fragments : List Fragment) (seen : List Bytes) (old new : List Fragment)
      {s : List Bytes × List Fragment × List Fragment}
      → for_each
          (check_bridge_fragment P payload digest current next union)
          (seen, old, new)
          fragments
        ≡ ok s
      → (all (accepts union) fragments ≡ true)
        × (distinct_from seen (key_ids fragments) ≡ true)
        × (s.1 ≡ old ++ of_root current fragments)
        × (s.2 ≡ new ++ of_root next fragments)
  unfolding for_each all distinct_from ◌>>=◌
  bridge_loop_sound union [] seen old new h = (
    refl,
    refl,
    ap (λ (s : List Bytes × List Fragment × List Fragment). s.1) (sym (ok-injective h))
        ∙ sym (keep-nil _ old),
    ap (λ (s : List Bytes × List Fragment × List Fragment). s.2) (sym (ok-injective h))
        ∙ sym (keep-nil _ new),
  )
  bridge_loop_sound union (f ∷ fs) seen old new {s} h =
      let body = check_bridge_fragment P payload digest current next union in
      let (s', first, rest) = >>=-eq-ok (body (seen, old, new) f) (λ s'. for_each body s' fs) h in
      let (good, fresh, out) = (check_bridge_fragment-eq-ok union seen old new f s').0 first in
      let (goods, apart, olds, news) =
        bridge_loop_sound union fs (f.key_id ∷ seen)
          (if has_key f.key_id current.keys then old ++ f ∷ [] else old)
          (if has_key f.key_id next.keys then new ++ f ∷ [] else new) {s = s}
          (subst (λ t. for_each body t fs ≡ ok s) out rest) in
      (ground arith, ground arith, olds ∙ keep-snoc _ old fs f, news ∙ keep-snoc _ new fs f)

  bridge_loop_complete :
      (union : Dict Bytes) (fragments : List Fragment) (seen : List Bytes) (old new : List Fragment)
      → all (accepts union) fragments ≡ true
      → distinct_from seen (key_ids fragments) ≡ true
      → (s : List Bytes × List Fragment × List Fragment) × (for_each
            (check_bridge_fragment P payload digest current next union)
            (seen, old, new)
            fragments
          ≡ ok s)
        × (s.1 ≡ old ++ of_root current fragments)
        × (s.2 ≡ new ++ of_root next fragments)
  unfolding for_each all distinct_from ◌>>=◌
  bridge_loop_complete union [] seen old new h k =
      ((seen, old, new), refl, sym (keep-nil _ old), sym (keep-nil _ new))
  bridge_loop_complete union (f ∷ fs) seen old new h k =
      let old' = if has_key f.key_id current.keys then old ++ f ∷ [] else old in
      let new' = if has_key f.key_id next.keys then new ++ f ∷ [] else new in
      let (s, rest, olds, news) =
        bridge_loop_complete union fs (f.key_id ∷ seen) old' new' (ground arith) (ground arith) in
      let first =
        (check_bridge_fragment-eq-ok union seen old new f (f.key_id ∷ seen, old', new')).1
          (ground arith, ground arith, refl) in
      (s, rw first rest, olds ∙ keep-snoc _ old fs f, news ∙ keep-snoc _ new fs f)

  -- What the code promises of an accepted set of fragments.
  pub record IsBridged (fragments : List Fragment) : Type 0 where
    pub union : Dict Bytes
    pub merged : for_each merge_key (copy_keys [] current.keys) next.keys ≡ ok union
    pub accepted : (f : Fragment) → Mem f fragments → accepts union f ≡ true
    pub one_each : distinct (key_ids fragments) ≡ true
    pub current_threshold :
        verify_threshold P payload digest (of_root current fragments) current ≡ ok tt
    pub next_threshold : verify_threshold P payload digest (of_root next fragments) next ≡ ok tt

  pub verify_bridge_fragments_sound :
      (fragments : List Fragment)
      → verify_bridge_fragments P payload digest current next fragments ≡ ok tt
      → IsBridged fragments
  unfolding verify_bridge_fragments
  verify_bridge_fragments_sound fragments h = bind_elim _ _ h λ union merged h₁.
      bind_elim _ _ h₁ λ s loop h₂. wrap_then_elim _ _ _ h₂ λ old_met h₃.
        wrap_then_elim _ _ _ h₃ λ new_met h₄.
          let (good, apart, olds, news) = bridge_loop_sound union fragments [] [] [] loop in
          record {
            union = union;
            merged = merged;
            accepted = all-mem (accepts union) fragments good;
            one_each = apart;
            current_threshold =
                subst (λ l. verify_threshold P payload digest l current ≡ ok tt) olds old_met;
            next_threshold =
                subst (λ l. verify_threshold P payload digest l next ≡ ok tt) news new_met;
          }

  verify_bridge_fragments_complete :
      (fragments : List Fragment)
      → IsBridged fragments
      → verify_bridge_fragments P payload digest current next fragments ≡ ok tt
  unfolding verify_bridge_fragments ◌>>=◌ ◌>>◌
  verify_bridge_fragments_complete fragments b =
      let (s, loop, olds, news) =
        bridge_loop_complete b.union fragments [] [] []
          (all-of_mem (accepts b.union) fragments b.accepted) b.one_each in
      rw (b.merged, loop) (rw (olds, news, b.current_threshold, b.next_threshold))

  -- The order in which the fragments come does not matter.
  pub verify_bridge_fragments-perm :
      (fragments others : List Fragment)
      → Perm fragments others
      → verify_bridge_fragments P payload digest current next fragments ≡ ok tt
      → verify_bridge_fragments P payload digest current next others ≡ ok tt
  verify_bridge_fragments-perm fragments others p h =
      let b = verify_bridge_fragments_sound fragments h in
      verify_bridge_fragments_complete others (record {
        union = b.union;
        merged = b.merged;
        accepted = λ f m. b.accepted f ((Perm.mem_iff p).1 m);
        one_each =
            (distinct_iff _).1
              (Perm.nodup (Perm.map (λ f. f.key_id) p) ((distinct_iff _).0 b.one_each));
        current_threshold =
            verify_threshold-perm P payload digest _ _ current (keep-perm _ p) b.current_threshold;
        next_threshold =
            verify_threshold-perm P payload digest _ _ next (keep-perm _ p) b.next_threshold;
      })
