-- ===== src/Trust/Bridge/Laws.antt =====
-- The checks of `AssembleSignedRoot` (internal/assemble/root.go), one by one.
use unlock_catalog_publisher.Base.{
  ◌≡◌, sym, false, List, Bytes, Dict, Option, some, arith, leb, ok, ◌>>=◌, ◌>>◌, then_elim,
  refuse_elim, or_fail_elim, wrap_elim, ok-injective, or_false_iff,
}
use unlock_catalog_publisher.Base.Int.{pos, int_lt}
use unlock_catalog_publisher.Time.{Time, is_zero, before, add}
use unlock_catalog_publisher.Primitives.{Primitives, digest_bytes}
use unlock_catalog_publisher.Trust.Types.{Fragment, TrustRoot, SignedRoot, current_root, next_root}
use unlock_catalog_publisher.Trust.Keys.{validate_root}
use unlock_catalog_publisher.Trust.Bridge.{
  assemble_signed_root, verify_bridge_fragments, shared_keys, sorted_signatures,
  bridge_compatibility_window,
}

module _ (P : Primitives) (marshal_root : TrustRoot → Option Bytes) (current next : TrustRoot) where
  -- The checks that `AssembleSignedRoot` makes before it writes the result.
  pub record IsChecked (fragments : List Fragment) (now : Time) : Type 0 where
    pub current_keys : Dict Bytes
    pub next_keys : Dict Bytes
    pub payload : Bytes
    pub current_valid : validate_root P current ≡ ok current_keys
    pub next_valid : validate_root P next ≡ ok next_keys
    pub started : is_zero now ≡ false
    pub increases : leb next.version current.version ≡ false
    pub current_lasts : before current.expires_at (add now bridge_compatibility_window) ≡ false
    pub next_lasts : before next.expires_at (add now bridge_compatibility_window) ≡ false
    pub current_retained :
        int_lt (pos (shared_keys current_keys next_keys)) current.threshold ≡ false
    pub next_retained : int_lt (pos (shared_keys current_keys next_keys)) next.threshold ≡ false
    pub marshalled : marshal_root next ≡ some payload
    pub bridged :
        verify_bridge_fragments P payload (digest_bytes P payload) current next fragments ≡ ok tt

  pub assemble_signed_root_complete :
      (fragments : List Fragment) (now : Time)
      → IsChecked fragments now
      → assemble_signed_root P marshal_root current next fragments now
        ≡ ok (record { signed = next; signatures = sorted_signatures fragments })
  unfolding assemble_signed_root ◌>>=◌ ◌>>◌
  assemble_signed_root_complete fragments now c =
      rw (c.current_valid, c.next_valid, c.started) (ground arith)

  pub assemble_signed_root_sound :
      (fragments : List Fragment) (now : Time) {s : SignedRoot}
      → assemble_signed_root P marshal_root current next fragments now ≡ ok s
      → IsChecked fragments now
        × (s ≡ record { signed = next; signatures = sorted_signatures fragments })
  unfolding assemble_signed_root
  assemble_signed_root_sound fragments now h =
      wrap_elim current_root _ _ h λ current_keys current_valid h₁.
        wrap_elim next_root _ _ h₁ λ next_keys next_valid h₂. refuse_elim _ _ _ h₂ λ timed h₃.
          refuse_elim _ _ _ h₃ λ increases h₄. refuse_elim _ _ _ h₄ λ lasts h₅.
            refuse_elim _ _ _ h₅ λ retained h₆. or_fail_elim _ _ _ h₆ λ payload marshalled h₇.
              then_elim _ _ h₇ λ bridged out. (
                record {
                  current_keys = current_keys;
                  next_keys = next_keys;
                  payload = payload;
                  current_valid = current_valid;
                  next_valid = next_valid;
                  started = ((or_false_iff _ _).0 timed).0;
                  increases = increases;
                  current_lasts = ((or_false_iff _ _).0 lasts).0;
                  next_lasts = ((or_false_iff _ _).0 lasts).1;
                  current_retained = ((or_false_iff _ _).0 retained).0;
                  next_retained = ((or_false_iff _ _).0 retained).1;
                  marshalled = marshalled;
                  bridged = bridged;
                },
                sym (ok-injective out),
              )
