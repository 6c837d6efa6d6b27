-- ===== src/Trust/Sample.antt =====
-- A concrete pair of roots, with toy primitives: the key of byte `k` decodes to 32 copies of `k`, and
-- its signature of anything to 64 copies.
use unlock_catalog_publisher.Base.{
  ℕ, zero, suc, ◌+◌, Bool, false, List, [], ◌∷◌, Bytes, Option, none, some, codes, eqb,
}
use unlock_catalog_publisher.Base.Int.{pos}
use unlock_catalog_publisher.Time.{Time, second}
use unlock_catalog_publisher.Primitives.{Primitives, digest_bytes}
use unlock_catalog_publisher.Trust.Types.{Fragment, TrustRoot, SignedRoot}
use unlock_catalog_publisher.Trust.Bridge.{to_signature, bridge_compatibility_window}

abbrev pub copies : ℕ → ℕ → Bytes
copies zero k = []
copies (suc n) k = k ∷ copies n k

abbrev pub toy_decode : Bytes → Option Bytes
toy_decode (k ∷ []) = some (copies 32 k)
toy_decode (k ∷ _ ∷ []) = some (copies 64 k)
toy_decode _ = none

abbrev pub toy_verify : Bytes → Bytes → Bytes → Bool
toy_verify (k ∷ _) payload (s ∷ _) = eqb k s
toy_verify _ payload _ = false

abbrev pub toy : Primitives
toy = record {
  sha256 = λ content. copies 32 7;
  ed25519_verify = toy_verify;
  base64_decode = toy_decode;
}

abbrev pub day_one : Time
day_one = record { instant = second; offset = pos 0 }

abbrev pub far : Time
far = record { instant = second + bridge_compatibility_window; offset = pos 0 }

abbrev pub old_root : TrustRoot
old_root = record {
  version = 1;
  threshold = pos 2;
  expires_at = far;
  keys = (codes "one", 1 ∷ []) ∷ (codes "two", 2 ∷ []) ∷ (codes "three", 3 ∷ []) ∷ [];
}

abbrev pub new_root : TrustRoot
new_root = record old_root {
  version = 2;
  keys = (codes "one", 1 ∷ []) ∷ (codes "two", 2 ∷ []) ∷ (codes "four", 4 ∷ []) ∷ [];
}

abbrev pub marshal : TrustRoot → Option Bytes
marshal root = some (root.version ∷ [])

-- The digest of every payload.
abbrev pub digest : Bytes
digest = digest_bytes toy []

abbrev pub signed_by_two : Fragment
signed_by_two = record { request_digest = digest; key_id = codes "two"; signature = 2 ∷ 2 ∷ [] }

abbrev pub signed_by_one : Fragment
signed_by_one = record { request_digest = digest; key_id = codes "one"; signature = 1 ∷ 1 ∷ [] }

abbrev pub both : List Fragment
both = signed_by_two ∷ signed_by_one ∷ []

abbrev pub assembled : SignedRoot
assembled = record {
  signed = new_root;
  signatures = to_signature signed_by_one ∷ to_signature signed_by_two ∷ [];
}
