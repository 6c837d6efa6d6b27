-- ===== src/Release/Addressed.antt =====
-- Objects are addressed by their content (`classifyReleasePath`, internal/repository/tree.go).
use unlock_catalog_publisher.Base.{
  ◌≡◌, ap, ◌∙◌, true, [], ◌∷◌, ◌++◌, Bytes, some, codes, arith, ok, ==_iff, Option-cases, inl, inr,
}
use unlock_catalog_publisher.Base.Patterns.{digest_pattern}
use unlock_catalog_publisher.Primitives.{Primitives, digest_bytes}
use unlock_catalog_publisher.Policy.Artifact.{object_path, first_two}
use unlock_catalog_publisher.Release.Types.{FileKind, kind_object}
use unlock_catalog_publisher.Release.Paths.{
  strip_prefix, object_match, classify_release_path, valid_release_path_shape,
}

pub strip_prefix_sound : (p s : Bytes) {rest : Bytes} → strip_prefix p s ≡ some rest → s ≡ p ++ rest
unfolding strip_prefix
strip_prefix_sound [] s h = ground arith
strip_prefix_sound (a ∷ p) [] h = absurd (cc)
strip_prefix_sound (a ∷ p) (b ∷ s) {rest} h =
    let same : b ≡ a = ground arith in
    let given : strip_prefix p s ≡ some rest = ground arith in
    ap (λ l. b ∷ l) (strip_prefix_sound p s given) ∙ ap (λ x. x ∷ p ++ rest) same

pub object_match_sound :
    (path : Bytes) {fan named : Bytes}
    → object_match path ≡ some (fan, named)
    → (path ≡ codes "objects/sha256/" ++ fan ++ b'/' ∷ named) × (digest_pattern named ≡ true)
unfolding object_match
object_match_sound path {fan} {named} h =
    elim (Option-cases (strip_prefix (codes "objects/sha256/") path)) [
      | inl n ↦ absurd (ground arith)
      | inr ([], s) ↦ absurd (ground arith)
      | inr (a ∷ [], s) ↦ absurd (ground arith)
      | inr (a ∷ b ∷ [], s) ↦ absurd (ground arith)
      | inr (a ∷ b ∷ c ∷ digest, s) ↦
          let whole = strip_prefix_sound (codes "objects/sha256/") path s in
          let slash : c ≡ b'/' = ground arith in
          let fans : a ∷ b ∷ [] ≡ fan = ground arith in
          let names : digest ≡ named = ground arith in
          (
            whole
                ∙ ap (λ x. codes "objects/sha256/" ++ a ∷ b ∷ x ∷ digest) slash
                ∙ ap (λ x. codes "objects/sha256/" ++ x ++ b'/' ∷ digest) fans
                ∙ ap (λ x. codes "objects/sha256/" ++ fan ++ b'/' ∷ x) names,
            ground arith,
          )
    ]

-- A path that is classified has the shape of a release path; an object's path is the one that its
-- content's digest gives.
pub classify_release_path-shape :
    (P : Primitives) (path body : Bytes) {kind : FileKind}
    → classify_release_path P path body ≡ ok kind
    → (valid_release_path_shape path ≡ true)
      × (kind ≡ kind_object → path ≡ object_path (digest_bytes P body))
unfolding classify_release_path valid_release_path_shape object_path
classify_release_path-shape P path body {kind} h = (
  ground arith,
  λ o. elim (Option-cases (object_match path)) [
    | inl n ↦ absurd (ground arith)
    | inr ((fan, named), s) ↦
        let (whole, _) = object_match_sound path s in
        let fans : fan ≡ first_two (digest_bytes P body) =
          ground (arith, ==_iff fan (first_two (digest_bytes P body))) in
        let names : named ≡ digest_bytes P body =
          ground (arith, ==_iff named (digest_bytes P body)) in
        whole
        ∙ ap (λ x. codes "objects/sha256/" ++ x ++ b'/' ∷ named) fans
        ∙ ap (λ x. codes "objects/sha256/" ++ first_two (digest_bytes P body) ++ b'/' ∷ x) names
  ],
)
