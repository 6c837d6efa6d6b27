-- ===== src/Cohort/ObjectPaths.antt =====
-- The paths at which the policy lets artifacts be stored (internal/policy/validate.go): they are valid paths of
-- a candidate, and the directories above them are no files of it.
use unlock_catalog_publisher.Base.{
  ℕ, ◌≡◌, refl, sym, ap, subst, ◌∙◌, Bool, true, false, ◌==◌, ==_iff, List, [], ◌∷◌, Bytes, codes,
  arith, contains, eqb, leb, ltb, length, all, any,
}
use unlock_catalog_publisher.Base.Patterns.{digest_pattern, is_hex}
use unlock_catalog_publisher.Base.Paths.{split, join, is_abs, clean}
use unlock_catalog_publisher.Base.Paths.Split.{is_name, split-join, all-no_slash}
use unlock_catalog_publisher.Base.Paths.Dir.{
  clean-join, is_abs-join, parent_paths, parent_paths-four,
}
use unlock_catalog_publisher.Release.Shapes.{hex-is_name}
use unlock_catalog_publisher.Policy.Artifact.{first_two, object_path}
use unlock_catalog_publisher.Signing.Candidate.Tree.{
  valid_part, valid_relative_path, document_names,
}

abbrev object_names : Bytes → List Bytes
object_names digest = codes "objects" ∷ codes "sha256" ∷ first_two digest ∷ digest ∷ []

object_path-join : (digest : Bytes) → object_path digest ≡ join (object_names digest)
unfolding object_path join
object_path-join digest = refl

abbrev is_backslash : ℕ → Bool
is_backslash c = eqb c b'\\'

hex-no_backslash : (s : Bytes) → all is_hex s ≡ true → any is_backslash s ≡ false
unfolding all any is_hex
hex-no_backslash [] h = refl
hex-no_backslash (c ∷ s) h = ground (arith, h, hex-no_backslash s (ground (arith, h)))

-- A digest begins with two digits.
digest-cons :
    (digest : Bytes)
    → digest_pattern digest ≡ true
    → (a : ℕ) × (b : ℕ) × (s : Bytes) × (digest ≡ a ∷ b ∷ s)
unfolding digest_pattern all
digest-cons [] h = absurd (ground (arith, h))
digest-cons (a ∷ []) h = absurd (ground (arith, h))
digest-cons (a ∷ b ∷ s) h = (a, b, s, refl)

object_names-all :
    (a b : ℕ) (s : Bytes)
    → all is_hex (a ∷ b ∷ s) ≡ true
    → all is_name (object_names (a ∷ b ∷ s)) ≡ true
unfolding all ◌==◌
object_names-all a b s h =
    let two = hex-is_name a (b ∷ []) (ground (arith, h)) in
    let whole = hex-is_name a (b ∷ s) h in ground (arith, two, whole)

names-valid_part : (ps : List Bytes) → all is_name ps ≡ true → all valid_part ps ≡ true
unfolding all
names-valid_part [] h = refl
names-valid_part (p ∷ ps) h = ground (arith, h, names-valid_part ps (ground (arith, h)))

object_path-no_backslash :
    (a b : ℕ) (s : Bytes)
    → all is_hex (a ∷ b ∷ s) ≡ true
    → any is_backslash (object_path (a ∷ b ∷ s)) ≡ false
unfolding object_path any all
object_path-no_backslash a b s h =
    let whole = hex-no_backslash (a ∷ b ∷ s) h in ground (arith, whole)

path-valid :
    (p : Bytes) (q : Bytes) (qs : List Bytes)
    → p ≡ join (q ∷ qs)
    → all is_name (q ∷ qs) ≡ true
    → any is_backslash p ≡ false
    → valid_relative_path p ≡ true
unfolding valid_relative_path all
path-valid p q qs e names plain =
    let (relative, filled) = is_abs-join q qs (ground (arith, names)) in
    let relative_path : is_abs p ≡ false = ap is_abs e ∙ relative in
    let not_empty : p == [] ≡ false = ap (λ x. x == []) e ∙ filled in
    let same : clean p == p ≡ true =
      (==_iff (clean p) p).1 (ap clean e ∙ clean-join q qs names ∙ sym e) in
    let parts : all valid_part (split p) ≡ true =
      ap (λ x. all valid_part (split x)) e
      ∙ ap (all valid_part) (split-join q qs (all-no_slash (q ∷ qs) names))
      ∙ names-valid_part (q ∷ qs) names in
    ground (arith, relative_path, not_empty, same, parts, plain)

-- A file's path is longer than those of the directories of the store.
abbrev pub longest_directory : ℕ
longest_directory = 17

-- What holds of the path of an artifact.
pub record IsStored (path : Bytes) : Type 0 where
  pub valid : valid_relative_path path ≡ true
  pub no_document : contains path document_names ≡ false
  pub long : ltb longest_directory (length path) ≡ true
  pub parents_short : all (λ p. leb (length p) longest_directory) (parent_paths path) ≡ true

pub object_path-IsStored :
    (digest : Bytes) → digest_pattern digest ≡ true → IsStored (object_path digest)
unfolding digest_pattern all object_path join contains ◌==◌
object_path-IsStored digest h =
    let (a, b, s, e) = digest-cons digest h in
    let hex : all is_hex (a ∷ b ∷ s) ≡ true =
      subst (λ d. all is_hex d ≡ true) e (ground (arith, h)) in
    let size : eqb (length (a ∷ b ∷ s)) 64 ≡ true =
      subst (λ d. eqb (length d) 64 ≡ true) e (ground (arith, h)) in
    subst (λ d. IsStored (object_path d)) (sym e)
      (record {
        valid =
            path-valid (object_path (a ∷ b ∷ s)) (codes "objects")
              (codes "sha256" ∷ (a ∷ b ∷ []) ∷ (a ∷ b ∷ s) ∷ []) refl (object_names-all a b s hex)
              (object_path-no_backslash a b s hex);
        long = ground arith;
        no_document = refl;
        parents_short =
            ap (all (λ p. leb (length p) longest_directory)) (
              parent_paths-four (codes "objects") (codes "sha256") (a ∷ b ∷ []) (a ∷ b ∷ s)
                (object_names-all a b s hex))
            ∙ refl;
      })
