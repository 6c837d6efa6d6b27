-- ===== src/Release/Shapes.antt =====
-- The paths of a release are joined names (`validReleasePathShape`, internal/repository/tree.go).
use mathlib.Core.List.{append_assoc}
use unlock_catalog_publisher.Base.{
  ℕ, zero, suc, ◌≡◌, refl, ap, ◌∙◌, Bool, true, List, [], ◌∷◌, ◌++◌, Bytes, Option, none, some,
  codes, arith, all, ◌==◌, ==_iff, Option-cases, Bool-cases, inl, inr, length,
}
use unlock_catalog_publisher.Base.Patterns.{is_hex, is_digit, digest_pattern}
use unlock_catalog_publisher.Base.Paths.{join}
use unlock_catalog_publisher.Base.Paths.Split.{is_name, no_slash}
use unlock_catalog_publisher.Release.Paths.{
  strip_prefix, strip_run, then_strip, versioned, object_match, archive_path, root_path,
  package_path, valid_release_path_shape, manifest_json, root_json,
}
use unlock_catalog_publisher.Release.Addressed.{strip_prefix_sound}

hex-no_slash : (s : Bytes) → all is_hex s ≡ true → no_slash s ≡ true
unfolding all is_hex
hex-no_slash [] h = refl
hex-no_slash (c ∷ s) h = ground (arith, h, hex-no_slash s (ground (arith, h)))

pub hex-is_name : (c : ℕ) (s : Bytes) → all is_hex (c ∷ s) ≡ true → is_name (c ∷ s) ≡ true
unfolding all is_hex ◌==◌
hex-is_name c s h = ground (arith, h, hex-no_slash s (ground (arith, h)))

digit-hex : (s : Bytes) → all is_digit s ≡ true → all is_hex s ≡ true
unfolding all is_hex
digit-hex [] h = refl
digit-hex (c ∷ s) h = ground (arith, h, digit-hex s (ground (arith, h)))

strip_run_sound :
    (n : ℕ) (test : ℕ → Bool) (s : Bytes) {rest : Bytes}
    → strip_run n test s ≡ some rest
    → (run : Bytes) × (s ≡ run ++ rest) × (length run ≡ n) × (all test run ≡ true)
unfolding strip_run all
strip_run_sound zero test s {rest} h = let same : s ≡ rest = ground arith in ([], same, refl, refl)
strip_run_sound (suc n) test [] h = absurd (cc)
strip_run_sound (suc n) test (c ∷ s) {rest} h =
    let passed : test c ≡ true = ground arith in
    let given : strip_run n test s ≡ some rest = ground arith in
    let (run, whole, size, each) = strip_run_sound n test s given in
    (c ∷ run, ap (λ l. c ∷ l) whole, ground arith, ground arith)

-- The relative path is a join of names.
unfoldable pub IsNamed : Bytes → Type 0
IsNamed path =
    (p : Bytes) × (ps : List Bytes) × (path ≡ join (p ∷ ps)) × (all is_name (p ∷ ps) ≡ true)

run-is_name : (n : ℕ) (s : Bytes) → length s ≡ suc n → all is_hex s ≡ true → is_name s ≡ true
run-is_name n [] e h = absurd (ground arith)
run-is_name n (c ∷ s) e h = hex-is_name c s h

then_strip_sound :
    (o : Option Bytes) (next : Bytes → Option Bytes) {r : Bytes}
    → then_strip o next ≡ some r
    → (x : Bytes) × (o ≡ some x) × (next x ≡ some r)
then_strip_sound none next h = absurd (cc)
then_strip_sound (some x) next h = (x, refl, h)

-- A path of an archive, a root or a package: the directory, a version and a digest, and the file.
versioned_sound :
    (start tail s : Bytes)
    → versioned start tail s ≡ true
    → (a : Bytes) × (b : Bytes) × (s ≡ start ++ (a ++ (b'/' ∷ (b ++ tail))))
      × (is_name a ≡ true)
      × (is_name b ≡ true)
unfolding versioned
versioned_sound start tail s h =
    elim (Option-cases (
      then_strip
        (then_strip (then_strip (strip_prefix start s) (strip_run 20 is_digit))
          (strip_prefix (codes "/")))
        (strip_run 64 is_hex))) [
          | inl n ↦ absurd (ground arith)
          | inr (r₄, e₄) ↦
              let last : r₄ == tail ≡ true = ground arith in
              let (r₃, e₃, hexes) = then_strip_sound _ _ e₄ in
              let (r₂, e₂, slash) = then_strip_sound _ _ e₃ in
              let (r₁, e₁, digits) = then_strip_sound _ _ e₂ in
              let (a, whole_a, size_a, all_a) = strip_run_sound 20 is_digit r₁ digits in
              let (b, whole_b, size_b, all_b) = strip_run_sound 64 is_hex r₃ hexes in
              (
                a,
                b,
                strip_prefix_sound start s e₁
                    ∙ ap (λ x. start ++ x)
                        (whole_a
                          ∙ ap (λ x. a ++ x)
                              (strip_prefix_sound (codes "/") r₂ slash
                                ∙ ap (λ x. b'/' ∷ x)
                                    (whole_b ∙ ap (λ x. b ++ x) ((==_iff r₄ tail).0 last)))),
                run-is_name 19 a size_a (digit-hex a all_a),
                run-is_name 63 b size_b all_b,
              )
        ]

versioned-IsNamed :
    (directory file s : Bytes)
    → is_name directory ≡ true
    → is_name file ≡ true
    → versioned (directory ++ b'/' ∷ []) (b'/' ∷ file) s ≡ true
    → IsNamed s
unfolding IsNamed join all
versioned-IsNamed directory file s d f h =
    let (a, b, whole, na, nb) = versioned_sound (directory ++ b'/' ∷ []) (b'/' ∷ file) s h in
    (
      directory,
      a ∷ b ∷ file ∷ [],
      whole ∙ append_assoc directory (b'/' ∷ []) (a ++ (b'/' ∷ (b ++ (b'/' ∷ file)))),
      ground (arith, d, f, na, nb),
    )

object_match-IsNamed : (s : Bytes) {found : Bytes × Bytes} → object_match s ≡ some found → IsNamed s
unfolding IsNamed join all object_match digest_pattern ◌==◌
object_match-IsNamed s {found} h = elim (Option-cases (strip_prefix (codes "objects/sha256/") s)) [
  | inl n ↦ absurd (ground arith)
  | inr ([], e) ↦ absurd (ground arith)
  | inr (a ∷ [], e) ↦ absurd (ground arith)
  | inr (a ∷ b ∷ [], e) ↦ absurd (ground arith)
  | inr (a ∷ b ∷ c ∷ digest, e) ↦
      let whole = strip_prefix_sound (codes "objects/sha256/") s e in
      let slash : c ≡ b'/' = ground arith in
      let hex_a : is_hex a ≡ true = ground arith in
      let hex_b : is_hex b ≡ true = ground arith in
      let size : length digest ≡ 64 = ground arith in
      let hexes : all is_hex digest ≡ true = ground arith in
      let two : is_name (a ∷ b ∷ []) ≡ true = hex-is_name a (b ∷ []) (ground arith) in
      let file = run-is_name 63 digest size hexes in
      (
        codes "objects",
        codes "sha256" ∷ (a ∷ b ∷ []) ∷ digest ∷ [],
        whole ∙ ap (λ x. codes "objects/sha256/" ++ a ∷ b ∷ x ∷ digest) slash,
        ground (arith, two, file),
      )
]

single-IsNamed : (p name : Bytes) → p ≡ name → is_name name ≡ true → IsNamed p
unfolding IsNamed join all
single-IsNamed p name e n = (name, [], e, ground (arith, n))

-- Every path of the shape of a release is a join of names.
pub valid_release_path_shape-IsNamed :
    (path : Bytes) → valid_release_path_shape path ≡ true → IsNamed path
unfolding valid_release_path_shape archive_path root_path package_path ◌==◌ all
valid_release_path_shape-IsNamed path h = elim (Bool-cases (path == manifest_json)) [
  | inl e ↦ single-IsNamed path manifest_json ((==_iff path manifest_json).0 e) refl
  | inr e ↦ elim (Bool-cases (path == root_json)) [
    | inl f ↦ single-IsNamed path root_json ((==_iff path root_json).0 f) refl
    | inr f ↦ elim (Option-cases (object_match path)) [
      | inr (found, o) ↦ object_match-IsNamed path o
      | inl o ↦ elim (Bool-cases (archive_path path)) [
        | inl v ↦ versioned-IsNamed (codes "archive") (codes "manifest.json") path refl refl v
        | inr v ↦ elim (Bool-cases (root_path path)) [
          | inl w ↦ versioned-IsNamed (codes "roots") (codes "root.json") path refl refl w
          | inr w ↦
              versioned-IsNamed (codes "packages") (codes "unlock-catalog-package-v1.tar.zst") path
                refl refl (ground arith)
        ]
      ]
    ]
  ]
]
