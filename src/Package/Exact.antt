-- ===== src/Package/Exact.antt =====
-- A package that is verified holds the expected files and nothing else, and its bytes are those of a
-- package that is built from them (`VerifyPackage`, internal/package/package.go).
use mathlib.Core.List.Perm
use mathlib.Core.List.{mem-cons_self, mem-cons_of_mem}
use unlock_catalog_publisher.Base.{
  ℕ, ◌≡◌, refl, sym, ap, subst, ◌∙◌, Bool, true, false, not, List, [], ◌∷◌, ◌++◌, Mem, Nodup, Bytes,
  Dict, Option, none, some, arith, codes, length, lookup, keys, map, ok, refuse, ok-injective,
  bind_elim, refuse_elim, or_fail_elim, then_elim, wrap_then_elim, ◌==◌, ==_iff, not-eq-false,
}
use unlock_catalog_publisher.Base.Int.{int_eq_iff}
use unlock_catalog_publisher.Base.Growth.{lookup-of_mem}
use unlock_catalog_publisher.Base.Sort.{sort_by-perm}
use unlock_catalog_publisher.Primitives.{Primitives}
use unlock_catalog_publisher.Release.Paths.{strip_prefix}
use unlock_catalog_publisher.Package.Types.{
  PackageFile, PackageMetadata, BuildOptions, PackageLimits, ArchiveEntry,
}
use unlock_catalog_publisher.Package.Paths.{trim_prefix, repository_prefix}
use unlock_catalog_publisher.Package.Metadata.{
  equal_uint64, same_package_file, compare_files, compare_metadata, sorted_files, validate_metadata,
}
use unlock_catalog_publisher.Package.Verify.{
  Codec, parse_metadata, check_entry, check_entries, verify_entries,
}
use unlock_catalog_publisher.Package.Build.{repository_entry}
use unlock_catalog_publisher.Package.Table.{package_file, contract}

passed {ℓ} : {E : Type ℓ} (bad : Bool) (e : E) → refuse bad e ≡ ok tt → bad ≡ false
passed true e h = absurd (cc)
passed false e h = refl

pub some-injective {ℓ} : {A : Type ℓ} {a b : A} → ◌≡◌ {A = Option A} (some a) (some b) → a ≡ b
some-injective h = cc

equal_uint64-eq : (l r : Option ℕ) → equal_uint64 l r ≡ true → l ≡ r
unfolding equal_uint64
equal_uint64-eq none none h = refl
equal_uint64-eq none (some r) h = cc
equal_uint64-eq (some l) none h = cc
equal_uint64-eq (some l) (some r) h = ground (arith, h)

same_package_file-eq : (l r : PackageFile) → same_package_file l r ≡ true → l ≡ r
unfolding same_package_file
same_package_file-eq l r h =
    ground (arith, h, ==_iff l.path r.path, int_eq_iff l.length r.length, ==_iff l.sha256 r.sha256)

compare_files-eq :
    (got want : List PackageFile)
    → length got ≡ length want
    → compare_files got want ≡ ok tt
    → got ≡ want
unfolding compare_files
compare_files-eq [] [] size h = refl
compare_files-eq [] (w ∷ ws) size h = absurd (omega (arith, size))
compare_files-eq (g ∷ gs) [] size h = absurd (omega (arith, size))
compare_files-eq (g ∷ gs) (w ∷ ws) size h =
    refuse_elim (not (same_package_file g w)) _ _ h λ same more.
      let first : g ≡ w = same_package_file-eq g w (not-eq-false _ same) in
      let rest : gs ≡ ws = compare_files-eq gs ws (omega (arith, size)) more in cc

-- Metadata that compare without an error are the same.
compare_metadata-eq : (got want : PackageMetadata) → compare_metadata got want ≡ ok tt → got ≡ want
unfolding compare_metadata
compare_metadata-eq got want h = refuse_elim _ _ _ h λ identity more.
    let size : length got.files ≡ length want.files = ground (arith, identity) in
    ground (
      arith,
      identity,
      compare_files-eq got.files want.files size more,
      ==_iff got.format want.format,
      ==_iff got.source_id want.source_id,
      ==_iff got.manifest_digest want.manifest_digest,
      ==_iff got.manifest_envelope_sha256 want.manifest_envelope_sha256,
      equal_uint64-eq got.root_version want.root_version,
    )

strip_prefix-append : (p s : Bytes) → strip_prefix p (p ++ s) ≡ some s
unfolding strip_prefix
strip_prefix-append [] s = refl
strip_prefix-append (c ∷ p) s = ground (arith, strip_prefix-append p s)

pub trim_prefix-append : (p s : Bytes) → trim_prefix p (p ++ s) ≡ s
unfolding trim_prefix
trim_prefix-append p s = rw (strip_prefix-append p s, trim_prefix) refl

module _ (P : Primitives) (C : Codec) where
  -- An entry that agrees with the row of an expected file is the entry of that file.
  check_entry-eq :
      (expected : Dict Bytes) (e : Bytes × Bytes) (entry : ArchiveEntry)
      → Nodup (keys expected)
      → Mem e expected
      → check_entry P C expected (package_file P e) entry ≡ ok tt
      → entry ≡ repository_entry e
  unfolding check_entry
  check_entry-eq expected (name, body) entry n i h =
      let known : lookup (trim_prefix repository_prefix (repository_prefix ++ name)) expected
          ≡ some body =
        rw (trim_prefix-append repository_prefix name) (lookup-of_mem name body expected n i) in
      refuse_elim _ _ _ h λ agrees h₁.
        or_fail_elim (lookup (trim_prefix repository_prefix (repository_prefix ++ name)) expected) _
          _ h₁
          λ want found last.
            let same : entry.body == want ≡ true = not-eq-false _ (passed _ _ last) in
            let named : entry.name ≡ repository_prefix ++ name =
              ground (arith, agrees, (==_iff entry.name (repository_prefix ++ name)).0) in
            let content : entry.body ≡ body =
              (==_iff _ _).0 same ∙ some-injective (sym found ∙ known) in
            ground (arith, named, content)

  check_entries-eq :
      (expected : Dict Bytes) (es : Dict Bytes) (entries : List ArchiveEntry)
      → Nodup (keys expected)
      → ((e : Bytes × Bytes) → Mem e es → Mem e expected)
      → length entries ≡ length (map (package_file P) es)
      → check_entries P C expected (map (package_file P) es) entries ≡ ok tt
      → entries ≡ map repository_entry es
  unfolding check_entries
  check_entries-eq expected [] [] n inside size h = refl
  check_entries-eq expected [] (x ∷ xs) n inside size h = absurd (omega (arith, size))
  check_entries-eq expected (e ∷ es) [] n inside size h = absurd (omega (arith, size))
  check_entries-eq expected (e ∷ es) (x ∷ xs) n inside size h =
      then_elim (check_entry P C expected (package_file P e) x) _ h λ first more.
        let one = check_entry-eq expected e x n (inside e mem-cons_self) first in
        let rest =
          check_entries-eq expected es xs n (λ d i. inside d (mem-cons_of_mem e i))
            (omega (arith, size)) more in
        ap (λ y. y ∷ xs) one ∙ ap (λ l. repository_entry e ∷ l) rest

  parse_metadata-encode :
      (limits : PackageLimits) (content : Bytes) {metadata : PackageMetadata}
      → parse_metadata P C limits content ≡ ok metadata
      → C.encode_metadata metadata ≡ some content
  unfolding parse_metadata
  parse_metadata-encode limits content {metadata} h = wrap_then_elim _ _ _ h λ _ h₁.
      or_fail_elim (C.decode_metadata content) _ _ h₁ λ decoded _ h₂.
        or_fail_elim (C.encode_metadata decoded) _ _ h₂ λ canonical encoded h₃.
          refuse_elim _ _ _ h₃ λ same h₄. then_elim (validate_metadata limits decoded) _ h₄ λ _ out.
            let exact : content ≡ canonical = (==_iff _ _).0 (not-eq-false _ same) in
            subst (λ m. C.encode_metadata m ≡ some content) (ok-injective out)
              (encoded ∙ ap some (sym exact))

  -- The entries of a package that is verified: package.json, and the expected files by name.
  pub verify_entries-eq :
      (limits : PackageLimits) (options : BuildOptions) (entries : List ArchiveEntry)
      → Nodup (keys options.files)
      → verify_entries P C limits options.files (contract P options) entries ≡ ok tt
      → (json : Bytes) × (C.encode_metadata (contract P options) ≡ some json)
        × (entries
            ≡ record { name = codes "package.json"; body = json }
              ∷ map repository_entry (sorted_files options.files))
  unfolding verify_entries
  verify_entries-eq limits options [] n h = absurd (cc)
  verify_entries-eq limits options (first ∷ entries) n h = refuse_elim _ _ _ h λ named h₁.
      bind_elim (parse_metadata P C limits first.body) _ h₁ λ metadata parsed h₂.
        then_elim (compare_metadata metadata (contract P options)) _ h₂ λ compared h₃.
          refuse_elim _ _ _ h₃ λ counted checked.
            let same : metadata ≡ contract P options = compare_metadata-eq metadata _ compared in
            let size : length entries ≡ length (contract P options).files =
              subst (λ m. length entries ≡ length m.files) same (ground (arith, counted)) in
            let head : first ≡ record { name = codes "package.json"; body = first.body } =
              ground (arith, (==_iff first.name (codes "package.json")).0 (not-eq-false _ named)) in
            (
              first.body,
              subst (λ m. C.encode_metadata m ≡ some first.body) same
                  (parse_metadata-encode limits first.body parsed),
              ap (λ e. e ∷ entries) head
                  ∙ ap (λ l. record { name = codes "package.json"; body = first.body } ∷ l)
                      (check_entries-eq options.files (sorted_files options.files) entries n
                        (λ e i.
                          (Perm.mem_iff (sort_by-perm (λ (x : Bytes × Bytes). x.0) options.files)).0
                            i)
                        size
                        (subst (λ m. check_entries P C options.files m.files entries ≡ ok tt) same
                          checked)),
            )
