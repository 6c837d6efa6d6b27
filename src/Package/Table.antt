-- ===== src/Package/Table.antt =====
-- What `metadataForOptions` (internal/package/package.go) returns: the table of the files, in the order
-- of their names.
use unlock_catalog_publisher.Base.{
  ◌≡◌, refl, sym, ap, subst, ◌∙◌, Bool, true, not, ◌&&◌, List, [], ◌∷◌, ◌++◌, Bytes, some, arith,
  not-eq-false, length, length-perm, ◌≤◌, ◌+◌, lookup, map, all, for_each, eqb, ltb, ok,
  ok-injective, bind_elim, refuse_elim, or_fail_elim, then_elim, ==_iff,
}
use unlock_catalog_publisher.Base.Int.{pos}
use unlock_catalog_publisher.Base.Growth.{flat_map, for_each-appends, for_each-all}
use unlock_catalog_publisher.Base.Sort.{sort_by-perm}
use unlock_catalog_publisher.Primitives.{Primitives, digest_bytes}
use unlock_catalog_publisher.Release.Paths.{manifest_json}
use unlock_catalog_publisher.Package.Types.{
  PackageFile, PackageMetadata, BuildOptions, PackageLimits, package_format,
}
use unlock_catalog_publisher.Package.Paths.{repository_prefix, validate_repository_member_path}
use unlock_catalog_publisher.Package.Metadata.{
  add_member, metadata_for_options, sorted_files, member_limit, validate_metadata,
}

pub flat_map-one {ℓ κ} :
    {A : Type ℓ} {B : Type κ} (f : A → B) (xs : List A) → flat_map (λ x. f x ∷ []) xs ≡ map f xs
flat_map-one f [] = refl
flat_map-one f (x ∷ xs) = ap (λ l. f x ∷ l) (flat_map-one f xs)

-- A file's length is within its limit, and its path is allowed in a package.
abbrev pub is_packable : PackageLimits → Bytes × Bytes → Bool
is_packable limits (relative, content) =
    not (eqb (length content) 0) && not (ltb (member_limit limits relative) (length content))

module _ (P : Primitives) where
  -- The row of a file.
  abbrev pub package_file : Bytes × Bytes → PackageFile
  package_file (relative, content) = record {
    path = repository_prefix ++ relative;
    length = pos (length content);
    sha256 = digest_bytes P content;
  }

  -- The metadata that stand for a release: its identity, and the rows of its files by name.
  abbrev pub contract : BuildOptions → PackageMetadata
  contract options = record {
    format = package_format;
    source_id = options.source_id;
    manifest_digest = options.manifest_digest;
    manifest_envelope_sha256 = options.manifest_envelope_sha256;
    root_version = options.root_version;
    files = map package_file (sorted_files options.files);
  }

  add_member-row :
      (limits : PackageLimits) (s : List Bytes × List PackageFile) (e : Bytes × Bytes)
      (t : List Bytes × List PackageFile)
      → add_member P limits s e ≡ ok t
      → (t.1 ≡ s.1 ++ package_file e ∷ []) × (is_packable limits e ≡ true)
  unfolding add_member
  add_member-row limits (seen_case, files) (relative, content) t h =
      then_elim (validate_repository_member_path limits (repository_prefix ++ relative)) _ h λ _ h₁.
        refuse_elim _ _ _ h₁ λ _ h₂. refuse_elim _ _ _ h₂ λ sized h₃.
          refuse_elim _ _ _ h₃
            λ _ out. (sym (ap (λ p. p.1) (ok-injective out)), ground (arith, sized))

  -- Options that are accepted have the metadata of their release, which pass the checks of a package.json; the
  -- manifest has the digest of the release, and each file is within its limit.
  pub metadata_for_options-contract :
      (limits : PackageLimits) (options : BuildOptions) {metadata : PackageMetadata}
      → metadata_for_options P limits options ≡ ok metadata
      → (metadata ≡ contract options)
        × (validate_metadata limits metadata ≡ ok tt)
        × (all (is_packable limits) (sorted_files options.files) ≡ true)
        × ((manifest : Bytes) × (lookup manifest_json options.files ≡ some manifest)
            × (digest_bytes P manifest ≡ options.manifest_envelope_sha256))
  unfolding metadata_for_options
  metadata_for_options-contract limits options {metadata} h = refuse_elim _ _ _ h λ _ h₁.
      refuse_elim _ _ _ h₁ λ _ h₂. refuse_elim _ _ _ h₂ λ _ h₃. refuse_elim _ _ _ h₃ λ _ h₄.
        bind_elim _ _ h₄ λ (seen, files) loop h₅.
          or_fail_elim (lookup manifest_json options.files) _ _ h₅ λ manifest found h₆.
            refuse_elim _ _ _ h₆ λ digest h₇. refuse_elim _ _ _ h₇ λ _ h₈.
              then_elim _ _ h₈ λ valid out.
                let rows : files ≡ map package_file (sorted_files options.files) =
                  for_each-appends (add_member P limits) (λ s. s.1) (λ e. package_file e ∷ [])
                    (λ s e t c. (add_member-row limits s e t c).0) (sorted_files options.files)
                    ([], []) loop
                  ∙ flat_map-one package_file (sorted_files options.files) in
                let same : metadata ≡ contract options =
                  sym (ok-injective out) ∙ ap (λ f. record (contract options) { files = f }) rows in
                (
                  same,
                  subst (λ m. validate_metadata limits m ≡ ok tt) (ok-injective out) valid,
                  for_each-all (add_member P limits) (is_packable limits)
                      (λ s e t c. (add_member-row limits s e t c).1) (sorted_files options.files)
                      ([], []) loop,
                  (manifest, found, (==_iff _ _).0 (not-eq-false _ digest)),
                )

  -- The loop over the files has ended, and their number is within the limit.
  pub metadata_for_options-loop :
      (limits : PackageLimits) (options : BuildOptions) {metadata : PackageMetadata}
      → metadata_for_options P limits options ≡ ok metadata
      → (t : List Bytes × List PackageFile) × (for_each
            (add_member P limits)
            ([], [])
            (sorted_files options.files)
          ≡ ok t)
        × (length (sorted_files options.files) + 1 ≤ limits.max_members)
  unfolding metadata_for_options
  metadata_for_options-loop limits options h = refuse_elim _ _ _ h λ _ h₁.
      refuse_elim _ _ _ h₁ λ _ h₂. refuse_elim _ _ _ h₂ λ _ h₃. refuse_elim _ _ _ h₃ λ counted h₄.
        bind_elim _ _ h₄ λ t loop _. (
          t,
          loop,
          ground (
            arith,
            counted,
            length-perm (sort_by-perm (λ (e : Bytes × Bytes). e.0) options.files),
          ),
        )
