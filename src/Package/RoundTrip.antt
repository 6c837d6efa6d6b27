-- ===== src/Package/RoundTrip.antt =====
-- A package that `BuildPackage` writes passes `VerifyPackage` (internal/package/package.go), where tar, zstd
-- and JSON read back what they wrote.
use mathlib.Core.List.Perm
use mathlib.Core.List.{mem-cons_self, mem-cons_of_mem}
use unlock_catalog_publisher.Base.{
  ℕ, ◌≤◌, ◌≡◌, refl, sym, ap, subst, ◌∙◌, true, false, ◌||◌, List, [], ◌∷◌, ◌++◌, Mem, Nodup, Bytes,
  Dict, Option, none, some, arith, codes, eqb, leb, ltb, length, length-map, keys, map, ok,
  ok-injective, refuse_elim, or_fail_elim, ◌>>=◌, ◌>>◌, ◌==◌, ==_refl,
}
use unlock_catalog_publisher.Base.Int.{int_eq, int_eq_iff}
use unlock_catalog_publisher.Base.Growth.{lookup-of_mem}
use unlock_catalog_publisher.Base.Sort.{sort_by-perm}
use unlock_catalog_publisher.Base.Paths.{base}
use unlock_catalog_publisher.Primitives.{Primitives, digest_bytes}
use unlock_catalog_publisher.Release.Types.{mode_file}
use unlock_catalog_publisher.Json.Walk.{reject_duplicate_json_fields}
use unlock_catalog_publisher.Package.Types.{
  PackageFile, PackageMetadata, BuildOptions, PackageLimits, ArchiveEntry, package_file_name,
}
use unlock_catalog_publisher.Package.Paths.{repository_prefix}
use unlock_catalog_publisher.Package.Metadata.{
  equal_uint64, same_package_file, compare_files, compare_metadata, sorted_files, validate_metadata,
  metadata_for_options,
}
use unlock_catalog_publisher.Package.Verify.{
  Codec, parse_metadata, check_entry, check_entries, verify_entries, verify_package,
}
use unlock_catalog_publisher.Package.Build.{repository_entry, package_bytes}
use unlock_catalog_publisher.Package.Table.{
  package_file, contract, metadata_for_options-contract, metadata_for_options-loop,
}
use unlock_catalog_publisher.Package.Exact.{trim_prefix-append, some-injective}
use unlock_catalog_publisher.Package.Written.{written, parse_archive-written}

equal_uint64_refl : (v : Option ℕ) → equal_uint64 v v ≡ true
unfolding equal_uint64
equal_uint64_refl none = refl
equal_uint64_refl (some n) = ground arith

compare_files_refl : (fs : List PackageFile) → compare_files fs fs ≡ ok tt
unfolding compare_files same_package_file ◌>>◌
compare_files_refl [] = refl
compare_files_refl (f ∷ fs) =
    let same : int_eq f.length f.length ≡ true = (int_eq_iff f.length f.length).1 refl in
    rw (==_refl f.path, same, ==_refl f.sha256, compare_files_refl fs) refl

compare_metadata_refl : (m : PackageMetadata) → compare_metadata m m ≡ ok tt
unfolding compare_metadata ◌>>◌
compare_metadata_refl m =
    let size : eqb (length m.files) (length m.files) ≡ true = ground arith in
    rw
      (
        ==_refl m.format,
        ==_refl m.source_id,
        ==_refl m.manifest_digest,
        ==_refl m.manifest_envelope_sha256,
        equal_uint64_refl m.root_version,
        size,
        compare_files_refl m.files,
      )
      refl

not_empty : (path : Bytes) → base path ≡ package_file_name → path == [] ≡ false
unfolding base ◌==◌
not_empty [] h = absurd (cc)
not_empty (c ∷ s) h = refl

module _ (P : Primitives) (C : Codec) where
  check_entry-file :
      (expected : Dict Bytes) (e : Bytes × Bytes)
      → Nodup (keys expected)
      → Mem e expected
      → check_entry P C expected (package_file P e) (repository_entry e) ≡ ok tt
  unfolding check_entry ◌>>=◌ ◌>>◌
  check_entry-file expected (name, body) n i =
      let size : eqb (length body) (length body) ≡ true = ground arith in
      rw
        (
          ==_refl (repository_prefix ++ name),
          size,
          ==_refl (digest_bytes P body),
          trim_prefix-append repository_prefix name,
          lookup-of_mem name body expected n i,
          ==_refl body,
        )
        refl

  check_entries-files :
      (expected : Dict Bytes) (es : Dict Bytes)
      → Nodup (keys expected)
      → ((e : Bytes × Bytes) → Mem e es → Mem e expected)
      → check_entries P C expected (map (package_file P) es) (map repository_entry es) ≡ ok tt
  unfolding check_entries ◌>>◌
  check_entries-files expected [] n inside = refl
  check_entries-files expected (e ∷ es) n inside =
      rw (check_entry-file expected e n (inside e mem-cons_self))
        (check_entries-files expected es n (λ d i. inside d (mem-cons_of_mem e i)))

  -- The first entry is package.json with the metadata, and the others are the files.
  verify_entries-files :
      (limits : PackageLimits) (options : BuildOptions) (json : Bytes)
      → Nodup (keys options.files)
      → validate_metadata limits (contract P options) ≡ ok tt
      → reject_duplicate_json_fields (C.tokens json) ≡ ok tt
      → C.decode_metadata json ≡ some (contract P options)
      → C.encode_metadata (contract P options) ≡ some json
      → verify_entries P C limits options.files (contract P options) (
          record { name = codes "package.json"; body = json }
          ∷ map repository_entry (sorted_files options.files))
        ≡ ok tt
  unfolding verify_entries parse_metadata ◌>>=◌ ◌>>◌
  verify_entries-files limits options json n valid unique decoded encoded =
      let counted : eqb (length (map repository_entry (sorted_files options.files)))
            (length (map (package_file P) (sorted_files options.files)))
          ≡ true =
        ground (
          arith,
          length-map repository_entry (sorted_files options.files),
          length-map (package_file P) (sorted_files options.files),
        ) in
      let checked =
        check_entries-files options.files (sorted_files options.files) n
          (λ e i. (Perm.mem_iff (sort_by-perm (λ (x : Bytes × Bytes). x.0) options.files)).0 i) in
      rw
        (
          ==_refl (codes "package.json"),
          unique,
          decoded,
          encoded,
          ==_refl json,
          valid,
          compare_metadata_refl (contract P options),
          counted,
          checked,
        )
        refl

  package_bytes-steps :
      (limits : PackageLimits) (options : BuildOptions) (metadata : PackageMetadata) (json : Bytes)
      {compressed : Bytes}
      → C.encode_metadata metadata ≡ some json
      → package_bytes P C limits options metadata ≡ ok compressed
      → (archive : Bytes) × (C.write_tar (
            record { name = codes "package.json"; body = json }
            ∷ map repository_entry (sorted_files options.files))
          ≡ some archive)
        × (ltb limits.max_uncompressed_bytes (length archive) ≡ false)
        × (C.compress archive ≡ some compressed)
        × (ltb limits.max_compressed_bytes (length compressed) ≡ false)
  unfolding package_bytes
  package_bytes-steps limits options metadata json {compressed} encoded h =
      or_fail_elim (C.encode_metadata metadata) _ _ h λ found was_found h₁.
        let same : found ≡ json = some-injective (sym was_found ∙ encoded) in
        or_fail_elim (C.write_tar _) _ _ h₁ λ archive wrote h₂. refuse_elim _ _ _ h₂ λ fits h₃.
          or_fail_elim (C.compress archive) _ _ h₃ λ packed zstd h₄.
            refuse_elim _ _ _ h₄ λ small out.
              let packed_same : packed ≡ compressed = ok-injective out in
              (
                archive,
                subst
                    (λ b.
                      C.write_tar (
                        record { name = codes "package.json"; body = b }
                        ∷ map repository_entry (sorted_files options.files))
                      ≡ some archive)
                    same wrote,
                fits,
                zstd ∙ ap some packed_same,
                subst (λ b. ltb limits.max_compressed_bytes (length b) ≡ false) packed_same small,
              )

  -- The tar archive and zstd read back what they wrote.
  module _
      (tar_reads : (entries : List ArchiveEntry) (archive : Bytes)
        → C.write_tar entries ≡ some archive
        → C.read_tar archive ≡ map written entries)
      (zstd_reads : (limit : ℕ) (archive compressed : Bytes)
        → C.compress archive ≡ some compressed
        → length archive ≤ limit
        → C.decompress limit compressed ≡ some archive) where
    -- What `BuildPackage` writes for options that it accepts is verified against them, when the package.json
    -- reads back, has no doubled fields and is within its limit.
    pub verify_package-package_bytes :
        (limits : PackageLimits) (package_path : Bytes) (options : BuildOptions)
        (json compressed : Bytes) {metadata : PackageMetadata}
        → Nodup (keys options.files)
        → metadata_for_options P limits options ≡ ok metadata
        → C.encode_metadata metadata ≡ some json
        → C.decode_metadata json ≡ some metadata
        → reject_duplicate_json_fields (C.tokens json) ≡ ok tt
        → eqb (length json) 0 || ltb limits.max_manifest_bytes (length json) ≡ false
        → leb 12 limits.max_path_bytes ≡ true
        → package_bytes P C limits options metadata ≡ ok compressed
        → eqb (length compressed) 0 ≡ false
        → base package_path ≡ package_file_name
        → verify_package P C limits package_path
            (some (record { is_regular = true; mode = mode_file; body = compressed }))
            options
          ≡ ok tt
    unfolding verify_package ◌>>=◌ ◌>>◌
    verify_package-package_bytes limits package_path options json compressed {metadata} n made
          encoded decoded unique sized short built filled named =
        let (same, valid, _, _) = metadata_for_options-contract P limits options made in
        let (archive, wrote, fits, zstd, small) =
          package_bytes-steps limits options metadata json encoded built in
        let (_, loop, room) = metadata_for_options-loop P limits options made in
        let parsed =
          parse_archive-written P limits json (sorted_files options.files) loop short room sized in
        let checked =
          verify_entries-files limits options json n
            (subst (λ m. validate_metadata limits m ≡ ok tt) same valid) unique
            (subst (λ m. C.decode_metadata json ≡ some m) same decoded)
            (subst (λ m. C.encode_metadata m ≡ some json) same encoded) in
        rw
          (
            not_empty package_path named,
            named,
            ==_refl package_file_name,
            made,
            filled,
            small,
            zstd_reads limits.max_uncompressed_bytes archive compressed zstd (ground (arith, fits)),
            fits,
            tar_reads _ archive wrote,
            parsed,
            wrote,
            ==_refl archive,
            zstd,
            ==_refl compressed,
            same,
            checked,
          )
          refl
