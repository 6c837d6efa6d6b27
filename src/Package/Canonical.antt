-- ===== src/Package/Canonical.antt =====
-- The bytes of a package that is verified, and what a build leaves at its output
-- (internal/package/package.go).
use unlock_catalog_publisher.Base.{
  ◌≡◌, refl, sym, ap, subst, ◌∙◌, Bool, true, false, [], ◌∷◌, Nodup, Bytes, Dict, Option, none,
  some, codes, ltb, length, keys, map, ok, err, bind_elim, refuse_elim, or_fail_elim, wrap_elim,
  ◌>>=◌, ◌>>◌, ==_iff, not-eq-false, or_false_iff, ◌⊎◌, inl, inr, Result-cases, Bool-cases,
}
use unlock_catalog_publisher.Primitives.{Primitives}
use unlock_catalog_publisher.Release.Types.{mode_file}
use unlock_catalog_publisher.Package.Types.{
  PackageMetadata, BuildOptions, PackageLimits, PackageError, default_package_limits,
  contract_invalid, publish_failed, package_missing, output_exists,
}
use unlock_catalog_publisher.Package.Metadata.{metadata_for_options, sorted_files}
use unlock_catalog_publisher.Package.Archive.{parse_archive}
use unlock_catalog_publisher.Package.Verify.{Codec, PackageNode, verify_entries, verify_package}
use unlock_catalog_publisher.Package.Build.{
  TreeItem, repository_entry, package_bytes, prepare_package, build_package,
}
use unlock_catalog_publisher.Package.Table.{contract, metadata_for_options-contract}
use unlock_catalog_publisher.Package.Exact.{verify_entries-eq}

module _ (P : Primitives) (C : Codec) where
  -- The writing of a package, when each step of it is known.
  package_bytes-eq :
      (limits : PackageLimits) (options : BuildOptions) (metadata : PackageMetadata)
      (json archive compressed : Bytes)
      → C.encode_metadata metadata ≡ some json
      → C.write_tar (
          record { name = codes "package.json"; body = json }
          ∷ map repository_entry (sorted_files options.files))
        ≡ some archive
      → ltb limits.max_uncompressed_bytes (length archive) ≡ false
      → C.compress archive ≡ some compressed
      → ltb limits.max_compressed_bytes (length compressed) ≡ false
      → package_bytes P C limits options metadata ≡ ok compressed
  unfolding package_bytes ◌>>=◌ ◌>>◌
  package_bytes-eq limits options metadata json archive compressed e w a c s =
      rw (e, w, a, c, s) refl

  -- A package that is verified against a release, whose files are a map, has byte for byte the contents that
  -- `BuildPackage` writes for that release.
  pub verify_package-canonical :
      (limits : PackageLimits) (package_path : Bytes) (info : PackageNode) (expected : BuildOptions)
      → Nodup (keys expected.files)
      → verify_package P C limits package_path (some info) expected ≡ ok tt
      → package_bytes P C limits expected (contract P expected) ≡ ok info.body
  unfolding verify_package
  verify_package-canonical limits package_path info expected n h = refuse_elim _ _ _ h λ _ h₁.
      wrap_elim contract_invalid (metadata_for_options P limits expected) _ h₁ λ metadata made h₂.
        let same : metadata ≡ contract P expected =
          (metadata_for_options-contract P limits expected made).0 in
        or_fail_elim (some info) package_missing _ h₂ λ node there h₃.
          let here : node ≡ info = cc in
          refuse_elim _ _ _ h₃ λ _ h₄. refuse_elim _ _ _ h₄ λ small h₅.
            or_fail_elim (C.decompress limits.max_uncompressed_bytes node.body) _ _ h₅
              λ archive _ h₆. refuse_elim _ _ _ h₆ λ fits h₇.
                bind_elim (parse_archive limits (C.read_tar archive)) _ h₇ λ entries _ h₈.
                  or_fail_elim (C.write_tar entries) _ _ h₈ λ canonical written h₉.
                    refuse_elim _ _ _ h₉ λ tar h₁₀.
                      or_fail_elim (C.compress canonical) _ _ h₁₀ λ recompressed zstd h₁₁.
                        refuse_elim _ _ _ h₁₁ λ bytes checked.
                          let (json, encoded, all_entries) =
                            verify_entries-eq P C limits expected entries n (
                              subst
                                (λ m. verify_entries P C limits expected.files m entries ≡ ok tt)
                                same checked) in
                          let tar_same : archive ≡ canonical =
                            (==_iff _ _).0 (not-eq-false _ tar) in
                          let zstd_same : node.body ≡ recompressed =
                            (==_iff _ _).0 (not-eq-false _ bytes) in
                          subst
                            (λ i.
                              package_bytes P C limits expected (contract P expected) ≡ ok i.body)
                            here
                            (package_bytes-eq limits expected (contract P expected) json archive
                              node.body encoded
                              (ap C.write_tar (sym all_entries) ∙ written ∙ ap some (sym tar_same))
                              fits (ap C.compress tar_same ∙ zstd ∙ ap some (sym zstd_same))
                              ((or_false_iff _ _).0 small).1)

  prepare_package-absent :
      (limits : PackageLimits) (options : BuildOptions) (tree : Option (Dict TreeItem))
      (before : Option Bytes) {compressed : Bytes}
      → prepare_package P C limits options tree before ≡ ok compressed
      → before ≡ none
  unfolding prepare_package
  prepare_package-absent limits options tree none h = refl
  prepare_package-absent limits options tree (some b) h = refuse_elim _ _ _ h λ _ h₁.
      refuse_elim _ _ _ h₁ λ _ h₂. refuse_elim true output_exists _ h₂ λ nothing _. absurd (cc)

  -- A build that returns without an error had nothing at its output, and leaves a package there that is verified
  -- against its options. A build that returns an error leaves the output as it was, with one exception: when the
  -- package that it has put where nothing was is not verified and cannot be removed, that package stays.
  pub build_package-IsAtomic :
      (options : BuildOptions) (tree : Option (Dict TreeItem)) (writes_fail remove_fails : Bool)
      (before : Option Bytes)
      → let (after, result) = build_package P C options tree writes_fail remove_fails before in
        let verdict = λ (compressed : Bytes).
          verify_package P C default_package_limits options.output
            (some (record { is_regular = true; mode = mode_file; body = compressed }))
            (record options { root = []; output = [] }) in
        ((result ≡ ok tt)
          × (before ≡ none)
          × ((compressed : Bytes) × (after ≡ some compressed) × (verdict compressed ≡ ok tt)))
        ⊎ ((failure : PackageError) × (result ≡ err failure)
            × ((after ≡ before)
                ⊎ ((remove_fails ≡ true)
                    × (before ≡ none)
                    × ((compressed : Bytes) × (after ≡ some compressed)
                        × (verdict compressed ≡ err failure)))))
  unfolding build_package
  build_package-IsAtomic options tree writes_fail remove_fails before =
      elim (Result-cases (prepare_package P C default_package_limits options tree before)) [
        | inr (failure, e) ↦
            inr (failure, rw (e, build_package) refl, inl (rw (e, build_package) refl))
        | inl (compressed, e) ↦ elim (Bool-cases writes_fail) [
          | inl w ↦
              inr
                (publish_failed, rw (e, w, build_package) refl, inl (rw (e, w, build_package) refl))
          | inr w ↦
              let absent : before ≡ none =
                prepare_package-absent default_package_limits options tree before e in
              elim (Result-cases (
                verify_package P C default_package_limits options.output
                  (some (record { is_regular = true; mode = mode_file; body = compressed }))
                  (record options { root = []; output = [] }))) [
                    | inl (_, v) ↦ inl (
                      rw (e, w, v, build_package) refl,
                      absent,
                      (compressed, rw (e, w, v, build_package) refl, v),
                    )
                    | inr (failure, v) ↦ inr (
                      failure,
                      rw (e, w, v, build_package) refl,
                      elim (Bool-cases remove_fails) [
                        | inl stays ↦ inr (
                          stays,
                          absent,
                          (compressed, rw (e, w, v, stays, build_package) refl, v),
                        )
                        | inr gone ↦ inl (rw (e, w, v, gone, build_package, absent) refl)
                      ],
                    )
                  ]
        ]
      ]
