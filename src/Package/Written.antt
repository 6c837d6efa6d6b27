-- ===== src/Package/Written.antt =====
-- The archive that `BuildPackage` writes is read back whole: `parseArchive` accepts the members of options
-- that `metadataForOptions` accepts (internal/package/package.go).
use unlock_catalog_publisher.Base.{
  ◌+◌, ◌≤◌, ◌≡◌, refl, sym, ap, subst, ◌∙◌, true, false, ◌||◌, List, [], ◌∷◌, ◌++◌, Bytes, Dict,
  some, arith, codes, eqb, leb, ltb, length, length-append, take, take-all, map, contains, ok,
  for_each, ok-injective, bind_elim, refuse_elim, then_elim, ◌>>=◌, ◌>>◌, ◌==◌, ==_iff, Bool-cases,
  inl, inr,
}
use mathlib.Core.List.{append_assoc, append-nil}
use unlock_catalog_publisher.Base.Int.{pos, int_le, int_lt, int_eq}
use unlock_catalog_publisher.Base.Growth.{contains-append}
use unlock_catalog_publisher.Primitives.{Primitives}
use unlock_catalog_publisher.Package.Types.{PackageFile, ArchiveEntry, PackageLimits}
use unlock_catalog_publisher.Package.Paths.{
  to_lower, repository_prefix, validate_repository_member_path,
}
use unlock_catalog_publisher.Package.Metadata.{add_member, member_limit}
use unlock_catalog_publisher.Package.Archive.{
  Member, member, canonical_header, validate_archive_header, archive_member_limit, ArchiveScan,
  read_member, parse_archive,
}
use unlock_catalog_publisher.Package.Build.{repository_entry}

-- The member of an entry, as it is read back.
abbrev pub written : ArchiveEntry → Member
written entry = member (canonical_header entry) (some entry.body)

abbrev pub extended : ArchiveScan → ArchiveEntry → ArchiveScan
extended scan entry = record {
  entries = scan.entries ++ entry ∷ [];
  seen = entry.name ∷ scan.seen;
  seen_case = to_lower entry.name ∷ scan.seen_case;
}

pub read_member-written :
    (limits : PackageLimits) (scan : ArchiveScan) (entry : ArchiveEntry)
    → leb limits.max_members (length scan.entries) ≡ false
    → validate_archive_header limits (canonical_header entry) ≡ ok tt
    → contains entry.name scan.seen ≡ false
    → contains (to_lower entry.name) scan.seen_case ≡ false
    → eqb (length entry.body) 0 || ltb (archive_member_limit limits entry.name) (length entry.body)
      ≡ false
    → read_member limits scan (written entry) ≡ ok (extended scan entry)
unfolding read_member canonical_header ◌>>=◌ ◌>>◌
read_member-written limits scan entry room canonical fresh folded sized =
    let limit = archive_member_limit limits entry.name in
    let whole : take (limit + 1) entry.body ≡ entry.body =
      take-all (limit + 1) entry.body (ground (arith, sized)) in
    let fits : int_le (pos (length entry.body)) (pos 0)
          || int_lt (pos limit) (pos (length entry.body))
        ≡ false =
      ground (arith, sized) in
    let same : int_eq (pos (length entry.body)) (pos (length entry.body)) ≡ true = ground arith in
    rw (room, canonical, fresh, folded, fits, whole, same) refl

archive_member_limit-repository :
    (limits : PackageLimits) (relative : Bytes)
    → archive_member_limit limits (repository_prefix ++ relative) ≡ member_limit limits relative
unfolding ◌==◌
archive_member_limit-repository limits relative = refl

validate_archive_header-repository :
    (limits : PackageLimits) (e : Bytes × Bytes)
    → validate_repository_member_path limits (repository_prefix ++ e.0) ≡ ok tt
    → validate_archive_header limits (canonical_header (repository_entry e)) ≡ ok tt
unfolding validate_archive_header canonical_header ◌==◌ ◌>>◌
validate_archive_header-repository limits (relative, body) h = h

contains-map :
    (f : Bytes → Bytes) (k : Bytes) (xs : List Bytes)
    → contains (f k) (map f xs) ≡ false
    → contains k xs ≡ false
unfolding contains
contains-map f k [] h = refl
contains-map f k (x ∷ xs) h = elim (Bool-cases (x == k)) [
  | inl e ↦
      let same : f x == f k ≡ true = (==_iff (f x) (f k)).1 (ap f ((==_iff x k).0 e)) in
      absurd (ground (arith, h, same))
  | inr e ↦ rw e (contains-map f k xs (ground (arith, h)))
]

-- The sets of the two loops, after package.json.
abbrev pub Linked : ArchiveScan → List Bytes → Type 0
Linked scan seen_case =
    (scan.seen_case ≡ seen_case ++ to_lower (codes "package.json") ∷ [])
    × (scan.seen_case ≡ map to_lower scan.seen)

not_package_json :
    (relative : Bytes)
    → contains (to_lower (repository_prefix ++ relative)) (to_lower (codes "package.json") ∷ [])
      ≡ false
unfolding contains to_lower ◌==◌
not_package_json relative = refl

fresh-Linked :
    (scan : ArchiveScan) (seen_case : List Bytes) (relative : Bytes)
    → Linked scan seen_case
    → contains (to_lower (repository_prefix ++ relative)) seen_case ≡ false
    → (contains (to_lower (repository_prefix ++ relative)) scan.seen_case ≡ false)
      × (contains (repository_prefix ++ relative) scan.seen ≡ false)
fresh-Linked scan seen_case relative (same, lowered) fresh =
    let name = repository_prefix ++ relative in
    let apart : contains (to_lower name) (to_lower (codes "package.json") ∷ []) ≡ false =
      not_package_json relative in
    let folded : contains (to_lower name) scan.seen_case ≡ false =
      ap (contains (to_lower name)) same
      ∙ contains-append (to_lower name) seen_case (to_lower (codes "package.json") ∷ [])
      ∙ rw (fresh, apart) refl in
    (
      folded,
      contains-map to_lower name scan.seen (sym (ap (contains (to_lower name)) lowered) ∙ folded),
    )

module _ (P : Primitives) where
  -- A pass of `metadataForOptions` is followed by one of `parseArchive`.
  add_member-read :
      (limits : PackageLimits) (seen_case : List Bytes) (files : List PackageFile)
      (scan : ArchiveScan) (e : Bytes × Bytes) {t : List Bytes × List PackageFile}
      → add_member P limits (seen_case, files) e ≡ ok t
      → Linked scan seen_case
      → leb limits.max_members (length scan.entries) ≡ false
      → (read_member limits scan (written (repository_entry e))
          ≡ ok (extended scan (repository_entry e)))
        × Linked (extended scan (repository_entry e)) t.0
  unfolding add_member
  add_member-read limits seen_case files scan (relative, content) {t} h linked room =
      then_elim (validate_repository_member_path limits (repository_prefix ++ relative)) _ h
        λ path h₁.
          refuse_elim (contains (to_lower (repository_prefix ++ relative)) seen_case) _ _ h₁
            λ fresh h₂. refuse_elim _ _ _ h₂ λ sized h₃. refuse_elim _ _ _ h₃ λ _ out.
              let (folded, new) = fresh-Linked scan seen_case relative linked fresh in
              let limit_same = archive_member_limit-repository limits relative in
              (
                read_member-written limits scan (repository_entry (relative, content)) room
                    (validate_archive_header-repository limits (relative, content) path) new folded
                    (subst (λ l. eqb (length content) 0 || ltb l (length content) ≡ false)
                      (sym limit_same) sized),
                subst (λ s. Linked (extended scan (repository_entry (relative, content))) s)
                    (ap (λ p. p.0) (ok-injective out))
                    (
                      ap (λ l. to_lower (repository_prefix ++ relative) ∷ l) linked.0,
                      ap (λ l. to_lower (repository_prefix ++ relative) ∷ l) linked.1,
                    ),
              )

  -- The loops run alike.
  pub add_members-read :
      (limits : PackageLimits) (es : Dict Bytes) (seen_case : List Bytes) (files : List PackageFile)
      (scan : ArchiveScan) {t : List Bytes × List PackageFile}
      → for_each (add_member P limits) (seen_case, files) es ≡ ok t
      → Linked scan seen_case
      → length scan.entries + length es ≤ limits.max_members
      → (last : ArchiveScan) × (for_each
            (read_member limits)
            scan
            (map written (map repository_entry es))
          ≡ ok last)
        × (last.entries ≡ scan.entries ++ map repository_entry es)
  unfolding for_each ◌>>=◌
  add_members-read limits [] seen_case files scan h linked room =
      (scan, refl, sym (append-nil scan.entries))
  add_members-read limits (e ∷ es) seen_case files scan h linked room =
      bind_elim (add_member P limits (seen_case, files) e) _ h λ (seen', files') first more.
        let entry = repository_entry e in
        let (read, linked') =
          add_member-read limits seen_case files scan e first linked (ground (arith, room)) in
        let (last, rest, all_entries) =
          add_members-read limits es seen' files' (extended scan entry) more linked'
            (omega (arith, room, length-append scan.entries (entry ∷ []))) in
        (
          last,
          rw read rest,
          all_entries ∙ append_assoc scan.entries (entry ∷ []) (map repository_entry es),
        )

-- The state after package.json.
abbrev package_entry : Bytes → ArchiveEntry
package_entry json = record { name = codes "package.json"; body = json }

read_member-package :
    (limits : PackageLimits) (json : Bytes)
    → leb 12 limits.max_path_bytes ≡ true
    → ltb 0 limits.max_members ≡ true
    → eqb (length json) 0 || ltb limits.max_manifest_bytes (length json) ≡ false
    → read_member limits
        (record { entries = []; seen = []; seen_case = [] })
        (written (package_entry json))
      ≡ ok (extended (record { entries = []; seen = []; seen_case = [] }) (package_entry json))
unfolding validate_archive_header canonical_header contains ◌==◌ ◌>>◌
read_member-package limits json short some_members sized =
    let path : ltb limits.max_path_bytes 12 ≡ false = ground (arith, short) in
    read_member-written limits _ (package_entry json) (ground (arith, some_members)) (rw path refl)
      refl refl sized

-- The archive of accepted options is read back, entry by entry.
pub parse_archive-written :
    (P : Primitives) (limits : PackageLimits) (json : Bytes) (es : Dict Bytes)
    {t : List Bytes × List PackageFile}
    → for_each (add_member P limits) ([], []) es ≡ ok t
    → leb 12 limits.max_path_bytes ≡ true
    → length es + 1 ≤ limits.max_members
    → eqb (length json) 0 || ltb limits.max_manifest_bytes (length json) ≡ false
    → parse_archive limits (
        map written (record { name = codes "package.json"; body = json } ∷ map repository_entry es))
      ≡ ok (record { name = codes "package.json"; body = json } ∷ map repository_entry es)
unfolding parse_archive for_each ◌>>=◌
parse_archive-written P limits json es loop short room sized =
    let first = read_member-package limits json short (ground (arith, room)) sized in
    let (last, rest, all_entries) =
      add_members-read P limits es [] []
        (extended (record { entries = []; seen = []; seen_case = [] }) (package_entry json)) loop
        (refl, refl) (omega (arith, room)) in
    rw (first, rest, all_entries) refl
