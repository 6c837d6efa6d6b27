-- ===== src/Package/Bounds.antt =====
-- The limits that an archive keeps when `parseArchive` accepts it (internal/package/package.go), whatever
-- the archive claims of itself.
use mathlib.Core.List.{Nodup-nil, map-append}
use unlock_catalog_publisher.Base.{
  ℕ, ◌+◌, ◌≤◌, ◌≡◌, refl, sym, ap, subst, ◌∙◌, Bool, true, false, ◌&&◌, ◌||◌, List, [], ◌∷◌, ◌++◌,
  Nodup, Bytes, arith, codes, leb, ltb, length, length-append, all, map, contains, ok, for_each,
  for_each-invariant, ok-injective, bind_elim, refuse_elim, or_fail_elim, then_elim, ◌==◌, take,
  Bool-cases, inl, inr,
}
use unlock_catalog_publisher.Base.Int.{ℤ, pos, int_le, int_lt, int_eq_iff}
use unlock_catalog_publisher.Base.Growth.{Grows-one, contains-append}
use unlock_catalog_publisher.Package.Types.{
  ArchiveEntry, PackageLimits, too_many_members, duplicate_member, case_collision, invalid_length,
  length_differs, body_not_read, unsafe_package_path, not_canonical_header,
}
use unlock_catalog_publisher.Package.Paths.{to_lower, validate_repository_member_path}
use unlock_catalog_publisher.Package.Archive.{
  Header, Member, member, unreadable, validate_archive_header, archive_member_limit, ArchiveScan,
  read_member, parse_archive,
}

validate_repository_member_path-short :
    (limits : PackageLimits) (name : Bytes)
    → validate_repository_member_path limits name ≡ ok tt
    → leb (length name) limits.max_path_bytes ≡ true
unfolding validate_repository_member_path
validate_repository_member_path-short limits name h =
    refuse_elim _ unsafe_package_path _ h λ safe _. ground (arith, safe)

validate_archive_header-short :
    (limits : PackageLimits) (header : Header)
    → validate_archive_header limits header ≡ ok tt
    → leb (length header.name) limits.max_path_bytes ≡ true
unfolding validate_archive_header
validate_archive_header-short limits header h = refuse_elim _ not_canonical_header _ h λ _ named.
    elim (Bool-cases (header.name == codes "package.json")) [
      | inl e ↦ ground (arith, named, e)
      | inr e ↦ validate_repository_member_path-short limits header.name (ground (arith, named, e))
    ]

-- An entry has a name that is not too long, and a body that is neither empty nor over its limit.
abbrev pub is_bounded : PackageLimits → ArchiveEntry → Bool
is_bounded limits entry =
    leb (length entry.name) limits.max_path_bytes
    && ltb 0 (length entry.body)
    && leb (length entry.body) (archive_member_limit limits entry.name)

abbrev pub names_of : List ArchiveEntry → List Bytes
names_of = map λ e. e.name

-- What the loop keeps.
abbrev Kept : PackageLimits → ArchiveScan → Type 0
Kept limits scan =
    (length scan.entries ≤ limits.max_members)
    × (all (is_bounded limits) scan.entries ≡ true)
    × Nodup (names_of scan.entries)
    × ((k : Bytes) → contains k (names_of scan.entries) ≡ contains k scan.seen)

all-append_one {ℓ} :
    {A : Type ℓ} (p : A → Bool) (xs : List A) (x : A)
    → all p xs ≡ true
    → p x ≡ true
    → all p (xs ++ x ∷ []) ≡ true
unfolding all
all-append_one p [] x h k = ground arith
all-append_one p (y ∷ ys) x h k = ground (arith, all-append_one p ys x)

contains-append_one :
    (k name : Bytes) (names seen : List Bytes)
    → contains k names ≡ contains k seen
    → contains k (names ++ name ∷ []) ≡ contains k (name ∷ seen)
unfolding contains
contains-append_one k name names seen h = ground (arith, contains-append k names (name ∷ []), h)

Kept-entry :
    (limits : PackageLimits) (scan : ArchiveScan) (entry : ArchiveEntry) (folded : List Bytes)
    → Kept limits scan
    → leb limits.max_members (length scan.entries) ≡ false
    → contains entry.name scan.seen ≡ false
    → is_bounded limits entry ≡ true
    → Kept limits (record {
      entries = scan.entries ++ entry ∷ [];
      seen = entry.name ∷ scan.seen;
      seen_case = folded;
    })
Kept-entry limits scan entry folded (size, fit, once, known) room fresh bounded =
    let appended : names_of (scan.entries ++ entry ∷ [])
        ≡ names_of scan.entries ++ entry.name ∷ [] =
      map-append (λ (e : ArchiveEntry). e.name) scan.entries (entry ∷ []) in
    let new : contains entry.name (names_of scan.entries) ≡ false = known entry.name ∙ fresh in
    (
      ground (arith, room, length-append scan.entries (entry ∷ [])),
      all-append_one (is_bounded limits) scan.entries entry fit bounded,
      subst Nodup (sym appended) ((Grows-one (names_of scan.entries) entry.name new).1 once),
      λ k.
          ap (contains k) appended
          ∙ contains-append_one k entry.name (names_of scan.entries) scan.seen (known k),
    )

within :
    (n limit : ℕ) (size : ℤ)
    → pos n ≡ size
    → int_le size (pos 0) || int_lt (pos limit) size ≡ false
    → ltb 0 n && leb n limit ≡ true
within n limit size same h =
    let sized : int_le (pos n) (pos 0) || int_lt (pos limit) (pos n) ≡ false =
      subst (λ z. int_le z (pos 0) || int_lt (pos limit) z ≡ false) (sym same) h in
    ground (arith, sized)

read_member-Kept :
    (limits : PackageLimits) (scan : ArchiveScan) (m : Member) (next : ArchiveScan)
    → Kept limits scan
    → read_member limits scan m ≡ ok next
    → Kept limits next
unfolding read_member
read_member-Kept limits scan unreadable next kept h = absurd (cc)
read_member-Kept limits scan (member header content) next kept h =
    refuse_elim _ too_many_members _ h λ room h₁.
      then_elim (validate_archive_header limits header) _ h₁ λ canonical h₂.
        refuse_elim (contains header.name scan.seen) duplicate_member _ h₂ λ fresh h₃.
          refuse_elim _ case_collision _ h₃ λ _ h₄. refuse_elim _ invalid_length _ h₄ λ sized h₅.
            or_fail_elim content body_not_read _ h₅ λ whole _ h₆.
              refuse_elim _ length_differs _ h₆ λ exact out.
                let limit = archive_member_limit limits header.name in
                let body = take (limit + 1) whole in
                let same : pos (length body) ≡ header.size =
                  (int_eq_iff _ _).0 (ground (arith, exact)) in
                let bounded : is_bounded limits (record { name = header.name; body = body })
                    ≡ true =
                  ground (
                    arith,
                    validate_archive_header-short limits header canonical,
                    within (length body) limit header.size same sized,
                  ) in
                subst (Kept limits) (ok-injective out) (
                  Kept-entry limits scan (record { name = header.name; body = body })
                    (to_lower header.name ∷ scan.seen_case) kept room fresh bounded)

-- An archive that is accepted has no more members than the limit, each with a name of its own that is not
-- too long, and with a body that is neither empty nor over its limit.
pub parse_archive_bounds :
    (limits : PackageLimits) (members : List Member) {entries : List ArchiveEntry}
    → parse_archive limits members ≡ ok entries
    → (length entries ≤ limits.max_members)
      × (all (is_bounded limits) entries ≡ true)
      × Nodup (names_of entries)
unfolding parse_archive all contains
parse_archive_bounds limits members h =
    bind_elim (for_each (read_member limits) _ members) _ h λ scan loop out.
      let (size, fit, once, _) =
        for_each-invariant (read_member limits) (Kept limits)
          (λ s m t i c. read_member-Kept limits s m t i c) members
          (record { entries = []; seen = []; seen_case = [] })
          (omega arith, refl, Nodup-nil, λ k. refl) loop in
      subst
        (λ es.
          (length es ≤ limits.max_members)
          × (all (is_bounded limits) es ≡ true)
          × Nodup (names_of es))
        (ok-injective out) (size, fit, once)
