-- ===== src/Package/Archive.antt =====
-- `validateArchiveHeader`, `parseArchive` and the members of `canonicalArchive`
-- (internal/package/package.go). The reader and the writer of tar archives are arguments of the functions
-- that use them; here is what the reader returns.
use unlock_catalog_publisher.Base.{
  ℕ, ◌+◌, Bool, true, false, not, ◌||◌, List, [], ◌∷◌, ◌++◌, Bytes, Option, none, some, codes, eqb,
  leb, ltb, length, contains, take, Result, ok, err, ◌>>=◌, ◌>>◌, refuse, or_fail, for_each, ◌==◌,
  if◌then◌else◌,
}
use unlock_catalog_publisher.Base.Int.{ℤ, pos, int_le, int_lt, int_eq}
use unlock_catalog_publisher.Release.Types.{mode_file}
use unlock_catalog_publisher.Package.Types.{
  ArchiveEntry, PackageLimits, PackageError, tar_not_read, too_many_members, not_canonical_header,
  duplicate_member, case_collision, invalid_length, length_differs, body_not_read, path_too_long,
}
use unlock_catalog_publisher.Package.Paths.{to_lower, validate_repository_member_path}

-- `tar.Header`. The times are in seconds since 1970 with `none` for the zero time, and `pax_records` and
-- `xattrs` are the sizes of two maps.
pub record Header : Type 0 where
  pub name : Bytes
  pub is_ustar : Bool
  pub is_regular : Bool
  pub mode : ℤ
  pub uid : ℤ
  pub gid : ℤ
  pub size : ℤ
  pub mod_time : Option ℤ
  pub access_time : Option ℤ
  pub change_time : Option ℤ
  pub uname : Bytes
  pub gname : Bytes
  pub linkname : Bytes
  pub devmajor : ℤ
  pub devminor : ℤ
  pub pax_records : ℕ
  pub xattrs : ℕ

-- What `reader.Next()` returns, with the body that can be read after it, or an error. The list ends at the
-- end of the archive.
pub data Member : Type 0 where
  member : Header → Option Bytes → Member
  unreadable : Member

-- The header that `canonicalArchive` writes, as the reader returns it.
unfoldable pub canonical_header : ArchiveEntry → Header
canonical_header entry = record {
  name = entry.name;
  is_ustar = true;
  is_regular = true;
  mode = pos mode_file;
  uid = pos 0;
  gid = pos 0;
  size = pos (length entry.body);
  mod_time = some (pos 0);
  access_time = none;
  change_time = none;
  uname = [];
  gname = [];
  linkname = [];
  devmajor = pos 0;
  devminor = pos 0;
  pax_records = 0;
  xattrs = 0;
}

-- `!value.Equal(canonicalTime)`
abbrev pub is_not_epoch : Option ℤ → Bool
is_not_epoch none = true
is_not_epoch (some seconds) = not (int_eq seconds (pos 0))

-- `!value.IsZero()`
abbrev pub is_some_time : Option ℤ → Bool
is_some_time none = false
is_some_time (some seconds) = true

unfoldable pub validate_archive_header : PackageLimits → Header → Result PackageError (Unit {0})
validate_archive_header limits header = do
  refuse
      (not header.is_ustar
        || not header.is_regular
        || not (int_eq header.mode (pos mode_file))
        || not (int_eq header.uid (pos 0))
        || not (int_eq header.gid (pos 0))
        || is_not_epoch header.mod_time
        || is_some_time header.access_time
        || is_some_time header.change_time
        || not (header.uname == [])
        || not (header.gname == [])
        || not (header.linkname == [])
        || not (int_eq header.devmajor (pos 0))
        || not (int_eq header.devminor (pos 0))
        || not (eqb header.pax_records 0)
        || not (eqb header.xattrs 0))
      not_canonical_header
  if header.name == codes "package.json"
      then refuse (ltb limits.max_path_bytes (length header.name)) path_too_long
      else validate_repository_member_path limits header.name

-- `memberLimit`
abbrev pub archive_member_limit : PackageLimits → Bytes → ℕ
archive_member_limit limits name =
    if name == codes "package.json"
      || name == codes "repository/manifest.json"
      || name == codes "repository/root.json"
    then limits.max_manifest_bytes
    else limits.max_artifact_bytes

-- The variables of the loop in `parseArchive`.
pub record ArchiveScan : Type 0 where
  pub entries : List ArchiveEntry
  pub seen : List Bytes
  pub seen_case : List Bytes

unfoldable pub read_member : PackageLimits → ArchiveScan → Member → Result PackageError ArchiveScan
read_member limits scan unreadable = err tar_not_read
read_member limits scan (member header content) = do
  refuse (leb limits.max_members (length scan.entries)) too_many_members
  validate_archive_header limits header
  refuse (contains header.name scan.seen) duplicate_member
  refuse (contains (to_lower header.name) scan.seen_case) case_collision
  let limit = archive_member_limit limits header.name
  refuse (int_le header.size (pos 0) || int_lt (pos limit) header.size) invalid_length
  whole ← or_fail content body_not_read
  let body = take (limit + 1) whole
  refuse (not (int_eq (pos (length body)) header.size)) length_differs
  ok (record {
    entries = scan.entries ++ record { name = header.name; body = body } ∷ [];
    seen = header.name ∷ scan.seen;
    seen_case = to_lower header.name ∷ scan.seen_case;
  })

unfoldable pub parse_archive : PackageLimits → List Member → Result PackageError (List ArchiveEntry)
parse_archive limits members = do
  scan ← for_each (read_member limits) (record { entries = []; seen = []; seen_case = [] }) members
  ok scan.entries
