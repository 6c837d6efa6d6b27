-- ===== src/Signing/Candidate/Reading.antt =====
-- `readRegularFile`, `validCandidateFileMode` and `validateObjects` (internal/signing/candidate.go).
use unlock_catalog_publisher.Base.{
  ℕ, suc, Bool, true, false, not, ◌&&◌, ◌==◌, List, [], Bytes, Dict, eqb, ltb, length, take, lookup,
  Option, none, some, Result, ok, ◌>>=◌, ◌>>◌, refuse, or_fail, for_each, if◌then◌else◌,
}
use unlock_catalog_publisher.Base.Int.{ℤ, pos, negsuc, int_eq}
use unlock_catalog_publisher.Base.Items.{Item, symlink, plain}
use unlock_catalog_publisher.Primitives.{Primitives, digest_bytes}
use unlock_catalog_publisher.Catalog.Types.{SigningObject}
use unlock_catalog_publisher.Signing.Candidate.Types.{
  CandidateError, file_unopenable, file_not_regular, invalid_maximum, file_too_long,
  file_length_mismatch, object_length_mismatch, object_digest_mismatch,
}

-- `0o644` and `0o755`.
abbrev pub mode_file : ℕ
mode_file = 420

abbrev pub mode_directory : ℕ
mode_directory = 493

-- `math.MaxInt64`
abbrev pub max_int64 : ℕ
max_int64 = 9223372036854775807

unfoldable pub valid_candidate_file_mode : Item → Bool
valid_candidate_file_mode (plain mode content) = eqb mode mode_file
valid_candidate_file_mode _ = false

abbrev pub content_of : Item → Bytes
content_of (plain mode content) = content
content_of _ = []

-- `io.ReadAll(io.LimitReader(file, maximum+1))`: the sum wraps around to a negative limit, with which nothing
-- is read.
abbrev pub read_limited : ℕ → Bytes → Bytes
read_limited maximum content = if eqb maximum max_int64 then [] else take (suc maximum) content

-- `openNoSymlinks` of what stands at a path.
abbrev pub open_no_symlinks : Option Item → Option Item
open_no_symlinks none = none
open_no_symlinks (some symlink) = none
open_no_symlinks (some item) = some item

-- `maximum < 0`
abbrev pub natural : ℤ → Option ℕ
natural (pos n) = some n
natural (negsuc n) = none

-- The file at a path below the candidate.
unfoldable pub read_regular_file : Dict Item → Bytes → ℤ → Bool → Result CandidateError Bytes
read_regular_file items relative maximum exact_limit = do
  item ← or_fail (open_no_symlinks (lookup relative items)) file_unopenable
  refuse (not (valid_candidate_file_mode item)) file_not_regular
  limit ← or_fail (natural maximum) invalid_maximum
  let content = read_limited limit (content_of item)
  refuse (ltb limit (length content)) file_too_long
  refuse (exact_limit && not (eqb (length content) limit)) file_length_mismatch
  ok content

module _ (P : Primitives) where
  -- The body of the loop. The path is clean and relative: `validateCandidateTree` has tested it before.
  unfoldable pub validate_object :
      Dict Item → Unit {0} → SigningObject → Result CandidateError (Unit {0})
  validate_object items _ object = do
    content ← read_regular_file items object.path object.length true
    refuse (not (int_eq (pos (length content)) object.length)) object_length_mismatch
    refuse (not (digest_bytes P content == object.sha256)) object_digest_mismatch

  unfoldable pub validate_objects :
      Dict Item → List SigningObject → Result CandidateError (Unit {0})
  validate_objects items objects = for_each (validate_object items) tt objects
