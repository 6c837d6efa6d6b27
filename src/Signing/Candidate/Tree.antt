-- ===== src/Signing/Candidate/Tree.antt =====
-- `validRelativePath` and `validateCandidateTree` (internal/signing/candidate.go).
use unlock_catalog_publisher.Base.{
  ◌+◌, Bool, not, ◌&&◌, ◌||◌, ◌==◌, List, [], ◌∷◌, ◌++◌, Bytes, Dict, codes, eqb, length, all, any,
  contains, Result, ok, err, ◌>>=◌, ◌>>◌, refuse, or_fail, for_each,
}
use unlock_catalog_publisher.Base.Paths.{split, is_abs, clean}
use unlock_catalog_publisher.Base.Paths.Dir.{ancestors}
use unlock_catalog_publisher.Base.Items.{Item, symlink, folder}
use unlock_catalog_publisher.Catalog.Types.{SigningObject}
use unlock_catalog_publisher.Signing.Candidate.Types.{
  CandidateError, manifest_payload_name, signing_request_name, object_path_invalid, item_is_symlink,
  directory_mode, unknown_directory, item_not_regular, unknown_file, repeated_file, missing_file,
  out_of_fuel,
}
use unlock_catalog_publisher.Signing.Candidate.Reading.{mode_directory, valid_candidate_file_mode}

abbrev pub valid_part : Bytes → Bool
valid_part part = not (part == []) && not (part == codes ".") && not (part == codes "..")

unfoldable pub valid_relative_path : Bytes → Bool
valid_relative_path value =
    not (value == [] || any (λ c. eqb c b'\\') value || is_abs value || not (clean value == value))
    && all valid_part (split value)

-- The loop over the objects; it writes `expectedFiles` and `expectedDirectories`. The walk over the parents
-- has as much fuel as it can need.
unfoldable pub expect_object :
    List Bytes × List Bytes → SigningObject → Result CandidateError (List Bytes × List Bytes)
expect_object (files, directories) object = do
  refuse (not (valid_relative_path object.path)) object_path_invalid
  parents ← or_fail (ancestors (length object.path + 1) object.path) out_of_fuel
  ok (files ++ object.path ∷ [], directories ++ parents)

abbrev pub document_names : List Bytes
document_names = manifest_payload_name ∷ signing_request_name ∷ []

-- The function that `WalkDir` calls for each entry below the root; it writes `seen`.
unfoldable pub visit :
    List Bytes → List Bytes → List Bytes → Bytes × Item → Result CandidateError (List Bytes)
visit files directories seen (relative, symlink) = err item_is_symlink
visit files directories seen (relative, folder mode) = do
  refuse (not (eqb mode mode_directory)) directory_mode
  refuse (not (contains relative directories)) unknown_directory
  ok seen
visit files directories seen (relative, item) = do
  refuse (not (valid_candidate_file_mode item)) item_not_regular
  refuse (not (contains relative files)) unknown_file
  refuse (contains relative seen) repeated_file
  ok (seen ++ relative ∷ [])

unfoldable pub validate_candidate_tree :
    Dict Item → List SigningObject → Result CandidateError (Unit {0})
validate_candidate_tree items objects = do
  (files, directories) ← for_each expect_object (document_names, []) objects
  seen ← for_each (visit files directories) [] items
  refuse (not (all (λ expected. contains expected seen) files)) missing_file
