-- ===== src/Cohort/Write.antt =====
-- `writeCandidate` (internal/cohort/builder.go): `os.MkdirAll` and `os.WriteFile` below a new directory, with a
-- umask that leaves 0755 and 0644 as they are. Writes that the operating system refuses are left out, but for
-- those that meet something of another kind.
use unlock_catalog_publisher.Base.{
  ◌+◌, List, [], ◌∷◌, Bytes, Dict, Option, none, some, length, lookup, insert, Result, ok, err,
  ◌>>=◌, or_fail, for_each,
}
use unlock_catalog_publisher.Base.Paths.Dir.{ancestors}
use unlock_catalog_publisher.Base.Items.{Item, folder, plain}
use unlock_catalog_publisher.Signing.Candidate.Types.{manifest_payload_name, signing_request_name}
use unlock_catalog_publisher.Signing.Candidate.Reading.{mode_file, mode_directory}
use unlock_catalog_publisher.Cohort.Types.{VerifiedObject, CohortError, path_taken, out_of_fuel}

unfoldable pub make_at : Option Item → Dict Item → Bytes → Result CohortError (Dict Item)
make_at none written directory = ok (insert directory (folder mode_directory) written)
make_at (some (folder mode)) written directory = ok written
make_at (some item) written directory = err path_taken

-- `os.MkdirAll`: the directories, the deepest first.
unfoldable pub mkdir_all : Dict Item → List Bytes → Result CohortError (Dict Item)
mkdir_all written [] = ok written
mkdir_all written (directory ∷ above) =
    mkdir_all written above >>= λ made. make_at (lookup directory made) made directory

unfoldable pub put_at : Option Item → Dict Item → Bytes → Bytes → Result CohortError (Dict Item)
put_at none written path content = ok (insert path (plain mode_file content) written)
put_at (some (plain mode old)) written path content = ok (insert path (plain mode content) written)
put_at (some item) written path content = err path_taken

-- `os.WriteFile`
unfoldable pub write_file : Dict Item → Bytes → Bytes → Result CohortError (Dict Item)
write_file written path content = put_at (lookup path written) written path content

-- The body of the loop.
unfoldable pub write_object : Dict Item → VerifiedObject → Result CohortError (Dict Item)
write_object written object = do
  let path = object.descriptor.path
  parents ← or_fail (ancestors (length path + 1) path) out_of_fuel
  made ← mkdir_all written parents
  write_file made path object.content

unfoldable pub write_candidate :
    Bytes → Bytes → List VerifiedObject → Result CohortError (Dict Item)
write_candidate payload request objects = do
  with_payload ← write_file [] manifest_payload_name payload
  with_request ← write_file with_payload signing_request_name request
  for_each write_object with_request objects
