-- ===== src/Cohort/Tests.antt =====
-- A source with one artifact, and the candidate that is built of it.
use unlock_catalog_publisher.Base.{
  ◌≡◌, refl, true, false, [], ◌∷◌, ◌++◌, Bytes, Dict, some, ok, err, codes, ◌>>=◌, ◌>>◌, for_each,
  ◌==◌, lookup, contains, insert,
}
use unlock_catalog_publisher.Base.Sort.{sort_by}
use unlock_catalog_publisher.Base.Items.{Item, plain}
use unlock_catalog_publisher.Base.Paths.{base, clean, split, join_path}
use unlock_catalog_publisher.Base.Paths.Dir.{ancestors, dir}
use unlock_catalog_publisher.Base.Patterns.{hex_encode}
use unlock_catalog_publisher.Primitives.{digest_bytes}
use unlock_catalog_publisher.Policy.Validate.{data_source_id}
use unlock_catalog_publisher.Policy.Tests.{published, rules, zeros, published-accepted}
use unlock_catalog_publisher.Signing.Candidate.Tests.{flat, epoch, ten_bytes, folders}
use unlock_catalog_publisher.Cohort.Types.{
  Candidate, SourceDirectory, is_data_file, undeclared_file, path_taken,
}
use unlock_catalog_publisher.Cohort.Sources.{
  allow_artifact, visit_source, validate_source_tree, read_object,
}
use unlock_catalog_publisher.Cohort.Write.{
  make_at, mkdir_all, put_at, write_file, write_object, write_candidate,
}
use unlock_catalog_publisher.Cohort.Build.{
  BuildTools, signing_object, signing_request, read_source, build_candidate,
}
use unlock_catalog_publisher.Cohort.Accepted.{IsAccepted, build_candidate-IsAccepted}

abbrev sources : Dict Item
sources =
    folders
    ++ (rules.path, plain 420 ten_bytes) ∷ (codes "source.yaml", plain 420 (codes "source")) ∷ []

abbrev root : SourceDirectory
root = record { is_directory = true; items = sources }

abbrev tools : BuildTools
tools = record {
  decode_source = λ content. some published;
  canonical_manifest = λ manifest. some (codes "manifest");
  marshal_request = λ request. some (codes "request");
  exists = λ path. false;
}

abbrev source_file : Bytes
source_file = codes "/catalog/" ++ data_source_id ++ codes "/source.yaml"

abbrev candidate : Candidate
candidate = record {
  source_id = data_source_id;
  directory = codes "out/" ++ data_source_id;
  payload_sha256 = zeros 64;
}

abbrev written : Dict Item
written =
    (codes "manifest.payload.json", plain 420 (codes "manifest"))
      ∷ (codes "signing-request.json", plain 420 (codes "request"))
      ∷ folders
    ++ (rules.path, plain 420 ten_bytes) ∷ []

tree_accepted : validate_source_tree root published.artifacts ≡ ok tt
unfolding ◌>>=◌ ◌>>◌ for_each ◌==◌ contains split clean dir ancestors is_data_file allow_artifact
    visit_source validate_source_tree
tree_accepted = refl

undeclared_refused :
    validate_source_tree
      (record root { items = (codes "notes", plain 420 []) ∷ sources })
      published.artifacts
    ≡ err undeclared_file
unfolding ◌>>=◌ ◌>>◌ for_each ◌==◌ contains split clean dir ancestors is_data_file allow_artifact
    visit_source validate_source_tree
undeclared_refused = refl

file_blocks_directory : mkdir_all ((codes "a", plain 420 []) ∷ []) (codes "a" ∷ []) ≡ err path_taken
unfolding ◌>>=◌ ◌==◌ lookup mkdir_all make_at
file_blocks_directory = refl

candidate_built :
    build_candidate flat tools root source_file (codes "out") epoch ≡ ok (candidate, written)
unfolding ◌>>=◌ ◌>>◌ for_each ◌==◌ lookup insert split clean dir base join_path ancestors
    is_data_file hex_encode digest_bytes sort_by read_object read_source signing_object
    signing_request put_at make_at mkdir_all write_file write_object write_candidate build_candidate
candidate_built = rw (tree_accepted, published-accepted (dir source_file) refl) refl

build_candidate-IsAccepted_example :
    IsAccepted flat tools root source_file (codes "out") epoch candidate written
build_candidate-IsAccepted_example =
    build_candidate-IsAccepted flat tools root source_file (codes "out") epoch candidate written
      candidate_built
