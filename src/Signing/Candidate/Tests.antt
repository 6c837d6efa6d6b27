-- ===== src/Signing/Candidate/Tests.antt =====
-- A candidate with one object, with documents that the toy JSON takes for themselves.
use unlock_catalog_publisher.Base.{
  ℕ, zero, suc, ◌*◌, ◌≡◌, ◌↔◌, refl, true, false, [], ◌∷◌, ◌++◌, Bytes, Dict, none, some, ok, err,
  codes, all, any, ◌>>=◌, ◌>>◌, for_each, ◌==◌, lookup, contains, take,
}
use unlock_catalog_publisher.Base.Int.{pos}
use unlock_catalog_publisher.Base.Items.{Item, folder, plain, symlink}
use unlock_catalog_publisher.Base.Paths.{base, clean, is_abs, split}
use unlock_catalog_publisher.Base.Paths.Dir.{ancestors, dir}
use unlock_catalog_publisher.Base.Patterns.{hex_encode}
use unlock_catalog_publisher.Time.{Time, second}
use unlock_catalog_publisher.Primitives.{Primitives, digest_bytes}
use unlock_catalog_publisher.Json.Walk.{scalar, walk_value, at_end, reject_duplicate_json_fields}
use unlock_catalog_publisher.Catalog.Types.{Manifest, SigningRequest, SigningObject}
use unlock_catalog_publisher.Catalog.Normalize.{manifest_from_source}
use unlock_catalog_publisher.Policy.Validate.{
  policy_version, data_source_id, data_permissions, linux_static,
}
use unlock_catalog_publisher.Policy.Tests.{published, rules, zeros, published-accepted}
use unlock_catalog_publisher.Signing.Provider.{PreparedCandidate}
use unlock_catalog_publisher.Signing.Candidate.Types.{
  CandidateDirectory, decode_strict_json, reject_duplicate_json_members, repeated_file,
  item_is_symlink, file_too_long,
}
use unlock_catalog_publisher.Signing.Candidate.Reading.{
  valid_candidate_file_mode, read_regular_file, validate_object, validate_objects,
}
use unlock_catalog_publisher.Signing.Candidate.Request.{
  is_utc_second, equal_platform, describes, match_objects, source_of, validate_request_and_policy,
  candidate_path,
}
use unlock_catalog_publisher.Signing.Candidate.Tree.{
  valid_relative_path, expect_object, visit, validate_candidate_tree,
}
use unlock_catalog_publisher.Signing.Candidate.Inspect.{
  CandidateTools, validate_candidate_root, inspect_candidate,
}
use unlock_catalog_publisher.Signing.Candidate.Exact.{IsExact, validate_candidate_tree_iff}
use unlock_catalog_publisher.Signing.Candidate.Holds.{IsInspected, inspect_candidate-IsInspected}

-- SHA-256 with sums that are all alike.
abbrev nulls : ℕ → Bytes
nulls zero = []
nulls (suc n) = 0 ∷ nulls n

abbrev pub flat : Primitives
flat = record {
  sha256 = λ content. nulls 32;
  ed25519_verify = λ key message signature. true;
  base64_decode = λ encoded. some encoded;
}

abbrev pub epoch : Time
epoch = record { instant = 5 * second; offset = pos 0 }

abbrev manifest : Manifest
manifest = manifest_from_source published epoch

abbrev pub object : SigningObject
object = record {
  artifact_id = rules.artifact_id;
  path = rules.path;
  sha256 = rules.sha256;
  length = rules.length;
  permission = rules.permission;
  platform = none;
}

abbrev request : SigningRequest
request = record {
  schema_version = pos 1;
  policy_version = policy_version;
  source_id = data_source_id;
  version = 3;
  payload_sha256 = zeros 64;
  published_at = epoch;
  expires_at = record { instant = 86405 * second; offset = pos 0 };
  permissions = data_permissions;
  cohort = linux_static;
  objects = object ∷ [];
}

abbrev pub ten_bytes : Bytes
ten_bytes = codes "0123456789"

abbrev pub folders : Dict Item
folders =
    (codes "objects", folder 493)
    ∷ (codes "objects/sha256", folder 493)
    ∷ (codes "objects/sha256/00", folder 493)
    ∷ []

abbrev items : Dict Item
items =
    (codes "manifest.payload.json", plain 420 (codes "manifest")) ∷ folders
    ++ (rules.path, plain 420 ten_bytes)
      ∷ (codes "signing-request.json", plain 420 (codes "request"))
      ∷ []

abbrev root : CandidateDirectory
root = record { name = data_source_id; is_directory = true; mode = 493; items = items }

abbrev tools : CandidateTools
tools = record {
  tokens = λ content. scalar ∷ [];
  decode_manifest = λ content. some manifest;
  decode_request = λ content. some request;
  canonical_manifest = λ m. some (codes "manifest");
  marshal_request = λ r. some (codes "request");
}

abbrev prepared : PreparedCandidate
prepared = record {
  inspection = record {
    source_id = data_source_id;
    version = 3;
    request_digest = zeros 64;
    payload_sha256 = zeros 64;
    object_count = 1;
  };
  payload = codes "manifest";
}

tree_accepted : validate_candidate_tree items (object ∷ []) ≡ ok tt
unfolding ◌>>=◌ ◌>>◌ for_each all any ◌==◌ contains split is_abs clean dir ancestors
    valid_candidate_file_mode valid_relative_path expect_object visit validate_candidate_tree
tree_accepted = refl

objects_accepted : validate_objects flat items (object ∷ []) ≡ ok tt
unfolding ◌>>=◌ ◌>>◌ for_each ◌==◌ lookup take hex_encode digest_bytes valid_candidate_file_mode
    read_regular_file validate_object validate_objects
objects_accepted = refl

request_accepted : validate_request_and_policy flat manifest request (codes "manifest") ≡ ok tt
unfolding ◌>>=◌ ◌>>◌ ◌==◌ base clean hex_encode digest_bytes is_utc_second equal_platform describes
    match_objects source_of manifest_from_source validate_request_and_policy
request_accepted = rw (published-accepted (candidate_path data_source_id) refl) refl

candidate_accepted : inspect_candidate flat tools (some root) ≡ ok prepared
unfolding ◌>>=◌ ◌>>◌ ◌==◌ lookup take hex_encode digest_bytes valid_candidate_file_mode
    read_regular_file walk_value at_end reject_duplicate_json_fields reject_duplicate_json_members
    decode_strict_json validate_candidate_root inspect_candidate
candidate_accepted = rw (request_accepted, tree_accepted, objects_accepted) refl

doubled_refused :
    validate_candidate_tree (items ++ (rules.path, plain 420 ten_bytes) ∷ []) (object ∷ [])
    ≡ err repeated_file
unfolding ◌>>=◌ ◌>>◌ for_each all any ◌==◌ contains split is_abs clean dir ancestors
    valid_candidate_file_mode valid_relative_path expect_object visit validate_candidate_tree
doubled_refused = refl

link_refused :
    validate_candidate_tree ((codes "link", symlink) ∷ items) (object ∷ []) ≡ err item_is_symlink
unfolding ◌>>=◌ ◌>>◌ for_each all any ◌==◌ contains split is_abs clean dir ancestors
    valid_candidate_file_mode valid_relative_path expect_object visit validate_candidate_tree
link_refused = refl

longer_refused : read_regular_file items rules.path (pos 9) true ≡ err file_too_long
unfolding ◌>>=◌ ◌>>◌ ◌==◌ lookup take valid_candidate_file_mode read_regular_file
longer_refused = refl

dots_are_invalid : valid_relative_path (codes "objects/../a") ≡ false
unfolding all any ◌==◌ split is_abs clean valid_relative_path
dots_are_invalid = refl

validate_candidate_tree_iff_example :
    (validate_candidate_tree items (object ∷ []) ≡ ok tt) ↔ IsExact items (object ∷ [])
validate_candidate_tree_iff_example = validate_candidate_tree_iff items (object ∷ [])

inspect_candidate-IsInspected_example : IsInspected flat tools root prepared
inspect_candidate-IsInspected_example =
    inspect_candidate-IsInspected flat tools root prepared candidate_accepted
