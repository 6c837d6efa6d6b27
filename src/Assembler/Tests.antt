-- ===== src/Assembler/Tests.antt =====
-- A candidate with one object, assembled under a new root.
use unlock_catalog_publisher.Base.{
  ◌≡◌, refl, false, [], ◌∷◌, Bytes, Dict, none, some, ok, codes, all, ◌>>=◌, ◌>>◌, for_each, ◌==◌,
  less, lookup, contains, has_key, insert,
}
use unlock_catalog_publisher.Base.Int.{pos}
use unlock_catalog_publisher.Base.Paths.{clean, is_abs}
use unlock_catalog_publisher.Base.Patterns.{id_pattern, digest_pattern, is_hex, hex_encode}
use unlock_catalog_publisher.Base.Sort.{sort_by}
use unlock_catalog_publisher.Primitives.{digest_bytes, decode_key, valid_signature, sized}
use unlock_catalog_publisher.Catalog.Types.{
  Manifest, SigningRequest, SigningObject, permission_metadata, permission_routing_data,
}
use unlock_catalog_publisher.Trust.Keys.{validate_root, validate_key}
use unlock_catalog_publisher.Trust.Threshold.{verify_threshold, check_fragment}
use unlock_catalog_publisher.Trust.Bridge.{
  assemble_signed_root, verify_signed_root, verify_bridge_fragments, sorted_signatures, shared_keys,
  copy_keys, merge_key, check_bridge_fragment, reflect_signatures_equal,
}
use unlock_catalog_publisher.Trust.Sample.{
  toy, day_one, far, old_root, marshal, assembled, both, digest,
}
use unlock_catalog_publisher.History.Revocations.{
  index_revocation, check_revocation, weakened, validate_revocation_history,
}
use unlock_catalog_publisher.History.Permissions.{permission_sets_equal, count_up, count_down}
use unlock_catalog_publisher.Assembler.Steps.{
  Options, Tools, climbs, write_release_file, padded, package_file_name, verify_candidate_readback,
  verify_object_readback, copy_object, check_candidate, check_trust, write_release, assemble,
}
use unlock_catalog_publisher.Assembler.Signed.{IsReleased, assemble-IsReleased}

abbrev manifest : Manifest
manifest = record {
  schema_version = pos 1;
  protocol = codes "unlock-catalog-v1";
  source_id = codes "demo";
  version = 7;
  published_at = day_one;
  expires_at = far;
  min_core_protocol = pos 1;
  max_core_protocol = pos 1;
  min_core_version = [];
  max_core_version = [];
  compatibility_epoch = pos 1;
  entries = [];
  artifacts = [];
  revocations = [];
}

abbrev object : SigningObject
object = record {
  artifact_id = codes "rules";
  path = codes "objects/rules";
  sha256 = digest;
  length = pos 3;
  permission = permission_metadata;
  platform = none;
}

abbrev request : SigningRequest
request = record {
  schema_version = pos 1;
  policy_version = [];
  source_id = codes "demo";
  version = 7;
  payload_sha256 = digest;
  published_at = day_one;
  expires_at = far;
  permissions = permission_metadata ∷ permission_routing_data ∷ [];
  cohort = record { os = codes "linux"; arch = codes "amd64"; abi = codes "static" };
  objects = object ∷ [];
}

abbrev tools : Tools
tools = record {
  exists = λ path. false;
  inspect = λ path. some (record {
    source_id = codes "demo";
    version = 7;
    request_digest = digest;
    payload_sha256 = digest;
    object_count = 1;
  });
  read_file = λ dir path. some (codes "abc");
  decode_request = λ content. some request;
  decode_manifest = λ content. some manifest;
  marshal_root = marshal;
  marshal_signed_root = λ root. some (codes "root");
  marshal_signed_manifest = λ m. some (codes "manifest");
  build_package = λ options. some (codes "package");
}

abbrev options : Options
options = record {
  candidate_dir = codes "/candidate";
  output_dir = codes "/release";
  expected_source_id = codes "demo";
  granted_permissions = permission_routing_data ∷ permission_metadata ∷ [];
  current_root = old_root;
  published_root = assembled;
  prior_revocations = [];
  now = record { instant = 0; offset = pos 0 };
}

abbrev files : Dict Bytes
files =
    (codes "manifest.json", codes "manifest")
    ∷ (codes "root.json", codes "root")
    ∷ (codes "objects/rules", codes "abc")
    ∷ (package_file_name, codes "package")
    ∷ (codes "archive/00000000000000000007/manifest.json", codes "manifest")
    ∷ (codes "archive/00000000000000000007/root.json", codes "root")
    ∷ []

assembles : assemble toy tools options both ≡ ok files
unfolding ◌>>=◌ ◌>>◌ for_each ◌==◌ less lookup contains has_key insert all clean is_abs id_pattern
    digest_pattern is_hex hex_encode sort_by digest_bytes decode_key valid_signature sized
    validate_root validate_key verify_threshold check_fragment assemble_signed_root
    verify_signed_root verify_bridge_fragments sorted_signatures shared_keys copy_keys merge_key
    check_bridge_fragment reflect_signatures_equal index_revocation check_revocation weakened
    validate_revocation_history permission_sets_equal count_up count_down climbs write_release_file
    padded verify_candidate_readback verify_object_readback copy_object check_candidate check_trust
    write_release assemble
assembles = refl

assemble-IsReleased_example : IsReleased toy tools options both files
assemble-IsReleased_example = assemble-IsReleased toy tools options both assembles
