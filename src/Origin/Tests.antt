-- ===== src/Origin/Tests.antt =====
-- An origin that serves the `README.md` of a repository without sources.
use unlock_catalog_publisher.Base.{
  take, ℕ, ◌≡◌, refl, true, false, ◌∷◌, [], ◌++◌, Bytes, Dict, ok, err, some, codes, ◌==◌, Option,
  insert, less, lookup, none, List, for_each, ◌>>=◌, ◌>>◌, all, any,
}
use unlock_catalog_publisher.Base.Patterns.{
  id_pattern, digest_pattern, is_hex, is_digit, hex_encode,
}
use unlock_catalog_publisher.Primitives.{digest_bytes}
use unlock_catalog_publisher.Policy.Artifact.{object_path}
use unlock_catalog_publisher.Release.Complete.{tally, tally_file, validate_complete_source_tree}
use unlock_catalog_publisher.Base.Paths.{join_path, clean, is_abs}
use unlock_catalog_publisher.Base.Sort.{sort_by}
use unlock_catalog_publisher.Release.Tests.{toy, published, contents}
use unlock_catalog_publisher.Release.Types.{mode_file, immutable}
use unlock_catalog_publisher.Release.Paths.{
  object_match, archive_path, root_path, package_path, classify_release_path, is_unsafe,
  strip_prefix,
}
use unlock_catalog_publisher.Release.Disk.{
  plain, Repository, repository, validate_repository_root, read_entry, read_item, read_source_tree,
  read_repository_sources,
}
use unlock_catalog_publisher.Origin.Types.{Url, Response, Sentinel, status_returned, OriginReport}
use unlock_catalog_publisher.Origin.Verify.{
  ends_in_slash, is_identity, add_files, add_sources, origin_targets, canonical_origin_base_url,
  check_response, compare_origin_file, compare_target, verify_origin,
}
use unlock_catalog_publisher.Origin.Served.{ServesTree, verify_origin-served}

abbrev host : Bytes
host = codes "https://c.test"

abbrev below : Bytes → Url
below path = record {
  scheme = codes "https";
  host = codes "c.test";
  has_user = false;
  opaque_part = [];
  raw_query = [];
  fragment = [];
  raw_path = [];
  path = path;
}

-- Parses the one URL, and prints every URL of its host.
abbrev parse_demo : Bytes → Option Url
parse_demo raw = some (below (codes "/"))

abbrev print_demo : Url → Bytes
print_demo url = host ++ url.path

abbrev answers : ℕ → Bytes → Option Response
answers status target = some (record {
  request_url = some target;
  status_code = status;
  content_encoding = codes "Identity";
  content_length = some 2;
  body = some (codes "hi");
})

abbrev empty_repository : Repository
empty_repository = repository (some ((codes "README.md", plain) ∷ []))

abbrev readme : Option Sentinel
readme = some (record { is_regular = true; mode = mode_file; content = codes "hi" })

abbrev raw_base : Bytes
raw_base = host ++ codes "/"

abbrev demo_report : OriginReport
demo_report = record { base_url = raw_base; source_count = 0; file_count = 1; file_bytes = 2 }

origin_is_accepted :
    verify_origin toy parse_demo print_demo
      (answers 200)
      true
      (codes "/r")
      empty_repository
      readme
      raw_base
    ≡ ok demo_report
unfolding ◌>>=◌ ◌>>◌ for_each ◌==◌ insert any clean is_abs sort_by is_unsafe strip_prefix
    validate_repository_root read_entry read_repository_sources take ends_in_slash is_identity
    origin_targets canonical_origin_base_url check_response compare_origin_file compare_target
    verify_origin
origin_is_accepted = refl

missing_is_refused :
    verify_origin toy parse_demo print_demo
      (answers 404)
      true
      (codes "/r")
      empty_repository
      readme
      raw_base
    ≡ err status_returned
unfolding ◌>>=◌ ◌>>◌ for_each ◌==◌ insert any clean is_abs sort_by is_unsafe strip_prefix
    validate_repository_root read_entry read_repository_sources take ends_in_slash is_identity
    origin_targets canonical_origin_base_url check_response compare_origin_file compare_target
    verify_origin
missing_is_refused = refl

paths_are_joined : join_path (codes "demo") (codes "root.json") ≡ codes "demo/root.json"
unfolding join_path clean ◌==◌
paths_are_joined = refl

-- The paths below the host of the first version, and what is served there.
abbrev hosted : List (Bytes × Bytes) → Dict Bytes
hosted [] = []
hosted ((path, body) ∷ rest) = (host ++ codes "/demo/" ++ path, body) ∷ hosted rest

abbrev respond : Bytes → Option Bytes → Option Response
respond target none = none
respond target (some body) = some (record {
  request_url = some target;
  status_code = 200;
  content_encoding = [];
  content_length = none;
  body = some body;
})

abbrev serve : Bytes → Option Response
serve target = respond target (lookup target (hosted (contents b'1')))

abbrev served_report : OriginReport
served_report = record { base_url = raw_base; source_count = 1; file_count = 6; file_bytes = 7 }

source_is_served :
    verify_origin toy parse_demo print_demo serve true (codes "/r") published none raw_base
    ≡ ok served_report
unfolding ◌>>=◌ ◌>>◌ for_each ◌==◌ lookup insert all any is_hex is_digit digest_pattern id_pattern
    hex_encode digest_bytes object_match object_path archive_path root_path package_path
    classify_release_path read_item read_source_tree validate_complete_source_tree tally tally_file
    immutable clean is_abs join_path sort_by less is_unsafe strip_prefix validate_repository_root
    read_entry read_repository_sources take ends_in_slash is_identity add_files add_sources
    origin_targets canonical_origin_base_url check_response compare_origin_file compare_target
    verify_origin
source_is_served = refl

verify_origin-served_example :
    ServesTree toy parse_demo print_demo serve (codes "/r") published none raw_base served_report
verify_origin-served_example =
    verify_origin-served toy parse_demo print_demo serve true (codes "/r") published none raw_base
      source_is_served
