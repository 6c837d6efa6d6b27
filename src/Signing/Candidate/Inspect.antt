-- ===== src/Signing/Candidate/Inspect.antt =====
-- `inspectCandidate` and `validateCandidateRoot` (internal/signing/candidate.go), and what
-- internal/signing/provider.go makes of it.
use unlock_catalog_publisher.Base.{
  not, ◌||◌, ◌==◌, List, Bytes, Option, eqb, length, Result, ok, ◌>>=◌, ◌>>◌, refuse, or_fail,
  false,
}
use unlock_catalog_publisher.Base.Int.{pos}
use unlock_catalog_publisher.Primitives.{Primitives, digest_bytes}
use unlock_catalog_publisher.Json.Walk.{Token}
use unlock_catalog_publisher.Catalog.Types.{Manifest, SigningRequest}
use unlock_catalog_publisher.Signing.Provider.{Inspection, PreparedCandidate}
use unlock_catalog_publisher.Signing.Candidate.Types.{
  CandidateError, CandidateDirectory, root_unopenable, root_not_directory, manifest_payload_name,
  signing_request_name, max_payload_bytes, max_request_bytes, decode_strict_json,
  manifest_unencodable, manifest_not_canonical, request_unencodable, request_not_canonical,
  directory_identity_mismatch,
}
use unlock_catalog_publisher.Signing.Candidate.Reading.{
  mode_directory, read_regular_file, validate_objects,
}
use unlock_catalog_publisher.Signing.Candidate.Request.{validate_request_and_policy}
use unlock_catalog_publisher.Signing.Candidate.Tree.{validate_candidate_tree}

-- `openNoSymlinks` of the candidate's path gives none when the path has a link or nothing is there.
unfoldable pub validate_candidate_root :
    Option CandidateDirectory → Result CandidateError CandidateDirectory
validate_candidate_root opened = do
  root ← or_fail opened root_unopenable
  refuse (not root.is_directory || not (eqb root.mode mode_directory)) root_not_directory
  ok root

-- The tokens of a document, the decoders, `catalogv1.CanonicalManifest` and `json.Marshal`.
pub record CandidateTools : Type 0 where
  pub tokens : Bytes → List Token
  pub decode_manifest : Bytes → Option Manifest
  pub decode_request : Bytes → Option SigningRequest
  pub canonical_manifest : Manifest → Option Bytes
  pub marshal_request : SigningRequest → Option Bytes

module _ (P : Primitives) (T : CandidateTools) where
  unfoldable pub inspect_candidate :
      Option CandidateDirectory → Result CandidateError PreparedCandidate
  inspect_candidate opened = do
    root ← validate_candidate_root opened
    payload ← read_regular_file root.items manifest_payload_name (pos max_payload_bytes) false
    request_bytes ← read_regular_file root.items signing_request_name (pos max_request_bytes) false
    manifest ← decode_strict_json T.tokens T.decode_manifest payload
    canonical_payload ← or_fail (T.canonical_manifest manifest) manifest_unencodable
    refuse (not (payload == canonical_payload)) manifest_not_canonical
    request ← decode_strict_json T.tokens T.decode_request request_bytes
    canonical_request ← or_fail (T.marshal_request request) request_unencodable
    refuse (not (request_bytes == canonical_request)) request_not_canonical
    refuse (not (root.name == request.source_id)) directory_identity_mismatch
    validate_request_and_policy P manifest request payload
    validate_candidate_tree root.items request.objects
    validate_objects P root.items request.objects
    ok (record {
      inspection = record {
        source_id = request.source_id;
        version = request.version;
        request_digest = digest_bytes P request_bytes;
        payload_sha256 = request.payload_sha256;
        object_count = length request.objects;
      };
      payload = payload;
    })

  -- `Inspect`
  unfoldable pub inspect : Option CandidateDirectory → Result CandidateError Inspection
  inspect opened = do candidate ← inspect_candidate opened; ok candidate.inspection
