-- ===== src/Signing/Candidate/Types.antt =====
-- The errors, the limits and the strict decoding of internal/signing/candidate.go and request.go.
use unlock_catalog_publisher.Base.{
  ℕ, Bool, List, Bytes, Dict, Option, codes, eqb, length, Result, ◌>>◌, refuse, or_fail, wrap,
}
use unlock_catalog_publisher.Base.Items.{Item}
use unlock_catalog_publisher.Json.Walk.{Token, JsonError, reject_duplicate_json_fields}
use unlock_catalog_publisher.Policy.Types.{PolicyError}

-- `out_of_fuel` has no counterpart in the program.
pub data CandidateError : Type 0 where
  root_unopenable root_not_directory : CandidateError
  file_unopenable file_not_regular invalid_maximum file_too_long file_length_mismatch :
      CandidateError
  empty_document undecodable : CandidateError
  repeated_member : JsonError → CandidateError
  manifest_unencodable manifest_not_canonical request_unencodable request_not_canonical :
      CandidateError
  directory_identity_mismatch manifest_schema_mismatch request_schema_mismatch : CandidateError
  source_or_validity_mismatch validity_not_utc_seconds payload_digest_mismatch : CandidateError
  validity_not_positive : CandidateError
  candidate_policy : PolicyError → CandidateError
  object_count_mismatch object_mismatch objects_not_sorted object_path_invalid : CandidateError
  item_is_symlink directory_mode unknown_directory item_not_regular unknown_file : CandidateError
  repeated_file missing_file object_length_mismatch object_digest_mismatch : CandidateError
  out_of_fuel : CandidateError

abbrev pub manifest_payload_name : Bytes
manifest_payload_name = codes "manifest.payload.json"

abbrev pub signing_request_name : Bytes
signing_request_name = codes "signing-request.json"

-- `4 << 20` and `1 << 20`.
abbrev pub max_payload_bytes : ℕ
max_payload_bytes = 4194304

abbrev pub max_request_bytes : ℕ
max_request_bytes = 1048576

-- The candidate's directory: the last element of its absolute path, whether it is a directory, its
-- permission bits, and what is below it. Nothing is changed while it is inspected.
pub record CandidateDirectory : Type 0 where
  pub name : Bytes
  pub is_directory : Bool
  pub mode : ℕ
  pub items : Dict Item

-- `rejectDuplicateJSONMembers`: `consumeJSONValue` is `walkJSONValue` of the package, and `ensureJSONEOF`
-- refuses what follows the value.
unfoldable pub reject_duplicate_json_members : List Token → Result CandidateError (Unit {0})
reject_duplicate_json_members tokens = wrap repeated_member (reject_duplicate_json_fields tokens)

-- `decodeStrictJSON`. The tokens of the content, and the decoder that refuses unknown fields and what follows
-- the document, are parameters.
unfoldable pub decode_strict_json {ℓ} :
    {A : Type ℓ} → (Bytes → List Token) → (Bytes → Option A) → Bytes → Result CandidateError A
decode_strict_json tokens decode content = do
  refuse (eqb (length content) 0) empty_document
  reject_duplicate_json_members (tokens content)
  or_fail (decode content) undecodable
