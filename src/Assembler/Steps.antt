-- ===== src/Assembler/Steps.antt =====
-- `Assemble`, `verifyCandidateReadback`, `verifyObjectReadback` and `writeFile`
-- (internal/assemble/assembler.go). The candidate's directory, the JSON of each type, the inspection of
-- the candidate and the building of the package are parameters; writes that the operating system
-- refuses are left out.
use unlock_catalog_publisher.Base.{
  ℕ, zero, suc, ◌+◌, ◌/◌, ◌%◌, Bool, false, not, ◌&&◌, ◌||◌, List, [], ◌∷◌, ◌++◌, Bytes, Dict,
  Option, codes, eqb, length, insert, Result, ok, ◌>>=◌, ◌>>◌, refuse, or_fail, wrap, for_each,
  ◌==◌, if◌then◌else◌,
}
use unlock_catalog_publisher.Base.Int.{pos, int_eq}
use unlock_catalog_publisher.Base.Paths.{clean, is_abs}
use unlock_catalog_publisher.Time.{Time, is_zero, equal}
use unlock_catalog_publisher.Primitives.{Primitives, digest_bytes}
use unlock_catalog_publisher.Catalog.Types.{
  Manifest, SigningRequest, SigningObject, Permission, Revocation,
}
use unlock_catalog_publisher.Signing.Provider.{Inspection}
use unlock_catalog_publisher.Trust.Types.{Fragment, TrustRoot, SignedRoot, TrustError, BridgeError}
use unlock_catalog_publisher.Trust.Threshold.{verify_threshold}
use unlock_catalog_publisher.Trust.Bridge.{sorted_signatures, verify_signed_root}
use unlock_catalog_publisher.History.Revocations.{HistoryError, validate_revocation_history}
use unlock_catalog_publisher.History.Permissions.{permission_sets_equal}
use unlock_catalog_publisher.History.Forward.{SignedManifest}

pub record Options : Type 0 where
  pub candidate_dir : Bytes
  pub output_dir : Bytes
  pub expected_source_id : Bytes
  pub granted_permissions : List Permission
  pub current_root : TrustRoot
  pub published_root : SignedRoot
  pub prior_revocations : List Revocation
  pub now : Time

-- `packagefile.BuildOptions`, without the paths.
pub record BuildOptions : Type 0 where
  pub source_id : Bytes
  pub manifest_digest : Bytes
  pub manifest_envelope_sha256 : Bytes
  pub root_version : ℕ
  pub files : Dict Bytes

pub data AssembleError : Type 0 where
  options_required output_exists preflight_failed unreadable request_changed payload_changed :
      AssembleError
  request_undecodable manifest_undecodable source_mismatch permission_mismatch : AssembleError
  payload_digest_mismatch metadata_differs manifest_unencodable root_unencodable : AssembleError
  unsafe_release_path object_changed package_failed : AssembleError
  revocation_history : HistoryError → AssembleError
  published_root_invalid : BridgeError → AssembleError
  current_manifest_root next_manifest_root : TrustError → AssembleError

pub record Tools : Type 0 where
  -- `os.Lstat` finds the path.
  pub exists : Bytes → Bool
  -- `signing.Inspect`
  pub inspect : Bytes → Option Inspection
  -- `os.ReadFile` of a path below a directory.
  pub read_file : Bytes → Bytes → Option Bytes
  pub decode_request : Bytes → Option SigningRequest
  pub decode_manifest : Bytes → Option Manifest
  pub marshal_root : TrustRoot → Option Bytes
  pub marshal_signed_root : SignedRoot → Option Bytes
  pub marshal_signed_manifest : SignedManifest → Option Bytes
  pub build_package : BuildOptions → Option Bytes

-- `bytes.Contains(relative, "../")`
unfoldable pub climbs : Bytes → Bool
climbs [] = false
climbs (a ∷ []) = false
climbs (a ∷ b ∷ []) = false
climbs (a ∷ b ∷ c ∷ s) = (eqb a b'.' && eqb b b'.' && eqb c b'/') || climbs (b ∷ c ∷ s)

-- `writeFile` into the staging directory, by relative path.
unfoldable pub write_release_file : Dict Bytes → Bytes → Bytes → Result AssembleError (Dict Bytes)
write_release_file staging relative content = do
  let cleaned = clean relative
  refuse (cleaned == codes "." || is_abs cleaned || not (cleaned == relative) || climbs relative)
      unsafe_release_path
  ok (insert relative content staging)

-- The last `n` decimal digits: `fmt.Sprintf("%020d", …)` of a `uint64` with `n = 20`.
unfoldable pub padded : ℕ → ℕ → Bytes
padded zero v = []
padded (suc n) v = padded n (v / 10) ++ (b'0' + v % 10) ∷ []

abbrev pub package_file_name : Bytes
package_file_name = codes "unlock-catalog-package-v1.tar.zst"

module _ (P : Primitives) (T : Tools) where
  unfoldable pub verify_candidate_readback :
      Inspection → Bytes → Bytes → Result AssembleError (Unit {0})
  verify_candidate_readback inspection request_bytes payload = do
    refuse (not (digest_bytes P request_bytes == inspection.request_digest)) request_changed
    refuse (not (digest_bytes P payload == inspection.payload_sha256)) payload_changed

  unfoldable pub verify_object_readback : SigningObject → Bytes → Result AssembleError (Unit {0})
  verify_object_readback object content =
      refuse
        (not (int_eq (pos (length content)) object.length)
          || not (digest_bytes P content == object.sha256))
        object_changed

  -- The loop over the objects; it writes `expected` and the staging directory.
  unfoldable pub copy_object :
      Bytes
      → Dict Bytes × Dict Bytes
      → SigningObject
      → Result AssembleError (Dict Bytes × Dict Bytes)
  copy_object candidate_dir (expected, staging) object = do
    content ← or_fail (T.read_file candidate_dir object.path) unreadable
    verify_object_readback object content
    staging' ← write_release_file staging object.path content
    ok (insert object.path content expected, staging')

  -- The checks of the candidate against the options; the manifest, the request and the payload.
  unfoldable pub check_candidate :
      Options → Inspection → Result AssembleError (Manifest × SigningRequest × Bytes)
  check_candidate options inspection = do
    payload ← or_fail (T.read_file options.candidate_dir (codes "manifest.payload.json")) unreadable
    request_bytes ←
        or_fail (T.read_file options.candidate_dir (codes "signing-request.json")) unreadable
    verify_candidate_readback inspection request_bytes payload
    request ← or_fail (T.decode_request request_bytes) request_undecodable
    manifest ← or_fail (T.decode_manifest payload) manifest_undecodable
    refuse
        (not (request.source_id == options.expected_source_id)
          || not (manifest.source_id == options.expected_source_id))
        source_mismatch
    refuse (not (permission_sets_equal request.permissions options.granted_permissions))
        permission_mismatch
    refuse
        (not (request.payload_sha256 == digest_bytes P payload)
          || not (request.payload_sha256 == inspection.payload_sha256))
        payload_digest_mismatch
    refuse
        (not (eqb manifest.version request.version)
          || not (equal manifest.published_at request.published_at)
          || not (equal manifest.expires_at request.expires_at))
        metadata_differs
    ok (manifest, request, payload)

  -- The checks of the revocations, of the published root and of the signatures by both roots.
  unfoldable pub check_trust :
      Options → Inspection → List Fragment → Manifest → Bytes → Result AssembleError (Unit {0})
  check_trust options inspection fragments manifest payload = do
    wrap revocation_history
        (validate_revocation_history manifest.revocations options.prior_revocations)
    let now = if is_zero options.now then manifest.published_at else options.now
    wrap published_root_invalid
        (verify_signed_root P T.marshal_root options.current_root options.published_root now)
    wrap current_manifest_root
        (verify_threshold P payload inspection.request_digest fragments options.current_root)
    wrap next_manifest_root (
        verify_threshold P payload inspection.request_digest fragments
          options.published_root.signed)

  -- The files of the release directory.
  unfoldable pub write_release :
      Options → Manifest → SigningRequest → Bytes → Bytes → Result AssembleError (Dict Bytes)
  write_release options manifest request manifest_bytes root_bytes = do
    with_manifest ← write_release_file [] (codes "manifest.json") manifest_bytes
    with_root ← write_release_file with_manifest (codes "root.json") root_bytes
    (expected, with_objects) ←
        for_each (copy_object options.candidate_dir)
          (
            (codes "manifest.json", manifest_bytes) ∷ (codes "root.json", root_bytes) ∷ [],
            with_root,
          )
          request.objects
    built ←
        or_fail
          (T.build_package (record {
            source_id = manifest.source_id;
            manifest_digest = request.payload_sha256;
            manifest_envelope_sha256 = digest_bytes P manifest_bytes;
            root_version = options.published_root.signed.version;
            files = expected;
          }))
          package_failed
    let with_package = insert package_file_name built with_objects
    let archive = codes "archive/" ++ padded 20 manifest.version
    with_archive ←
        write_release_file with_package (archive ++ codes "/manifest.json") manifest_bytes
    write_release_file with_archive (archive ++ codes "/root.json") root_bytes

  unfoldable pub assemble : Options → List Fragment → Result AssembleError (Dict Bytes)
  assemble options fragments = do
    refuse
        (options.candidate_dir == []
          || options.output_dir == []
          || options.expected_source_id == [])
        options_required
    refuse (T.exists options.output_dir) output_exists
    inspection ← or_fail (T.inspect options.candidate_dir) preflight_failed
    (manifest, request, payload) ← check_candidate options inspection
    check_trust options inspection fragments manifest payload
    let signed_manifest : SignedManifest = record {
      signed = manifest;
      signatures = sorted_signatures fragments;
    }
    manifest_bytes ← or_fail (T.marshal_signed_manifest signed_manifest) manifest_unencodable
    root_bytes ← or_fail (T.marshal_signed_root options.published_root) root_unencodable
    write_release options manifest request manifest_bytes root_bytes
