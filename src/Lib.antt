-- ===== src/Lib.antt =====
-- A model of the catalog publisher, the programs that check the sources of a catalog, sign and assemble
-- their releases, and publish them in a Git tree, with the theorems that make its core correct.
--
-- The parts, in the order in which a release goes through them:
--
-- * Catalog (internal/catalogv1/types.go). `Types` has a record for each struct, field by field;
--   `Normalize` has `normalizeManifest` as `normalize_copy`, after the copy by JSON, and
--   `ManifestFromSource` as `manifest_from_source`. `Canonical` and `Ordered` have the proofs.
-- * Policy (internal/policy/validate.go). `Validate` is `validate`: `Entry` has `validateEntry`,
--   `Artifact` has `validateArtifact`, `References` has `validateReferences`, `Revocations` has
--   `validateRevocations`, and each loop is a function that takes and returns the variables that the
--   loop writes. `Writers`, `Components`, `Contained` and `Resolved` have the proofs.
-- * Cohort (internal/cohort/builder.go): the candidate of a source, as it is written for the signer.
--   `Sources` has `validateSourceTree` and the reading of the objects, `Write` has `writeCandidate`, and
--   `Build` has `BuildCandidate`. `ObjectPaths`, `Objects`, `Layout`, `Written`, `Checked`, `Published` and `Accepted`
--   have the proofs; they bring the builder together with the checks of Signing.
-- * Signing (internal/signing). The modules below `Candidate` have the inspection of a candidate
--   (candidate.go): `Reading` has `readRegularFile` and `validateObjects`, `Request` has
--   `validateRequestAndPolicy`, `Tree` has `validateCandidateTree` and `Inspect` has `inspectCandidate`;
--   `Visited`, `Exact`, `Held` and `Holds` have the proofs. `Provider` has `Sign` and `Fragments` has
--   `ValidateFragmentSet` (provider.go), and `FileProvider` has the encrypted key, which is open until
--   `Close` (file_provider.go).
-- * Trust (internal/assemble/root.go). `Keys` has `validateRoot`, `Threshold` has `VerifyThreshold`, and
--   `Bridge` has `AssembleSignedRoot`, `verifyBridgeFragments` and `verifySignedRoot`. The modules below
--   `Threshold` and `Bridge` have the proofs.
-- * History (internal/assemble/assembler.go and cmd/catalog-publisher/materialize.go): what may change
--   between two releases of a source. `Revocations` has `validateRevocationHistory` and
--   `verifyRevocationsForward`, `Permissions` has `permissionSetsEqual`, and `Forward` has
--   `verifyForwardOnly` and `verifySignedBytes`. `Order`, `Multiset` and `Advance` have the proofs.
-- * Assembler (internal/assemble/assembler.go). `Steps` has `Assemble`, which takes its checks from Trust
--   and History and writes the files of a release; `Signed` has the proofs.
-- * Release (internal/repository/tree.go): the tree of published releases. `Paths` has the patterns and
--   `classifyReleasePath`, `Complete` and `Validate` the checks of a release, `Disk` the reading and
--   writing of trees, `Materialize` has `MaterializeRelease`, `Replace` has `replaceSourceTree`, `Diff`
--   has `VerifyReleaseDiff`, and `Changes` has `ValidateReleaseChangePaths`. `Append`, `Reading`,
--   `Succession`, `History`, `Unmixed`, `Addressed`, `Shapes` and `Joined` have the proofs.
-- * `Mirror` (internal/repository/mirror.go): the public copy of the published releases. `Compare` has
--   `compareMirrorTrees`, `ensureMirrorImmutablesUnchanged` and `VerifyPublicMirror`, `Install` has
--   `installMirrorPrefix`, and `Exact` and `Public` the proofs.
-- * `Origin` (internal/repository/origin.go): the comparison of the files that a web server offers with
--   the protected tree. `Verify` has `VerifyOrigin` and the functions that it calls but `originClient`,
--   and `Delivered`, `Targets` and `Served` the proofs.
-- * Package (internal/package/package.go): the offline package of a release. `Paths` has
--   `validateRepositoryMemberPath`, `Metadata` has `metadataForOptions`, `validateMetadata` and
--   `compareMetadata`, `Archive` has `parseArchive`, `Verify` has `VerifyPackage` and `Build` has
--   `BuildPackage`. `Table`, `Bounds`, `Exact`, `Canonical`, `Written` and `RoundTrip` have the proofs.
-- * Json (internal/package/package.go and internal/signing/candidate.go): the search of a document for
--   doubled fields. `Walk` has `rejectDuplicateJSONFields` on the tokens of a decoder, `Values` says what
--   it is to find out, and `Unique`, `Complete` and `Ends` have the proofs.
--
-- `Base` has the shared types and lemmas, `Time` the times of Go, and `Primitives` what is taken from
-- the cryptographic libraries.
--
-- How the code is rendered:
--
-- * A string or a byte slice is a list of bytes, `Bytes`, and a literal is `codes "…"`. A `uint64` is a
--   natural number, and an `int` or `int64` an integer, or a natural number where it only counts
--   up from 0; the code only compares and counts them, and no count comes near their bounds. Go maps are
--   association lists, whose order stands for the order in which `range` visits a map, which Go leaves
--   open; sets are lists of keys.
-- * A function that returns an error returns a `Result` of the component's type of errors, with a
--   constructor for each message; an error that wraps another holds it. `refuse` is a test that returns
--   an error. A loop is `for_each` over the variables that its body writes, and ends with its list, so
--   that no fuel is needed. Two walks take fuel: that over JSON tokens, two calls for each token, which never
--   runs out (`Json/Ends`), and that from a path up to the root of its tree, a call for each byte of the
--   path and one more, which is enough for a path of names (`ancestors-names` of `Base/Paths/Dir`).
-- * SHA-256, Ed25519 verification and base64 are the fields of `Primitives`; JSON, age, tar and
--   zstd, URLs and the requests of an HTTP client are arguments of the
--   functions that use them. A theorem that needs a law of one of them has it as a hypothesis.
-- * A directory is the list that a walk finds in it. `Replace`, `Install` and the
--   `Build` of Package have models of the calls that may fail; elsewhere the calls of the operating system succeed.
--
-- Not modelled: the bytes of a tar archive and its compression, the command that
-- replicates a mirror and the separation of its roots, the HTTP client's settings, the opening of a path
-- without following links, the wiping of the buffers that opening a key file reads, the checks of YAML documents, and the commands' flags and output.
pub mod Base
pub mod Time
pub mod Primitives
pub mod Trust
pub mod Catalog
pub mod Policy
pub mod Release
pub mod History
pub mod Signing
pub mod Assembler
pub mod Mirror
pub mod Origin
pub mod Json
pub mod Package
pub mod Cohort
