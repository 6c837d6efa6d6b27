-- ===== src/Cohort/Types.antt =====
-- The types and the errors of internal/cohort/builder.go.
use unlock_catalog_publisher.Base.{ℕ, ◌/◌, ◌%◌, Bool, false, not, ◌||◌, Bytes, Dict, eqb}
use unlock_catalog_publisher.Base.Items.{Item, plain}
use unlock_catalog_publisher.Catalog.Types.{ArtifactDescriptor}
use unlock_catalog_publisher.Policy.Types.{PolicyError}

pub record Candidate : Type 0 where
  pub source_id : Bytes
  pub directory : Bytes
  pub payload_sha256 : Bytes

-- `verifiedObject`
pub record VerifiedObject : Type 0 where
  pub descriptor : ArtifactDescriptor
  pub content : Bytes

-- `out_of_fuel` has no counterpart in the program.
pub data CohortError : Type 0 where
  epoch_invalid source_name source_missing source_not_regular source_undecodable : CohortError
  source_policy : PolicyError → CohortError
  root_not_directory item_is_symlink undeclared_directory item_not_regular undeclared_file :
      CohortError
  object_missing object_not_regular object_length_mismatch object_digest_mismatch : CohortError
  manifest_unencodable request_unencodable destination_exists path_taken out_of_fuel : CohortError

-- The directory of the source document: what `Lstat` says of it, and what is below it. Nothing is changed
-- while the candidate is built.
pub record SourceDirectory : Type 0 where
  pub is_directory : Bool
  pub items : Dict Item

-- `mode.Perm()&0o111 != 0`
abbrev pub executable_mode : ℕ → Bool
executable_mode mode =
    not (eqb (mode % 2) 0) || not (eqb (mode / 8 % 2) 0) || not (eqb (mode / 64 % 2) 0)

-- `!info.Mode().IsRegular() || info.Mode().Perm()&0o111 != 0`, negated.
unfoldable pub is_data_file : Item → Bool
is_data_file (plain mode content) = not (executable_mode mode)
is_data_file _ = false
