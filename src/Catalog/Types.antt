-- ===== src/Catalog/Types.antt =====
-- The types of internal/catalogv1/types.go. A pointer that may be nil is an Option.
use unlock_catalog_publisher.Base.{ℕ, Bool, ◌&&◌, Bytes, Dict, List, Option, codes, ◌==◌}
use unlock_catalog_publisher.Base.Int.{ℤ}
use unlock_catalog_publisher.Time.{Time}

abbrev pub schema_version : ℕ
schema_version = 1

-- `Permission` is a string; these are its constants.
abbrev pub Permission : Type 0
Permission = Bytes

abbrev pub permission_metadata : Permission
permission_metadata = codes "metadata"

abbrev pub permission_detection_data : Permission
permission_detection_data = codes "detection-data"

abbrev pub permission_routing_data : Permission
permission_routing_data = codes "routing-data"

abbrev pub permission_executable : Permission
permission_executable = codes "executable"

pub record Cohort : Type 0 where
  pub os : Bytes
  pub arch : Bytes
  pub abi : Bytes

-- `left == right` on the structs `Cohort` and `ArtifactPlatform`.
abbrev pub same_cohort : Cohort → Cohort → Bool
same_cohort left right = left.os == right.os && left.arch == right.arch && left.abi == right.abi

pub record ArtifactPlatform : Type 0 where
  pub os : Bytes
  pub arch : Bytes
  pub abi : Bytes

abbrev pub same_platform : ArtifactPlatform → ArtifactPlatform → Bool
same_platform left right = left.os == right.os && left.arch == right.arch && left.abi == right.abi

pub record RoutingRule : Type 0 where
  pub kind : Bytes
  pub value : Bytes
  pub match_kind : Bytes
  pub resolve : Option Bool
  pub url : Bytes
  pub format : Bytes
  pub behavior : Bytes
  pub interval : ℤ

pub record ArtifactComponent : Type 0 where
  pub component_id : Bytes
  pub artifact_id : Bytes

pub record RoutingComponent : Type 0 where
  pub component_id : Bytes
  pub rule : Option RoutingRule
  pub artifact_id : Bytes

pub record DetectionComponent : Type 0 where
  pub component_id : Bytes
  pub artifact_ids : List Bytes

pub record BindingDefinition : Type 0 where
  pub id : Bytes
  pub display_name : Bytes
  pub engine : Bytes
  pub provider : Bytes
  pub slots : List Bytes
  pub interval_seconds : ℤ
  pub timeout_seconds : ℤ

pub record VariantDefinition : Type 0 where
  pub id : Bytes
  pub display_name : Bytes
  pub required_slots : List Bytes
  pub bindings : List BindingDefinition

pub record PinPolicy : Type 0 where
  pub component_id : Bytes
  pub source_slot : Bytes
  pub accepted_verdicts : List Bytes

pub record FamilyDefinition : Type 0 where
  pub name : Bytes
  pub display_name : Bytes
  pub default_engine : Bytes
  pub default_variant : Bytes
  pub routing_entry : Bytes
  pub allow_pin_source_override : Bool
  pub variants : Dict VariantDefinition
  pub pin_policy : PinPolicy

pub record Entry : Type 0 where
  pub entry_id : Bytes
  pub display_component_id : Bytes
  pub display_name : Bytes
  pub description : Bytes
  pub tags : List Bytes
  pub family : FamilyDefinition
  pub metadata : List ArtifactComponent
  pub routing : List RoutingComponent
  pub detection : List DetectionComponent

pub record ArtifactDescriptor : Type 0 where
  pub artifact_id : Bytes
  pub entry_id : Bytes
  pub permission : Permission
  pub media_type : Bytes
  pub path : Bytes
  pub sha256 : Bytes
  pub length : ℤ
  pub platform : Option ArtifactPlatform

pub record Revocation : Type 0 where
  pub revocation_id : Bytes
  pub kind : Bytes
  pub target_id : Bytes
  pub version : ℕ
  pub reason : Bytes

-- `Source`: what the publisher declares.
pub record Source : Type 0 where
  pub schema_version : ℤ
  pub source_id : Bytes
  pub version : ℕ
  pub valid_for_seconds : ℤ
  pub min_core_protocol : ℤ
  pub max_core_protocol : ℤ
  pub min_core_version : Bytes
  pub max_core_version : Bytes
  pub compatibility_epoch : ℤ
  pub permissions : List Permission
  pub cohort : Cohort
  pub entries : List Entry
  pub artifacts : List ArtifactDescriptor
  pub revocations : List Revocation

pub record Manifest : Type 0 where
  pub schema_version : ℤ
  pub protocol : Bytes
  pub source_id : Bytes
  pub version : ℕ
  pub published_at : Time
  pub expires_at : Time
  pub min_core_protocol : ℤ
  pub max_core_protocol : ℤ
  pub min_core_version : Bytes
  pub max_core_version : Bytes
  pub compatibility_epoch : ℤ
  pub entries : List Entry
  pub artifacts : List ArtifactDescriptor
  pub revocations : List Revocation

pub record SigningObject : Type 0 where
  pub artifact_id : Bytes
  pub path : Bytes
  pub sha256 : Bytes
  pub length : ℤ
  pub permission : Permission
  pub platform : Option ArtifactPlatform

pub record SigningRequest : Type 0 where
  pub schema_version : ℤ
  pub policy_version : Bytes
  pub source_id : Bytes
  pub version : ℕ
  pub payload_sha256 : Bytes
  pub published_at : Time
  pub expires_at : Time
  pub permissions : List Permission
  pub cohort : Cohort
  pub objects : List SigningObject
