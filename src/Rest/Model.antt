-- ===== src/Rest/Model.antt =====
-- pkg/rest/model.go
use brickstor_csi_driver.Base.{ℕ, Bool, List, Text, Option, ℤ, pos}

-- A dataset property; a nil value removes the setting.
pub record DatasetProperty : Type 0 where
  pub name : Text
  pub value : Option Text
  pub source : Text

pub record Dataset : Type 0 where
  pub id : Text
  pub path : Text
  pub dataset_type : Text
  pub parent_id : Text
  pub creation : ℤ
  pub properties : List DatasetProperty

pub record DatasetRequest : Type 0 where
  pub dataset : Text

pub record DatasetsRequest : Type 0 where
  pub dataset : Text
  pub include_ancestors : Bool
  pub exclude_descendants : Bool
  pub exclude_volumes : Bool
  pub exclude_filesystems : Bool
  pub props : Text
  pub limit : ℕ
  pub offset : ℕ

pub record CreateDatasetRequest : Type 0 where
  pub name : Text
  pub properties : List DatasetProperty
  pub encrypt : Bool
  pub encrypt_algo : Text

pub record ModifyDatasetRequest : Type 0 where
  pub properties : List DatasetProperty
  pub dataset_id : Text

pub record DeleteDatasetRequest : Type 0 where
  pub dataset : Text
  pub force : Bool

pub record FsAce : Type 0 where
  pub sid : Text
  pub permission_flags : Text
  pub inheritance_flags : Text
  pub access_type : Text

pub record FsSetPermissionsRequest : Type 0 where
  pub wait_until_complete : Bool
  pub dataset_id : Text
  pub recursive : Bool
  pub acl : List FsAce
  pub single_dataset_only : Bool

-- `SnapCriteria` and `DatasetCriteria`: dataset or snapshot paths.
pub record SnapCriteria : Type 0 where
  pub datasets : List Text
  pub recursive : Bool

-- A snapshot, also where the API sends `SnapshotSummary`.
pub record Snapshot : Type 0 where
  pub dataset_path : Text
  pub name : Text
  pub creation : ℤ
  pub created_by : Text

pub record CreateSnapsRequest : Type 0 where
  pub criteria : SnapCriteria
  pub name : Text
  pub exp : ℤ

pub record CloneRequest : Type 0 where
  pub src : Text
  pub dst : Text
  pub props : List (Text × Text)

-- `NeverExpires`
abbrev pub never_expires : ℤ
never_expires = pos 253402214400
