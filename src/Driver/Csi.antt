-- ===== src/Driver/Csi.antt =====
-- The CSI messages: the fields that the driver reads and sets. A nil message or
-- slice is `none`; a map is an association list in the order in which it is ranged over.
use brickstor_csi_driver.Base.{Bool, List, [], ◌∷◌, Text, Option, ℤ}

pub data AccessMode : Type 0 where
  unknown_mode single_node_writer single_node_reader_only multi_node_reader_only
        multi_node_single_writer multi_node_multi_writer single_node_single_writer
        single_node_multi_writer :
      AccessMode

pub record VolumeCapability : Type 0 where
  pub is_block : Bool
  pub mount_flags : List Text
  pub mode : AccessMode

pub data VolumeContentSource : Type 0 where
  from_snapshot : Text → VolumeContentSource
  from_volume : Text → VolumeContentSource
  from_other : VolumeContentSource

-- The segments of each topology.
pub record TopologyRequirement : Type 0 where
  pub preferred : List (List (Text × Text))
  pub requisite : List (List (Text × Text))

pub record CreateVolumeRequest : Type 0 where
  pub name : Text
  pub required_bytes : ℤ
  pub volume_capabilities : Option (List VolumeCapability)
  pub parameters : List (Text × Text)
  pub secrets : List (Text × Text)
  pub volume_content_source : Option VolumeContentSource
  pub accessibility_requirements : Option TopologyRequirement

pub record Volume : Type 0 where
  pub volume_id : Text
  pub capacity_bytes : ℤ
  pub volume_context : List (Text × Text)
  pub content_source : Option VolumeContentSource
  pub accessible_topology : List (List (Text × Text))

pub record DeleteVolumeRequest : Type 0 where
  pub volume_id : Text
  pub secrets : List (Text × Text)

pub record CreateSnapshotRequest : Type 0 where
  pub source_volume_id : Text
  pub name : Text

pub record CsiSnapshot : Type 0 where
  pub snapshot_id : Text
  pub source_volume_id : Text
  pub creation_time : ℤ
  pub ready_to_use : Bool

pub record ListVolumesRequest : Type 0 where
  pub max_entries : ℤ
  pub starting_token : Text

-- A page of volume ids, or of snapshots, with the token of the next one.
pub record Page (E : Type 0) : Type 0 where
  pub entries : List E
  pub next_token : Text

pub record ListSnapshotsRequest : Type 0 where
  pub max_entries : ℤ
  pub starting_token : Text
  pub source_volume_id : Text
  pub snapshot_id : Text

pub record ValidateRequest : Type 0 where
  pub volume_id : Text
  pub volume_capabilities : Option (List VolumeCapability)
  pub volume_context : List (Text × Text)
  pub secrets : List (Text × Text)

pub record ExpandRequest : Type 0 where
  pub volume_id : Text
  pub required_bytes : ℤ
  pub secrets : List (Text × Text)

-- `for _, v := range secrets { secret = v }`
unfoldable pub last_secret : List (Text × Text) → Text
last_secret [] = []
last_secret ((k, v) ∷ []) = v
last_secret ((k, v) ∷ kv ∷ rest) = last_secret (kv ∷ rest)
