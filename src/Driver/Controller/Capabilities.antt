-- ===== src/Driver/Controller/Capabilities.antt =====
-- Capabilities, zones and capacity: the parts of controllerServer.go that change nothing.
use brickstor_csi_driver.Base.{
  ℕ, ◌==◌, Bool, false, not, ◌&&◌, ◌||◌, List, [], ◌∷◌, ◌++◌, Text, codes, Option, none, some, Eff,
  pure, ◌>>=◌, if◌then◌else◌, ℤ,
}
use brickstor_csi_driver.Bsr.Provider.{ref_quota_size}
use brickstor_csi_driver.Config.Nodes.{lookup}
use brickstor_csi_driver.Driver.Csi.{
  AccessMode, unknown_mode, single_node_writer, single_node_reader_only, multi_node_reader_only,
  multi_node_single_writer, multi_node_multi_writer, single_node_single_writer,
  single_node_multi_writer, VolumeCapability, TopologyRequirement,
}
use brickstor_csi_driver.Driver.State.{Platform, State, lift}
use brickstor_csi_driver.Driver.Controller.Resolve.{resolve_bsr}

-- `supportedVolumeCapabilities`, by their access modes
abbrev pub supported_modes : List AccessMode
supported_modes =
    single_node_reader_only ∷ single_node_writer ∷ multi_node_reader_only ∷ multi_node_single_writer
    ∷ multi_node_multi_writer ∷ []

-- The number of the mode in the CSI enumeration, by which modes are compared.
abbrev pub mode_number : AccessMode → ℕ
mode_number unknown_mode = 0
mode_number single_node_writer = 1
mode_number single_node_reader_only = 2
mode_number multi_node_reader_only = 3
mode_number multi_node_single_writer = 4
mode_number multi_node_multi_writer = 5
mode_number single_node_single_writer = 6
mode_number single_node_multi_writer = 7

abbrev pub mode_in : AccessMode → List AccessMode → Bool
mode_in m [] = false
mode_in m (n ∷ ns) = mode_number n == mode_number m || mode_in m ns

-- `validateVolumeCapability`
unfoldable pub validate_volume_capability : VolumeCapability → Bool
validate_volume_capability c = not c.is_block && mode_in c.mode supported_modes

-- The first capability that is not supported.
unfoldable pub first_unsupported : List VolumeCapability → Option VolumeCapability
unfolding validate_volume_capability
first_unsupported [] = none
first_unsupported (c ∷ cs) =
    let rest = first_unsupported cs in if validate_volume_capability c then rest else some c

-- `TopologyKeyZone`
abbrev pub topology_key_zone : Text
topology_key_zone = codes "topology.kubernetes.io/zone"

first_zone : List (List (Text × Text)) → Option Text
first_zone [] = none
first_zone (t ∷ ts) = elim (lookup topology_key_zone t) [ some z ↦ some z | none ↦ first_zone ts ]

-- `pickAvailabilityZone`
unfoldable pub pick_availability_zone : Option TopologyRequirement → Text
unfolding first_zone
pick_availability_zone none = []
pick_availability_zone (some r) = elim (first_zone r.preferred) [
  | some z ↦ z
  | none ↦ elim (first_zone r.requisite) [ some z ↦ z | none ↦ [] ]
]

module _ {W : Type 0} (p : Platform W) where
  abbrev pub unsupported_text : VolumeCapability → Text
  unsupported_text c =
      codes "Driver does not support volume capability mode: " ++ p.mode_name c.mode

  -- `GetCapacity`, given the request's parameters
  unfoldable pub get_capacity : List (Text × Text) → Eff (State W) ℤ
  unfolding ref_quota_size
  get_capacity params = do
    resp ← resolve_bsr p (record {
      dataset_path = elim (lookup (codes "dataset") params) [ some v ↦ v | none ↦ [] ];
      zone = [];
      config_name = [];
    })
    ds ← lift (resp.bsr_provider.get_dataset resp.dataset_path)
    pure (ref_quota_size ds)
