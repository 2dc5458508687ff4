-- ===== src/Driver/Controller/Volumes.antt =====
-- `CreateVolume` of pkg/driver/controllerServer.go.
pub mod Placement
pub mod Created
pub mod Kept
use brickstor_csi_driver.Base.{
  Bool, ◌&&◌, List, [], ◌∷◌, ◌++◌, Text, codes, Option, none, some, Eff, pure, fail, ◌>>=◌, ◌>>◌,
  ok, err, panic, Error, status, not_found, invalid_argument, failed_precondition, if◌then◌else◌,
  is_empty, has_byte, path_join,
}
use brickstor_csi_driver.Config.Nodes.{BsrData, lookup, lookup_node, node_names}
use brickstor_csi_driver.Driver.VolumeId.{VolumeInfo, parse_volume_id, volume_id}
use brickstor_csi_driver.Driver.Paging.{no_bsr_nodes}
use brickstor_csi_driver.Driver.Csi.{
  VolumeCapability, VolumeContentSource, from_snapshot, from_volume, from_other,
  CreateVolumeRequest, Volume, last_secret,
}
use brickstor_csi_driver.Driver.State.{Platform, State, lift, return, get_state}
use brickstor_csi_driver.Driver.Controller.Resolve.{
  ResolveParams, ResolveResponse, node_removed, resolve_bsr,
}
use brickstor_csi_driver.Driver.Controller.Capabilities.{
  first_unsupported, pick_availability_zone, topology_key_zone, unsupported_text,
}
use brickstor_csi_driver.Driver.Controller.Snapshots.{refresh_or, cannot_use_config, wait_for}
use brickstor_csi_driver.Driver.Controller.Create.{
  create_new_vol, create_new_vol_from_snap, create_cloned_vol,
}

-- `m[key]`, which is "" for a missing key
abbrev pub get_or_empty : Text → List (Text × Text) → Text
get_or_empty key m = elim (lookup key m) [ some v ↦ v | none ↦ [] ]

-- `if cond { return nil, err }`
abbrev pub reject : {S : Type 0} → Bool → Error → Eff S (Unit {0})
reject b e = if b then fail e else pure tt

-- Where the volume is, and on which BrickStor: what the three branches leave behind.
pub record Placed (W : Type 0) : Type 0 where
  pub resolved : ResolveResponse W
  pub volume_path : Text

module _ {W : Type 0} (p : Platform W) where
  abbrev pub wrong_format : Text → Text → Error
  wrong_format what id = status not_found (what ++ (codes " is in wrong format: " ++ id))

  -- `ParseVolumeID` where the handler replaces the error.
  unfoldable pub parse_or : (Text → Error) → Text → Eff (State W) VolumeInfo
  parse_or report id = elim (parse_volume_id id) [
    | ok info ↦ pure info
    | err e ↦ fail (report id)
    | panic ↦ return panic
  ]

  -- `filepath.Join(datasetPath, volumeName)` on the BrickStor that was found
  abbrev placed : ResolveResponse W → Text → Placed W
  placed resp name = record { resolved = resp; volume_path = path_join resp.dataset_path name }

  fill_from_snapshot :
      CreateVolumeRequest → VolumeInfo → ResolveResponse W → Eff (State W) (Placed W)
  fill_from_snapshot req info resp = do
    create_new_vol_from_snap p resp.bsr_provider info.path (placed resp req.name).volume_path
        req.required_bytes
    pure (placed resp req.name)

  place_from_snapshot : CreateVolumeRequest → ResolveParams → VolumeInfo → Eff (State W) (Placed W)
  unfolding fill_from_snapshot
  place_from_snapshot req q info = do
    resp ← resolve_bsr p (record q { config_name = info.config_name })
    fill_from_snapshot req info resp

  unfoldable pub create_from_snapshot :
      CreateVolumeRequest → ResolveParams → Text → Eff (State W) (Placed W)
  unfolding parse_or place_from_snapshot
  create_from_snapshot req q id = do
    info ← parse_or (wrong_format (codes "SnapshotId")) id
    place_from_snapshot req q info

  -- The dataset to clone; a path without a slash is below the resolved dataset.
  source_dataset : Text → Text → Text → Eff (State W) Text
  source_dataset id dataset_path path =
      if has_byte b'/' path
      then pure path
      else if is_empty dataset_path
      then fail (wrong_format (codes "VolumeId") id)
      else pure (path_join dataset_path path)

  fill_from_volume :
      CreateVolumeRequest → Text → ResolveResponse W → Text → Eff (State W) (Placed W)
  fill_from_volume req id resp src = do
    create_cloned_vol p resp src (placed resp req.name).volume_path req.name req.required_bytes
    pure (placed resp req.name)

  clone_from_volume :
      CreateVolumeRequest → Text → VolumeInfo → ResolveResponse W → Eff (State W) (Placed W)
  unfolding source_dataset fill_from_volume
  clone_from_volume req id info resp = do
    src ← source_dataset id resp.dataset_path info.path
    fill_from_volume req id resp src

  place_from_volume :
      CreateVolumeRequest → ResolveParams → Text → VolumeInfo → Eff (State W) (Placed W)
  unfolding clone_from_volume
  place_from_volume req q id info = do
    resp ← resolve_bsr p (record q { config_name = info.config_name })
    clone_from_volume req id info resp

  unfoldable pub create_from_volume :
      CreateVolumeRequest → ResolveParams → Text → Eff (State W) (Placed W)
  unfolding parse_or place_from_volume
  create_from_volume req q id = do
    info ← parse_or (wrong_format (codes "VolumeId")) id
    place_from_volume req q id info

  -- With neither a dataset nor a node asked for, the first configured node is taken.
  default_node : ResolveParams → Eff (State W) ResolveParams
  default_node q = do
    s ← get_state
    if is_empty q.dataset_path && is_empty q.config_name
        then elim (node_names s.config) [
          | [] ↦ fail (status not_found no_bsr_nodes)
          | n ∷ ns ↦ pure (record q { config_name = n })
        ]
        else pure q

  fill_empty : CreateVolumeRequest → ResolveResponse W → Eff (State W) (Placed W)
  fill_empty req resp = do
    create_new_vol p resp.bsr_provider (placed resp req.name).volume_path req.required_bytes
    pure (placed resp req.name)

  place_empty : CreateVolumeRequest → ResolveParams → Eff (State W) (Placed W)
  unfolding fill_empty
  place_empty req q = do resp ← resolve_bsr p q; fill_empty req resp

  unfoldable pub create_empty : CreateVolumeRequest → ResolveParams → Eff (State W) (Placed W)
  unfolding default_node place_empty
  create_empty req q = do q' ← default_node q; place_empty req q'

  -- The branch by content source; an empty id counts as no source.
  unfoldable pub create_by_source :
      CreateVolumeRequest → ResolveParams → Option VolumeContentSource → Eff (State W) (Placed W)
  unfolding create_from_snapshot create_from_volume create_empty
  create_by_source req q none = create_empty req q
  create_by_source req q (some (from_snapshot id)) =
      if is_empty id then create_empty req q else create_from_snapshot req q id
  create_by_source req q (some (from_volume id)) =
      if is_empty id then create_empty req q else create_from_volume req q id
  create_by_source req q (some from_other) = fail (
      status invalid_argument (
        codes "Only snapshots and volumes are supported as volume content source, but got type: "
        ++ codes "%!s(<nil>)"))

  -- `VolumeContext` of the response, which the node server reads when it publishes the volume
  unfoldable pub volume_context : List (Text × Text) → BsrData → List (Text × Text)
  volume_context params cfg =
      (codes "dataIp", get_or_empty (codes "dataIp") params)
      ∷ (codes "mountOptions", get_or_empty (codes "mountOptions") params)
      ∷ (codes "mountFsType", get_or_empty (codes "mountFsType") params)
      ∷ (
        codes "mountPointPermissions",
        elim (lookup (codes "mountPointPermissions") params) [
          | some v ↦ v
          | none ↦ cfg.mount_point_permissions
        ],
      )
      ∷ []

  unfoldable pub created_volume : CreateVolumeRequest → Text → Placed W → BsrData → Volume
  unfolding volume_context
  created_volume req zone v cfg = record {
    volume_id = volume_id v.resolved.config_name v.volume_path;
    capacity_bytes = req.required_bytes;
    volume_context = volume_context req.parameters cfg;
    content_source = req.volume_content_source;
    accessible_topology = if is_empty zone then [] else ((topology_key_zone, zone) ∷ []) ∷ [];
  }

  -- `s.config.LookupNode(resolveResp.configName)`
  configured : Placed W → Eff (State W) BsrData
  configured v = do
    s ← get_state
    elim (lookup_node s.config v.resolved.config_name) [
      | none ↦ fail (node_removed p v.resolved.config_name)
      | some d ↦ pure d
    ]

  -- `createNfsShare`, where the parameters ask for a share
  share_if_asked : CreateVolumeRequest → Placed W → Eff (State W) (Unit {0})
  share_if_asked req v = elim (lookup (codes "nfsAccessList") req.parameters) [
    | none ↦ pure tt
    | some access ↦ lift (v.resolved.bsr_provider.create_nfs_share v.volume_path access)
  ]

  -- The share and the answer.
  publish : CreateVolumeRequest → Text → Placed W → BsrData → Eff (State W) Volume
  unfolding created_volume share_if_asked
  publish req zone v cfg = do share_if_asked req v; pure (created_volume req zone v cfg)

  configured_publish : CreateVolumeRequest → Text → Placed W → Eff (State W) Volume
  unfolding configured publish
  configured_publish req zone v = do cfg ← configured v; publish req zone v cfg

  -- The part of `CreateVolume` behind the creation of the dataset.
  unfoldable pub finish_create : CreateVolumeRequest → Text → Placed W → Eff (State W) Volume
  unfolding configured_publish
  finish_create req zone v = do
    wait_for p 10 (v.resolved.bsr_provider.get_dataset v.volume_path)
    configured_publish req zone v

  -- The checks of the requested capabilities.
  check_capabilities : Option (List VolumeCapability) → Eff (State W) (Unit {0})
  check_capabilities none =
      fail (status invalid_argument (codes "req.VolumeCapabilities must be provided"))
  check_capabilities (some caps) = elim (first_unsupported caps) [
    | none ↦ pure tt
    | some c ↦ fail (status failed_precondition (unsupported_text p c))
  ]

  -- The parameters of the request, as `resolveBSR` takes them.
  abbrev pub requested : CreateVolumeRequest → ResolveParams
  requested req = record {
    dataset_path = get_or_empty (codes "dataset") req.parameters;
    zone = pick_availability_zone req.accessibility_requirements;
    config_name = get_or_empty (codes "configName") req.parameters;
  }

  -- `CreateVolume` behind its checks
  create_checked : CreateVolumeRequest → Eff (State W) Volume
  unfolding create_by_source finish_create
  create_checked req = do
    v ← create_by_source req (requested req) req.volume_content_source
    finish_create req (requested req).zone v

  create_refreshed : CreateVolumeRequest → Eff (State W) Volume
  unfolding check_capabilities create_checked
  create_refreshed req = do check_capabilities req.volume_capabilities; create_checked req

  abbrev pub refreshed : CreateVolumeRequest → Eff (State W) (Unit {0})
  refreshed req = refresh_or p (cannot_use_config p failed_precondition) (last_secret req.secrets)

  create_named : CreateVolumeRequest → Eff (State W) Volume
  unfolding create_refreshed
  create_named req = do refreshed req; create_refreshed req

  -- `CreateVolume`
  unfoldable pub create_volume : CreateVolumeRequest → Eff (State W) Volume
  unfolding create_named
  create_volume req = do
    reject (is_empty req.name) (status invalid_argument (codes "req.Name must be provided"))
    create_named req
