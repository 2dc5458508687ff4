-- ===== src/Driver/Node/Publish.antt =====
-- `NodePublishVolume` and `GetMountPointPermissions` of pkg/driver/nodeServer.go.
pub mod Again
pub mod Kept
use brickstor_csi_driver.Base.{
  ℕ, ◌-◌, ◌+◌, ◌^◌, ℤ, pos, negsuc, Bool, true, false, List, [], ◌∷◌, ◌++◌, Text, codes, Option,
  none, some, is_empty, text_eq, contains, Eff, pure, fail, ◌>>=◌, ◌>>◌, Error, status, not_found,
  failed_precondition, error_text, Attempt, value, failed, attempt, if◌then◌else◌, Outcome, ok, err,
}
use brickstor_csi_driver.Strconv.{parse_int}
use brickstor_csi_driver.Bsr.Provider.{Dataset, ProviderInterface}
use brickstor_csi_driver.Config.Nodes.{BsrData, lookup, lookup_node}
use brickstor_csi_driver.Config.Validate.{fs_type_nfs, fs_type_cifs, contains_string}
use brickstor_csi_driver.Driver.Csi.{VolumeCapability, last_secret}
use brickstor_csi_driver.Driver.VolumeId.{VolumeInfo}
use brickstor_csi_driver.Driver.State.{Platform, State, lift, return, get_state}
use brickstor_csi_driver.Driver.Node.Host.{Host}
use brickstor_csi_driver.Driver.Node.Options.{mount_options, data_ip, fs_type, value_or}
use brickstor_csi_driver.Driver.Node.Mount.{mount_nfs, mount_cifs}
use brickstor_csi_driver.Driver.Node.Resolve.{
  must_be_given, not_nil, refresh_node_or_fail, read_volume_id, node_resolve_bsr, or_no_filesystem,
}

pub record PublishRequest : Type 0 where
  pub volume_id : Text
  pub target_path : Text
  pub volume_capability : Option VolumeCapability
  pub secrets : List (Text × Text)
  pub volume_context : List (Text × Text)
  pub read_only : Bool

-- `os.FileMode(n)`, of 32 bits, for an int64 of 16 bits.
abbrev pub file_mode : ℤ → ℕ
file_mode (pos n) = n
file_mode (negsuc n) = 2 ^ 32 - (n + 1)

module _ {W : Type 0} (p : Platform W) (h : Host W) where
  parsed_mode : Text → Option ℤ → Outcome ℕ
  parsed_mode text none = err (h.parse_error text)
  parsed_mode text (some n) = ok (file_mode n)

  -- `GetMountPointPermissions`
  unfoldable pub get_mount_point_permissions : List (Text × Text) → Outcome ℕ
  unfolding parsed_mode value_or
  get_mount_point_permissions context =
      let text = value_or (codes "mountPointPermissions") context [] in
      if is_empty text then ok 0o777 else parsed_mode text (parse_int 8 (2 ^ 15) text)

  unfoldable pub mount_as :
      Text
      → Text
      → Bool
      → ProviderInterface W
      → Dataset
      → Text
      → List Text
      → Eff (State W) (Unit {0})
  unfolding mount_nfs mount_cifs
  mount_as fs target read_only b ds ip options =
      if text_eq fs fs_type_nfs
      then mount_nfs p h target read_only b ds ip options
      else if text_eq fs fs_type_cifs
      then mount_cifs p h target read_only b ds ip options
      else fail (
          status failed_precondition
            (codes "Unsupported mount filesystem type: '" ++ (fs ++ codes "'")))

  -- A mount of which the error that the target is already a mount point is no error.
  unfoldable pub mount_unless_mounted : Eff (State W) (Unit {0}) → Eff (State W) (Unit {0})
  mount_unless_mounted m = do
    r ← attempt m
    elim r [
      | value u ↦ pure tt
      | failed e ↦
          if contains (error_text p.grpc e) (codes "already a mount point") then pure tt else fail e
    ]

  -- `os.Chmod(targetPath, permissions)`, unless the mount is read-only.
  unfoldable pub set_permissions : Text → List Text → ℕ → Eff (State W) (Unit {0})
  unfolding contains_string
  set_permissions target options mode = if contains_string options (codes "ro") then pure tt else do
    r ← attempt (lift (h.chmod target mode))
    elim r [
      | value u ↦ pure tt
      | failed e ↦ if contains (error_text p.grpc e) (codes "read-only") then pure tt else fail e
    ]

  unfoldable pub finish_publish : PublishRequest → List Text → Eff (State W) (Unit {0})
  unfolding set_permissions get_mount_point_permissions
  finish_publish req options = do
    mode ← return (get_mount_point_permissions req.volume_context)
    set_permissions req.target_path options mode

  -- `NodePublishVolume` behind the dataset
  unfoldable pub publish_dataset :
      PublishRequest
      → VolumeCapability
      → BsrData
      → ProviderInterface W
      → Dataset
      → Eff (State W) (Unit {0})
  unfolding mount_options data_ip fs_type mount_as mount_unless_mounted finish_publish
  publish_dataset req c cfg b ds = do
    mount_unless_mounted (
        mount_as (fs_type req.volume_context cfg) req.target_path req.read_only b ds
          (data_ip req.volume_context cfg) (mount_options req.read_only c req.volume_context cfg))
    finish_publish req (mount_options req.read_only c req.volume_context cfg)

  configured : Text → Option BsrData → Eff (State W) BsrData
  configured name none = fail (status not_found (codes "Node " ++ (name ++ codes " was removed")))
  configured name (some cfg) = pure cfg

  -- `NodePublishVolume` behind the reading of the id
  unfoldable pub publish_parsed :
      PublishRequest → VolumeCapability → VolumeInfo → Eff (State W) (Unit {0})
  unfolding node_resolve_bsr configured or_no_filesystem publish_dataset
  publish_parsed req c info = do
    found ← node_resolve_bsr p info.config_name info.path
    s ← get_state
    cfg ← configured info.config_name (lookup_node s.config info.config_name)
    b ← not_nil p found
    ds ← or_no_filesystem p info.path (b.get_dataset info.path)
    publish_dataset req c cfg b ds

  -- `NodePublishVolume` behind the check of the request
  unfoldable pub publish_checked : PublishRequest → VolumeCapability → Eff (State W) (Unit {0})
  unfolding refresh_node_or_fail read_volume_id publish_parsed
  publish_checked req c = do
    refresh_node_or_fail p (last_secret req.secrets)
    info ← read_volume_id p req.volume_id
    publish_parsed req c info

  -- `NodePublishVolume`
  unfoldable pub node_publish_volume : PublishRequest → Eff (State W) (Unit {0})
  unfolding publish_checked
  node_publish_volume req =
      if is_empty req.volume_id
      then fail (must_be_given (codes "req.VolumeId"))
      else if is_empty req.target_path
      then fail (must_be_given (codes "req.TargetPath"))
      else elim req.volume_capability [
        | none ↦ fail (must_be_given (codes "req.VolumeCapability"))
        | some c ↦ publish_checked req c
      ]
