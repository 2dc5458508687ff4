-- ===== src/Driver/Controller/Manage.antt =====
-- `DeleteVolume`, `ControllerExpandVolume` and `ValidateVolumeCapabilities` of
-- pkg/driver/controllerServer.go.
pub mod Deletion
pub mod Confirmed
pub mod Kept
use brickstor_csi_driver.Base.{
  Option, Bool, ◌||◌, List, [], ◌++◌, Text, codes, none, some, Eff, pure, fail, ◌>>=◌, ◌>>◌, ok,
  err, panic, Error, plain, status, not_found, internal, invalid_argument, failed_precondition,
  value, failed, attempt, if◌then◌else◌, is_empty, contains, error_text, is_not_exist, ℤ, is_zero,
}
use brickstor_csi_driver.Driver.VolumeId.{VolumeInfo, parse_volume_id}
use brickstor_csi_driver.Driver.Csi.{
  AccessMode, VolumeCapability, DeleteVolumeRequest, ExpandRequest, ValidateRequest, last_secret,
}
use brickstor_csi_driver.Driver.State.{Platform, State, lift, return}
use brickstor_csi_driver.Driver.Controller.Resolve.{ResolveParams, ResolveResponse, resolve_bsr}
use brickstor_csi_driver.Driver.Controller.Capabilities.{
  first_unsupported, unsupported_text, supported_modes,
}
use brickstor_csi_driver.Driver.Controller.Snapshots.{
  refresh_or, cannot_use_config, is_code_not_found,
}
use brickstor_csi_driver.Driver.Controller.Volumes.{reject, wrong_format, parse_or}

-- The answer to `ValidateVolumeCapabilities`: the supported modes and the context, or a message.
pub data Validated : Type 0 where
  confirmed : List AccessMode → List (Text × Text) → Validated
  refused : Text → Validated

module _ {W : Type 0} (p : Platform W) where
  -- The parameters that a parsed id asks for.
  abbrev pub params_of : VolumeInfo → ResolveParams
  params_of info = record { dataset_path = info.path; zone = []; config_name = info.config_name }

  abbrev provided : Error
  provided = status invalid_argument (codes "Volume ID must be provided")

  unfoldable pub destroy_resolved : ResolveResponse W → Text → Eff (State W) (Unit {0})
  destroy_resolved resp path = do
    r ← attempt (lift (resp.bsr_provider.destroy_dataset path))
    elim r [
      | value u ↦ pure tt
      | failed e ↦
          if is_not_exist p.grpc e
          then pure tt
          else fail (
              status internal
                (codes "Cannot delete '" ++ (path ++ (codes "' volume: " ++ error_text p.grpc e))))
    ]

  -- The test that lets a deletion of an unresolved volume succeed.
  unfoldable pub is_gone : Error → Bool
  is_gone e = is_code_not_found e || contains (error_text p.grpc e) (codes "NotFound")

  unfoldable pub delete_parsed_volume : VolumeInfo → Eff (State W) (Unit {0})
  unfolding destroy_resolved is_gone
  delete_parsed_volume info = do
    r ← attempt (resolve_bsr p (params_of info))
    elim r [
      | value resp ↦ destroy_resolved resp info.path
      | failed e ↦ if is_gone e then pure tt else fail e
    ]

  -- `DeleteVolume`; an id in a wrong format is accepted.
  unfoldable pub delete_volume : DeleteVolumeRequest → Eff (State W) (Unit {0})
  unfolding delete_parsed_volume
  delete_volume req = do
    refresh_or p (cannot_use_config p failed_precondition) (last_secret req.secrets)
    reject (is_empty req.volume_id) provided
    elim (parse_volume_id req.volume_id) [
      | ok info ↦ delete_parsed_volume info
      | err e ↦ pure tt
      | panic ↦ return panic
    ]

  expand_resolved : ExpandRequest → VolumeInfo → ResolveResponse W → Eff (State W) ℤ
  expand_resolved req info resp = do
    r ← attempt (lift (resp.bsr_provider.update_dataset info.path req.required_bytes))
    elim r [
      | value u ↦ pure req.required_bytes
      | failed e ↦ fail (
          plain (
            codes "Failed to expand volume volume "
            ++ (info.path ++ (codes ": " ++ error_text p.grpc e))))
    ]

  expand_parsed : ExpandRequest → VolumeInfo → Eff (State W) ℤ
  unfolding expand_resolved
  expand_parsed req info = do resp ← resolve_bsr p (params_of info); expand_resolved req info resp

  expand_checked : ExpandRequest → Eff (State W) ℤ
  unfolding expand_parsed
  expand_checked req =
      if is_zero req.required_bytes
      then fail (status invalid_argument (codes "GetRequiredBytes must be >0"))
      else if is_empty req.volume_id
      then fail provided
      else do info ← return (parse_volume_id req.volume_id); expand_parsed req info

  -- `ControllerExpandVolume`
  unfoldable pub expand_volume : ExpandRequest → Eff (State W) ℤ
  unfolding expand_checked
  expand_volume req = do
    refresh_or p (cannot_use_config p failed_precondition) (last_secret req.secrets)
    expand_checked req

  check_modes : ValidateRequest → List VolumeCapability → Validated
  check_modes req caps = elim (first_unsupported caps) [
    | none ↦ confirmed supported_modes req.volume_context
    | some c ↦ refused (unsupported_text p c)
  ]

  resolve_existing : VolumeInfo → Eff (State W) (ResolveResponse W)
  resolve_existing info = do
    r ← attempt (resolve_bsr p (params_of info))
    elim r [
      | value resp ↦ pure resp
      | failed e ↦
          fail (status not_found (codes "Volume '" ++ (info.path ++ codes "' does not exist")))
    ]

  answer_modes : ValidateRequest → VolumeInfo → List VolumeCapability → Eff (State W) Validated
  unfolding check_modes resolve_existing
  answer_modes req info caps = do resp ← resolve_existing info; pure (check_modes req caps)

  abbrev pub refreshed_for : ValidateRequest → Eff (State W) (Unit {0})
  refreshed_for req =
      refresh_or p (cannot_use_config p failed_precondition) (last_secret req.secrets)

  validate_given :
      ValidateRequest → VolumeInfo → Option (List VolumeCapability) → Eff (State W) Validated
  unfolding answer_modes
  validate_given req info none =
      fail (status invalid_argument (codes "req.VolumeCapabilities must be provided"))
  validate_given req info (some caps) = do refreshed_for req; answer_modes req info caps

  validate_parsed : ValidateRequest → VolumeInfo → Eff (State W) Validated
  unfolding validate_given
  validate_parsed req info = validate_given req info req.volume_capabilities

  validate_named : ValidateRequest → Eff (State W) Validated
  unfolding validate_parsed parse_or
  validate_named req = do
    info ← parse_or p (wrong_format p (codes "VolumeId")) req.volume_id
    validate_parsed req info

  -- `ValidateVolumeCapabilities`
  unfoldable pub validate_volume_capabilities : ValidateRequest → Eff (State W) Validated
  unfolding validate_named
  validate_volume_capabilities req = do reject (is_empty req.volume_id) provided; validate_named req
