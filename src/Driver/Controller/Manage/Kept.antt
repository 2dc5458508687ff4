-- ===== src/Driver/Controller/Manage/Kept.antt =====
-- `DeleteVolume`, `ControllerExpandVolume`, `ValidateVolumeCapabilities` and `GetCapacity` keep what
-- the refresh keeps and no call below changes.
use brickstor_csi_driver.Base.{
  Text, codes, List, [], Option, none, some, Eff, pure, ◌>>=◌, ◌>>◌, ok, err, panic, Keeps,
  >>=-Keeps, if-Keeps, outcome-Keeps, recover-Keeps, is_empty, is_not_exist, is_zero,
  failed_precondition,
}
use brickstor_csi_driver.Bsr.Provider.{ref_quota_size}
use brickstor_csi_driver.Config.Nodes.{lookup}
use brickstor_csi_driver.Driver.VolumeId.{VolumeInfo, parse_volume_id}
use brickstor_csi_driver.Driver.Csi.{
  VolumeCapability, DeleteVolumeRequest, ExpandRequest, ValidateRequest, last_secret,
}
use brickstor_csi_driver.Driver.State.{Platform, State, lift, return, refresh_config}
use brickstor_csi_driver.Driver.State.Kept.{IsInner, lift-Keeps}
use brickstor_csi_driver.Driver.Controller.Resolve.{ResolveParams, ResolveResponse, resolve_bsr}
use brickstor_csi_driver.Driver.Controller.Resolve.Kept.{resolve_bsr-Keeps}
use brickstor_csi_driver.Driver.Controller.Capabilities.{get_capacity}
use brickstor_csi_driver.Driver.Controller.Snapshots.{refresh_or, cannot_use_config}
use brickstor_csi_driver.Driver.Controller.Snapshots.Kept.{refresh_or-Keeps}
use brickstor_csi_driver.Driver.Controller.Volumes.{reject, wrong_format, parse_or}
use brickstor_csi_driver.Driver.Controller.Volumes.Kept.{reject-Keeps, parse_or-Keeps}
use brickstor_csi_driver.Driver.Controller.Manage.{
  params_of, provided, destroy_resolved, is_gone, delete_parsed_volume, delete_volume,
  expand_resolved, expand_parsed, expand_checked, expand_volume, check_modes, resolve_existing,
  answer_modes, refreshed_for, validate_given, validate_parsed, validate_named,
  validate_volume_capabilities,
}

module _ {W : Type 0} (p : Platform W) (I : State W → Type 0) (inner : IsInner I) where
  destroy_resolved-Keeps :
      (resp : ResolveResponse W) (path : Text) → Keeps I (destroy_resolved p resp path)
  unfolding destroy_resolved
  destroy_resolved-Keeps resp path =
      let m = resp.bsr_provider.destroy_dataset path in
      recover-Keeps I (lift m) _ _ (lift-Keeps I inner m) (λ u s i. i)
        (λ e. if-Keeps I (is_not_exist p.grpc e) _ _ (λ s i. i) (λ s i. i))

  delete_parsed_volume-Keeps : (info : VolumeInfo) → Keeps I (delete_parsed_volume p info)
  unfolding delete_parsed_volume
  delete_parsed_volume-Keeps info =
      recover-Keeps I (resolve_bsr p (params_of p info)) _ _
        (resolve_bsr-Keeps p I inner (params_of p info))
        (λ resp. destroy_resolved-Keeps resp info.path)
        (λ e. if-Keeps I (is_gone p e) _ _ (λ s i. i) (λ s i. i))

  expand_checked-Keeps : (req : ExpandRequest) → Keeps I (expand_checked p req)
  unfolding expand_checked expand_parsed expand_resolved
  expand_checked-Keeps req =
      if-Keeps I (is_zero req.required_bytes) _ _ (λ s i. i)
        (if-Keeps I (is_empty req.volume_id) _ _ (λ s i. i)
          (>>=-Keeps I (return (parse_volume_id req.volume_id)) (expand_parsed p req) (λ s i. i)
            (λ info.
              >>=-Keeps I (resolve_bsr p (params_of p info)) (expand_resolved p req info)
                (resolve_bsr-Keeps p I inner (params_of p info))
                (λ resp.
                  let m = resp.bsr_provider.update_dataset info.path req.required_bytes in
                  recover-Keeps I (lift m) _ _ (lift-Keeps I inner m) (λ u s i. i) (λ e s i. i)))))

  answer_modes-Keeps :
      (req : ValidateRequest) (info : VolumeInfo) (caps : List VolumeCapability)
      → Keeps I (answer_modes p req info caps)
  unfolding answer_modes resolve_existing
  answer_modes-Keeps req info caps =
      >>=-Keeps I (resolve_existing p info) (λ resp. pure (check_modes p req caps))
        (recover-Keeps I (resolve_bsr p (params_of p info)) _ _
          (resolve_bsr-Keeps p I inner (params_of p info)) (λ resp s i. i) (λ e s i. i))
        (λ resp s i. i)

  pub get_capacity-Keeps : (params : List (Text × Text)) → Keeps I (get_capacity p params)
  unfolding get_capacity
  get_capacity-Keeps params =
      let q : ResolveParams = record {
        dataset_path = elim (lookup (codes "dataset") params) [ some v ↦ v | none ↦ [] ];
        zone = [];
        config_name = [];
      } in
      >>=-Keeps I (resolve_bsr p q)
        (λ resp.
          lift (resp.bsr_provider.get_dataset resp.dataset_path) >>= λ ds. pure (ref_quota_size ds))
        (resolve_bsr-Keeps p I inner q)
        (λ resp.
          >>=-Keeps I (lift (resp.bsr_provider.get_dataset resp.dataset_path))
            (λ ds. pure (ref_quota_size ds))
            (lift-Keeps I inner (resp.bsr_provider.get_dataset resp.dataset_path)) (λ ds s i. i))

  module _ (kept : (secret : Text) → Keeps I (refresh_config p secret)) where
    pub delete_volume-Keeps : (req : DeleteVolumeRequest) → Keeps I (delete_volume p req)
    unfolding delete_volume
    delete_volume-Keeps req =
        let given : Eff (State W) (Unit {0}) = elim (parse_volume_id req.volume_id) [
          | ok info ↦ delete_parsed_volume p info
          | err e ↦ pure tt
          | panic ↦ return panic
        ] in
        >>=-Keeps I
          (refresh_or p (cannot_use_config p failed_precondition) (last_secret req.secrets))
          (λ u. reject (is_empty req.volume_id) (provided p) >> given)
          (refresh_or-Keeps p I inner kept (cannot_use_config p failed_precondition)
            (last_secret req.secrets))
          (λ u.
            >>=-Keeps I (reject (is_empty req.volume_id) (provided p)) (λ v. given)
              (reject-Keeps I (is_empty req.volume_id) (provided p))
              (λ v.
                outcome-Keeps I (parse_volume_id req.volume_id) _ _ _ delete_parsed_volume-Keeps
                  (λ e s i. i) (λ s i. i)))

    pub expand_volume-Keeps : (req : ExpandRequest) → Keeps I (expand_volume p req)
    unfolding expand_volume
    expand_volume-Keeps req =
        >>=-Keeps I
          (refresh_or p (cannot_use_config p failed_precondition) (last_secret req.secrets))
          (λ u. expand_checked p req)
          (refresh_or-Keeps p I inner kept (cannot_use_config p failed_precondition)
            (last_secret req.secrets))
          (λ u. expand_checked-Keeps req)

    validate_given-Keeps :
        (req : ValidateRequest) (info : VolumeInfo) (caps : Option (List VolumeCapability))
        → Keeps I (validate_given p req info caps)
    unfolding validate_given
    validate_given-Keeps req info none = λ s i. i
    validate_given-Keeps req info (some caps) =
        >>=-Keeps I (refreshed_for p req) (λ u. answer_modes p req info caps)
          (refresh_or-Keeps p I inner kept (cannot_use_config p failed_precondition)
            (last_secret req.secrets))
          (λ u. answer_modes-Keeps req info caps)

    pub validate_volume_capabilities-Keeps :
        (req : ValidateRequest) → Keeps I (validate_volume_capabilities p req)
    unfolding validate_volume_capabilities validate_named validate_parsed
    validate_volume_capabilities-Keeps req =
        >>=-Keeps I (reject (is_empty req.volume_id) (provided p)) (λ u. validate_named p req)
          (reject-Keeps I (is_empty req.volume_id) (provided p))
          (λ u.
            >>=-Keeps I (parse_or p (wrong_format p (codes "VolumeId")) req.volume_id)
              (validate_parsed p req)
              (parse_or-Keeps p I inner (wrong_format p (codes "VolumeId")) req.volume_id)
              (λ info. validate_given-Keeps req info req.volume_capabilities))
