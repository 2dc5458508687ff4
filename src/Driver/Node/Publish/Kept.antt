-- ===== src/Driver/Node/Publish/Kept.antt =====
-- `NodePublishVolume` keeps what the refresh keeps and no call below changes.
use brickstor_csi_driver.Base.{
  List, Text, codes, Option, none, some, Eff, pure, fail, ◌>>=◌, Keeps, >>=-Keeps, if-Keeps,
  recover-Keeps, is_empty, text_eq, contains, error_text, ℕ, Bool,
}
use brickstor_csi_driver.Bsr.Provider.{Dataset, ProviderInterface}
use brickstor_csi_driver.Config.Nodes.{BsrData, lookup_node}
use brickstor_csi_driver.Config.Validate.{fs_type_nfs, fs_type_cifs, contains_string}
use brickstor_csi_driver.Driver.Csi.{VolumeCapability, last_secret}
use brickstor_csi_driver.Driver.VolumeId.{VolumeInfo}
use brickstor_csi_driver.Driver.State.{
  Platform, State, lift, return, get_state, refresh_node_config,
}
use brickstor_csi_driver.Driver.State.Kept.{IsInner, lift-Keeps}
use brickstor_csi_driver.Driver.Node.Host.{Host}
use brickstor_csi_driver.Driver.Node.Options.{mount_options, data_ip, fs_type}
use brickstor_csi_driver.Driver.Node.Mount.Kept.{mount_nfs-Keeps, mount_cifs-Keeps}
use brickstor_csi_driver.Driver.Node.Resolve.{
  must_be_given, not_nil, refresh_node_or_fail, read_volume_id, node_resolve_bsr, or_no_filesystem,
}
use brickstor_csi_driver.Driver.Node.Resolve.Kept.{
  node_resolve_bsr-Keeps, not_nil-Keeps, or_no_filesystem-Keeps, refresh_node_or_fail-Keeps,
}
use brickstor_csi_driver.Driver.Node.Publish.{
  PublishRequest, mount_as, mount_unless_mounted, set_permissions, get_mount_point_permissions,
  finish_publish, publish_dataset, configured, publish_parsed, publish_checked, node_publish_volume,
}

module _ {W : Type 0} (p : Platform W) (h : Host W) (I : State W → Type 0) (inner : IsInner I) where
  mount_as-Keeps :
      (fs target : Text) (ro : Bool) (b : ProviderInterface W) (ds : Dataset) (ip : Text)
      (options : List Text)
      → Keeps I (mount_as p h fs target ro b ds ip options)
  unfolding mount_as
  mount_as-Keeps fs target ro b ds ip options =
      if-Keeps I (text_eq fs fs_type_nfs) _ _
        (mount_nfs-Keeps p h I inner target ro b ds ip options)
        (if-Keeps I (text_eq fs fs_type_cifs) _ _
          (mount_cifs-Keeps p h I inner target ro b ds ip options) (λ s i. i))

  mount_unless_mounted-Keeps :
      (m : Eff (State W) (Unit {0})) → Keeps I m → Keeps I (mount_unless_mounted p h m)
  unfolding mount_unless_mounted
  mount_unless_mounted-Keeps m kept =
      recover-Keeps I m _ _ kept (λ u s i. i)
        (λ e.
          if-Keeps I (contains (error_text p.grpc e) (codes "already a mount point")) _ _ (λ s i. i)
            (λ s i. i))

  set_permissions-Keeps :
      (target : Text) (options : List Text) (mode : ℕ)
      → Keeps I (set_permissions p h target options mode)
  unfolding set_permissions
  set_permissions-Keeps target options mode =
      if-Keeps I (contains_string options (codes "ro")) (pure tt) _ (λ s i. i)
        (recover-Keeps I (lift (h.chmod target mode)) _ _ (lift-Keeps I inner (h.chmod target mode))
          (λ u s i. i)
          (λ e.
            if-Keeps I (contains (error_text p.grpc e) (codes "read-only")) _ _ (λ s i. i)
              (λ s i. i)))

  finish_publish-Keeps :
      (req : PublishRequest) (options : List Text) → Keeps I (finish_publish p h req options)
  unfolding finish_publish
  finish_publish-Keeps req options =
      >>=-Keeps I (return (get_mount_point_permissions p h req.volume_context))
        (set_permissions p h req.target_path options) (λ s i. i)
        (set_permissions-Keeps req.target_path options)

  publish_dataset-Keeps :
      (req : PublishRequest) (c : VolumeCapability) (cfg : BsrData) (b : ProviderInterface W)
      (ds : Dataset)
      → Keeps I (publish_dataset p h req c cfg b ds)
  unfolding publish_dataset
  publish_dataset-Keeps req c cfg b ds =
      let options = mount_options req.read_only c req.volume_context cfg in
      let ip = data_ip req.volume_context cfg in
      let fs = fs_type req.volume_context cfg in
      >>=-Keeps I
        (mount_unless_mounted p h (mount_as p h fs req.target_path req.read_only b ds ip options))
        (λ u. finish_publish p h req options)
        (mount_unless_mounted-Keeps _
          (mount_as-Keeps fs req.target_path req.read_only b ds ip options))
        (λ u. finish_publish-Keeps req options)

  configured-Keeps : (name : Text) (d : Option BsrData) → Keeps I (configured p h name d)
  unfolding configured
  configured-Keeps name none = λ s i. i
  configured-Keeps name (some d) = λ s i. i

  abbrev on_dataset :
      PublishRequest
      → VolumeCapability
      → Text
      → BsrData
      → ProviderInterface W
      → Eff (State W) (Unit {0})
  on_dataset req c path cfg b = do
    ds ← or_no_filesystem p path (b.get_dataset path)
    publish_dataset p h req c cfg b ds

  on_dataset-Keeps :
      (req : PublishRequest) (c : VolumeCapability) (path : Text) (cfg : BsrData)
      (b : ProviderInterface W)
      → Keeps I (on_dataset req c path cfg b)
  on_dataset-Keeps req c path cfg b =
      >>=-Keeps I (or_no_filesystem p path (b.get_dataset path)) (publish_dataset p h req c cfg b)
        (or_no_filesystem-Keeps p I inner path (b.get_dataset path))
        (publish_dataset-Keeps req c cfg b)

  abbrev on_found :
      PublishRequest
      → VolumeCapability
      → Text
      → Option (ProviderInterface W)
      → BsrData
      → Eff (State W) (Unit {0})
  on_found req c path found cfg = not_nil p found >>= on_dataset req c path cfg

  publish_parsed-Keeps :
      (req : PublishRequest) (c : VolumeCapability) (info : VolumeInfo)
      → Keeps I (publish_parsed p h req c info)
  unfolding publish_parsed
  publish_parsed-Keeps req c info =
      >>=-Keeps I (node_resolve_bsr p info.config_name info.path)
        (λ found. get_state >>= (λ s.
          configured p h info.config_name (lookup_node s.config info.config_name)
          >>= on_found req c info.path found))
        (node_resolve_bsr-Keeps p I inner info.config_name info.path)
        (λ found s.
          >>=-Keeps I (configured p h info.config_name (lookup_node s.config info.config_name))
            (on_found req c info.path found)
            (configured-Keeps info.config_name (lookup_node s.config info.config_name))
            (λ cfg.
              >>=-Keeps I (not_nil p found) (on_dataset req c info.path cfg)
                (not_nil-Keeps p I inner found) (on_dataset-Keeps req c info.path cfg))
            s)

  module _ (refreshed : (secret : Text) → Keeps I (refresh_node_config p secret)) where
    publish_checked-Keeps :
        (req : PublishRequest) (c : VolumeCapability) → Keeps I (publish_checked p h req c)
    unfolding publish_checked read_volume_id
    publish_checked-Keeps req c =
        >>=-Keeps I (refresh_node_or_fail p (last_secret req.secrets))
          (λ u. read_volume_id p req.volume_id >>= publish_parsed p h req c)
          (refresh_node_or_fail-Keeps p I inner (last_secret req.secrets)
            (refreshed (last_secret req.secrets)))
          (λ u.
            >>=-Keeps I (read_volume_id p req.volume_id) (publish_parsed p h req c) (λ s i. i)
              (publish_parsed-Keeps req c))

    pub node_publish_volume-Keeps : (req : PublishRequest) → Keeps I (node_publish_volume p h req)
    unfolding node_publish_volume
    node_publish_volume-Keeps req =
        if-Keeps I (is_empty req.volume_id) _ _ (λ s i. i)
          (if-Keeps I (is_empty req.target_path) _ _ (λ s i. i)
            (by_capability req.volume_capability))
      where
        by_capability :
            (c : Option VolumeCapability)
            → Keeps I {A = Unit {0}} (elim c [
              | none ↦ fail (must_be_given (codes "req.VolumeCapability"))
              | some k ↦ publish_checked p h req k
            ])
        by_capability none = λ s i. i
        by_capability (some k) = publish_checked-Keeps req k
