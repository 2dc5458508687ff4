-- ===== src/Driver/Controller/Volumes/Kept.antt =====
-- `CreateVolume` keeps what the refresh keeps and no call below changes.
use brickstor_csi_driver.Base.{
  Text, codes, List, [], ◌∷◌, Option, none, some, pure, fail, Error, Keeps, >>=-Keeps, if-Keeps,
  option-Keeps, outcome-Keeps, is_empty, has_byte, Bool, true, false, ◌&&◌, status,
  invalid_argument, failed_precondition, not_found,
}
use brickstor_csi_driver.Config.Nodes.{lookup, lookup_node, node_names}
use brickstor_csi_driver.Driver.VolumeId.{parse_volume_id}
use brickstor_csi_driver.Driver.Paging.{no_bsr_nodes}
use brickstor_csi_driver.Driver.Csi.{
  VolumeCapability, VolumeContentSource, from_snapshot, from_volume, from_other,
  CreateVolumeRequest, last_secret,
}
use brickstor_csi_driver.Driver.State.{Platform, State, refresh_config}
use brickstor_csi_driver.Driver.State.Kept.{IsInner, lift-Keeps}
use brickstor_csi_driver.Driver.Controller.Resolve.{ResolveParams, ResolveResponse, resolve_bsr}
use brickstor_csi_driver.Driver.Controller.Resolve.Kept.{resolve_bsr-Keeps}
use brickstor_csi_driver.Driver.Controller.Capabilities.{first_unsupported}
use brickstor_csi_driver.Driver.Controller.Snapshots.{cannot_use_config, wait_for}
use brickstor_csi_driver.Driver.Controller.Snapshots.Kept.{refresh_or-Keeps, wait_for-Keeps}
use brickstor_csi_driver.Driver.Controller.Create.{
  create_new_vol, create_new_vol_from_snap, create_cloned_vol,
}
use brickstor_csi_driver.Driver.Controller.Create.Kept.{
  create_new_vol-Keeps, create_new_vol_from_snap-Keeps, create_cloned_vol-Keeps,
}
use brickstor_csi_driver.Driver.Controller.Volumes.{
  reject, Placed, wrong_format, parse_or, placed, fill_from_snapshot, place_from_snapshot,
  create_from_snapshot, source_dataset, fill_from_volume, clone_from_volume, place_from_volume,
  create_from_volume, default_node, fill_empty, place_empty, create_empty, create_by_source,
  created_volume, configured, share_if_asked, publish, configured_publish, finish_create,
  check_capabilities, requested, create_checked, create_refreshed, refreshed, create_named,
  create_volume,
}

pub reject-Keeps : {S : Type 0} (I : S → Type 0) (b : Bool) (e : Error) → Keeps I (reject b e)
reject-Keeps I true e = λ s i. i
reject-Keeps I false e = λ s i. i

module _ {W : Type 0} (p : Platform W) (I : State W → Type 0) (inner : IsInner I) where
  pub parse_or-Keeps : (report : Text → Error) (id : Text) → Keeps I (parse_or p report id)
  unfolding parse_or
  parse_or-Keeps report id =
      outcome-Keeps I (parse_volume_id id) _ _ _ (λ info s i. i) (λ e s i. i) (λ s i. i)

  create_from_snapshot-Keeps :
      (req : CreateVolumeRequest) (q : ResolveParams) (id : Text)
      → Keeps I (create_from_snapshot p req q id)
  unfolding create_from_snapshot place_from_snapshot fill_from_snapshot
  create_from_snapshot-Keeps req q id =
      >>=-Keeps I (parse_or p (wrong_format p (codes "SnapshotId")) id)
        (place_from_snapshot p req q) (parse_or-Keeps (wrong_format p (codes "SnapshotId")) id)
        (λ info.
          let q' = record q { config_name = info.config_name } in
          >>=-Keeps I (resolve_bsr p q') (fill_from_snapshot p req info)
            (resolve_bsr-Keeps p I inner q')
            (λ resp.
              let path = (placed p resp req.name).volume_path in
              >>=-Keeps I
                (create_new_vol_from_snap p resp.bsr_provider info.path path req.required_bytes)
                (λ u. pure (placed p resp req.name))
                (create_new_vol_from_snap-Keeps p I inner resp.bsr_provider info.path path
                  req.required_bytes)
                (λ u s i. i)))

  source_dataset-Keeps :
      (id dataset_path path : Text) → Keeps I (source_dataset p id dataset_path path)
  unfolding source_dataset
  source_dataset-Keeps id dataset_path path =
      if-Keeps I (has_byte b'/' path) (pure path) _ (λ s i. i)
        (if-Keeps I (is_empty dataset_path) _ _ (λ s i. i) (λ s i. i))

  fill_from_volume-Keeps :
      (req : CreateVolumeRequest) (id : Text) (resp : ResolveResponse W) (src : Text)
      → Keeps I (fill_from_volume p req id resp src)
  unfolding fill_from_volume
  fill_from_volume-Keeps req id resp src =
      let path = (placed p resp req.name).volume_path in
      >>=-Keeps I (create_cloned_vol p resp src path req.name req.required_bytes)
        (λ u. pure (placed p resp req.name))
        (create_cloned_vol-Keeps p I inner resp src path req.name req.required_bytes) (λ u s i. i)

  create_from_volume-Keeps :
      (req : CreateVolumeRequest) (q : ResolveParams) (id : Text)
      → Keeps I (create_from_volume p req q id)
  unfolding create_from_volume place_from_volume clone_from_volume
  create_from_volume-Keeps req q id =
      >>=-Keeps I (parse_or p (wrong_format p (codes "VolumeId")) id) (place_from_volume p req q id)
        (parse_or-Keeps (wrong_format p (codes "VolumeId")) id)
        (λ info.
          let q' = record q { config_name = info.config_name } in
          >>=-Keeps I (resolve_bsr p q') (clone_from_volume p req id info)
            (resolve_bsr-Keeps p I inner q')
            (λ resp.
              >>=-Keeps I (source_dataset p id resp.dataset_path info.path)
                (fill_from_volume p req id resp)
                (source_dataset-Keeps id resp.dataset_path info.path)
                (fill_from_volume-Keeps req id resp)))

  first_name-Keeps :
      (q : ResolveParams) (names : List Text)
      → Keeps I {A = ResolveParams} (elim names [
        | [] ↦ fail (status not_found no_bsr_nodes)
        | n ∷ ns ↦ pure (record q { config_name = n })
      ])
  first_name-Keeps q [] = λ s i. i
  first_name-Keeps q (n ∷ ns) = λ s i. i

  default_node-Keeps : (q : ResolveParams) → Keeps I (default_node p q)
  unfolding default_node
  default_node-Keeps q s =
      if-Keeps I (is_empty q.dataset_path && is_empty q.config_name) _ (pure q)
        (first_name-Keeps q (node_names s.config)) (λ t i. i) s

  create_empty-Keeps :
      (req : CreateVolumeRequest) (q : ResolveParams) → Keeps I (create_empty p req q)
  unfolding create_empty place_empty fill_empty
  create_empty-Keeps req q =
      >>=-Keeps I (default_node p q) (place_empty p req) (default_node-Keeps q) (λ q'.
        >>=-Keeps I (resolve_bsr p q') (fill_empty p req) (resolve_bsr-Keeps p I inner q') (λ resp.
          let path = (placed p resp req.name).volume_path in
          >>=-Keeps I (create_new_vol p resp.bsr_provider path req.required_bytes)
            (λ u. pure (placed p resp req.name))
            (create_new_vol-Keeps p I inner resp.bsr_provider path req.required_bytes)
            (λ u s i. i)))

  create_by_source-Keeps :
      (req : CreateVolumeRequest) (q : ResolveParams) (source : Option VolumeContentSource)
      → Keeps I (create_by_source p req q source)
  unfolding create_by_source
  create_by_source-Keeps req q none = create_empty-Keeps req q
  create_by_source-Keeps req q (some (from_snapshot id)) =
      if-Keeps I (is_empty id) _ _ (create_empty-Keeps req q) (create_from_snapshot-Keeps req q id)
  create_by_source-Keeps req q (some (from_volume id)) =
      if-Keeps I (is_empty id) _ _ (create_empty-Keeps req q) (create_from_volume-Keeps req q id)
  create_by_source-Keeps req q (some from_other) = λ s i. i

  configured-Keeps : (v : Placed W) → Keeps I (configured p v)
  unfolding configured
  configured-Keeps v s =
      option-Keeps I (lookup_node s.config v.resolved.config_name) _ _ (λ t i. i) (λ d t i. i) s

  share_if_asked-Keeps :
      (req : CreateVolumeRequest) (v : Placed W) → Keeps I (share_if_asked p req v)
  unfolding share_if_asked
  share_if_asked-Keeps req v =
      option-Keeps I (lookup (codes "nfsAccessList") req.parameters) (pure tt) _ (λ s i. i)
        (λ access.
          lift-Keeps I inner (v.resolved.bsr_provider.create_nfs_share v.volume_path access))

  finish_create-Keeps :
      (req : CreateVolumeRequest) (zone : Text) (v : Placed W)
      → Keeps I (finish_create p req zone v)
  unfolding finish_create configured_publish publish
  finish_create-Keeps req zone v =
      let look = v.resolved.bsr_provider.get_dataset v.volume_path in
      >>=-Keeps I (wait_for p 10 look) (λ u. configured_publish p req zone v)
        (wait_for-Keeps p I inner 10 look)
        (λ u. >>=-Keeps I (configured p v) (publish p req zone v) (configured-Keeps v) (λ cfg.
          >>=-Keeps I (share_if_asked p req v) (λ t. pure (created_volume p req zone v cfg))
            (share_if_asked-Keeps req v) (λ t s i. i)))

  check_capabilities-Keeps :
      (caps : Option (List VolumeCapability)) → Keeps I (check_capabilities p caps)
  unfolding check_capabilities
  check_capabilities-Keeps none = λ s i. i
  check_capabilities-Keeps (some caps) =
      option-Keeps I (first_unsupported caps) (pure tt) _ (λ s i. i) (λ c s i. i)

  create_refreshed-Keeps : (req : CreateVolumeRequest) → Keeps I (create_refreshed p req)
  unfolding create_refreshed create_checked
  create_refreshed-Keeps req =
      >>=-Keeps I (check_capabilities p req.volume_capabilities) (λ u. create_checked p req)
        (check_capabilities-Keeps req.volume_capabilities)
        (λ u.
          >>=-Keeps I (create_by_source p req (requested p req) req.volume_content_source)
            (finish_create p req (requested p req).zone)
            (create_by_source-Keeps req (requested p req) req.volume_content_source)
            (finish_create-Keeps req (requested p req).zone))

  pub create_volume-Keeps :
      (req : CreateVolumeRequest)
      → ((secret : Text) → Keeps I (refresh_config p secret))
      → Keeps I (create_volume p req)
  unfolding create_volume create_named
  create_volume-Keeps req kept =
      >>=-Keeps I
        (reject (is_empty req.name) (status invalid_argument (codes "req.Name must be provided")))
        (λ u. create_named p req) (reject-Keeps I (is_empty req.name) _)
        (λ u.
          >>=-Keeps I (refreshed p req) (λ v. create_refreshed p req)
            (refresh_or-Keeps p I inner kept (cannot_use_config p failed_precondition)
              (last_secret req.secrets))
            (λ v. create_refreshed-Keeps req))
