-- ===== src/Driver/Controller/Snapshots/Kept.antt =====
-- `CreateSnapshot` and `DeleteSnapshot` keep what the refresh keeps and no call below changes.
use brickstor_csi_driver.Base.{
  ℕ, zero, suc, List, Text, codes, [], ◌∷◌, ◌++◌, none, some, true, Eff, pure, fail, Error, Keeps,
  >>=-Keeps, if-Keeps, recover-Keeps, option-Keeps, if◌then◌else◌, is_empty, is_not_exist, split,
  status, invalid_argument, failed_precondition,
}
use brickstor_csi_driver.Bsr.Provider.{ProviderInterface}
use brickstor_csi_driver.Config.Nodes.{lookup_node}
use brickstor_csi_driver.Driver.VolumeId.{VolumeInfo, volume_id, parse_volume_id, snapshot_path}
use brickstor_csi_driver.Driver.Csi.{CreateSnapshotRequest}
use brickstor_csi_driver.Driver.State.{Platform, State, lift, return, refresh_config}
use brickstor_csi_driver.Driver.State.Kept.{IsInner, lift-Keeps}
use brickstor_csi_driver.Driver.Controller.Resolve.{ResolveResponse, ResolveParams, resolve_bsr}
use brickstor_csi_driver.Driver.Controller.Resolve.Kept.{resolve_bsr-Keeps}
use brickstor_csi_driver.Driver.Controller.Snapshots.{
  refresh_or, pause, wait_for, names_under, has_duplicate, check_unique, make_snapshot,
  snapshot_if_new, create_snapshot_on_bsr, answer_snapshot, snapshot_volume, snapshot_parsed,
  snapshot_refreshed, create_snapshot, destroy_on, delete_known, delete_parsed, delete_parts,
  delete_snapshot, is_code_not_found, cannot_use_config,
}

module _ {W : Type 0} (p : Platform W) (I : State W → Type 0) (inner : IsInner I) where
  pub wait_for-Keeps : {A : Type 0} (n : ℕ) (look : Eff W A) → Keeps I (wait_for p n look)
  unfolding wait_for
  wait_for-Keeps zero look = λ s i. i
  wait_for-Keeps (suc n) look =
      recover-Keeps I (lift look) _ _ (lift-Keeps I inner look) (λ a s i. i)
        (λ e.
          >>=-Keeps I (pause p) (λ u. wait_for p n look) (λ s i. inner s (p.sleep s.world) i)
            (λ u. wait_for-Keeps n look))

  check_unique-Keeps :
      (b : ProviderInterface W) (default_dataset volume_path snap_name : Text)
      → Keeps I (check_unique p b default_dataset volume_path snap_name)
  unfolding check_unique
  check_unique-Keeps b default_dataset volume_path snap_name =
      recover-Keeps I (lift b.get_datasets) _ _ (lift-Keeps I inner b.get_datasets)
        (λ ds.
          let look = b.get_snapshots (names_under (default_dataset ++ codes "/") ds) in
          recover-Keeps I (lift look) _ _ (lift-Keeps I inner look)
            (λ snaps.
              if-Keeps I (has_duplicate volume_path snap_name snaps) _ _ (λ s i. i) (λ s i. i))
            (λ e s i. i))
        (λ e s i. i)

  make_snapshot-Keeps :
      (b : ProviderInterface W) (volume_path snap_name : Text)
      → Keeps I (make_snapshot p b volume_path snap_name)
  unfolding make_snapshot
  make_snapshot-Keeps b volume_path snap_name =
      let look = b.get_snapshot (snapshot_path volume_path snap_name) in
      recover-Keeps I (lift (b.create_snapshot volume_path snap_name)) _ _
        (lift-Keeps I inner (b.create_snapshot volume_path snap_name))
        (λ snap.
          >>=-Keeps I (wait_for p 10 look) (λ u. pure snap) (wait_for-Keeps 10 look) (λ u s i. i))
        (λ e s i. i)

  snapshot_if_new-Keeps :
      (b : ProviderInterface W) (config_name volume_path snap_name : Text)
      → Keeps I (snapshot_if_new p b config_name volume_path snap_name)
  unfolding snapshot_if_new
  snapshot_if_new-Keeps b config_name volume_path snap_name =
      let look = b.get_snapshot (snapshot_path volume_path snap_name) in
      recover-Keeps I (lift look) _ _ (lift-Keeps I inner look) (λ snap s i. i)
        (λ e s.
          >>=-Keeps I
            (elim (lookup_node s.config config_name) [
              | none ↦ pure tt
              | some d ↦ check_unique p b d.default_dataset volume_path snap_name
            ])
            (λ u. make_snapshot p b volume_path snap_name)
            (option-Keeps I (lookup_node s.config config_name) (pure tt) _ (λ t i. i)
              (λ d. check_unique-Keeps b d.default_dataset volume_path snap_name))
            (λ u. make_snapshot-Keeps b volume_path snap_name) s)

  pub create_snapshot_on_bsr-Keeps :
      (resolver : ResolveResponse W) (volume_path snap_name : Text)
      → Keeps I (create_snapshot_on_bsr p resolver volume_path snap_name)
  unfolding create_snapshot_on_bsr
  create_snapshot_on_bsr-Keeps resolver volume_path snap_name =
      let look = resolver.bsr_provider.get_dataset volume_path in
      recover-Keeps I (lift look) _ _ (lift-Keeps I inner look)
        (λ d.
          snapshot_if_new-Keeps resolver.bsr_provider resolver.config_name volume_path snap_name)
        (λ e s i. i)

  destroy_on-Keeps : (resp : ResolveResponse W) (path : Text) → Keeps I (destroy_on p resp path)
  unfolding destroy_on
  destroy_on-Keeps resp path =
      let m = resp.bsr_provider.destroy_snapshot path in
      recover-Keeps I (lift m) _ _ (lift-Keeps I inner m) (λ u s i. i)
        (λ e. if-Keeps I (is_not_exist p.grpc e) _ _ (λ s i. i) (λ s i. i))

  abbrev at : VolumeInfo → ResolveParams
  at info = record { dataset_path = info.path; zone = []; config_name = info.config_name }

  delete_known-Keeps :
      (info : VolumeInfo) (snapshot : Text) → Keeps I (delete_known p info snapshot)
  unfolding delete_known
  delete_known-Keeps info snapshot =
      recover-Keeps I (resolve_bsr p (at info)) _ _ (resolve_bsr-Keeps p I inner (at info))
        (λ resp. destroy_on-Keeps resp (snapshot_path info.path snapshot))
        (λ e. if-Keeps I (is_code_not_found e) _ _ (λ s i. i) (λ s i. i))

  delete_parts-Keeps : (parts : List Text) → Keeps I (delete_parts p parts)
  unfolding delete_parts delete_parsed
  delete_parts-Keeps (volume ∷ snapshot ∷ []) =
      >>=-Keeps I (return (parse_volume_id volume)) (λ info. delete_known p info snapshot)
        (λ s i. i) (λ info. delete_known-Keeps info snapshot)
  delete_parts-Keeps [] = λ s i. i
  delete_parts-Keeps (a ∷ []) = λ s i. i
  delete_parts-Keeps (a ∷ b ∷ c ∷ rest) = λ s i. i

  snapshot_parsed-Keeps :
      (req : CreateSnapshotRequest) (info : VolumeInfo) → Keeps I (snapshot_parsed p req info)
  unfolding snapshot_parsed snapshot_volume answer_snapshot
  snapshot_parsed-Keeps req info =
      if-Keeps I (is_empty req.name) _ _ (λ s i. i)
        (>>=-Keeps I (resolve_bsr p (at info)) (answer_snapshot p req info)
          (resolve_bsr-Keeps p I inner (at info))
          (λ resp.
            >>=-Keeps I (create_snapshot_on_bsr p resp info.path req.name)
              (λ snap. pure (record {
                snapshot_id = volume_id resp.config_name (snapshot_path info.path req.name);
                source_volume_id = req.source_volume_id;
                creation_time = snap.creation_time;
                ready_to_use = true;
              }))
              (create_snapshot_on_bsr-Keeps resp info.path req.name) (λ snap s i. i)))

  snapshot_refreshed-Keeps : (req : CreateSnapshotRequest) → Keeps I (snapshot_refreshed p req)
  unfolding snapshot_refreshed
  snapshot_refreshed-Keeps req =
      if-Keeps I (is_empty req.source_volume_id) _ _ (λ s i. i)
        (>>=-Keeps I (return (parse_volume_id req.source_volume_id)) (snapshot_parsed p req)
          (λ s i. i) (snapshot_parsed-Keeps req))

  module _ (refreshed : (secret : Text) → Keeps I (refresh_config p secret)) where
    pub refresh_or-Keeps :
        (report : Error → Error) (secret : Text) → Keeps I (refresh_or p report secret)
    refresh_or-Keeps report secret =
        recover-Keeps I (refresh_config p secret) (λ u. pure tt) (λ e. fail (report e))
          (refreshed secret) (λ u s i. i) (λ e s i. i)

    pub delete_snapshot-Keeps : (id : Text) → Keeps I (delete_snapshot p id)
    unfolding delete_snapshot
    delete_snapshot-Keeps id =
        >>=-Keeps I (refresh_or p (cannot_use_config p failed_precondition) [])
          (λ u.
            if is_empty id
            then fail (status invalid_argument (codes "Snapshot ID must be provided"))
            else delete_parts p (split b'@' id))
          (refresh_or-Keeps (cannot_use_config p failed_precondition) [])
          (λ u. if-Keeps I (is_empty id) _ _ (λ s i. i) (delete_parts-Keeps (split b'@' id)))

    pub create_snapshot-Keeps : (req : CreateSnapshotRequest) → Keeps I (create_snapshot p req)
    unfolding create_snapshot
    create_snapshot-Keeps req =
        >>=-Keeps I (refresh_or p (cannot_use_config p failed_precondition) [])
          (λ u. snapshot_refreshed p req)
          (refresh_or-Keeps (cannot_use_config p failed_precondition) [])
          (λ u. snapshot_refreshed-Keeps req)
