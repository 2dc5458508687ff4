-- ===== src/Driver/Controller/Create/Kept.antt =====
-- The making of a dataset changes nothing of the state but the world.
use brickstor_csi_driver.Base.{
  Text, codes, ◌++◌, Error, Keeps, >>=-Keeps, if-Keeps, recover-Keeps, attempt, Attempt, value,
  failed, is_exists, ℤ, ltb_int, is_zero, not, ◌&&◌, status, not_found, internal,
}
use brickstor_csi_driver.Bsr.Provider.{Snapshot, ProviderInterface, ref_quota_size}
use brickstor_csi_driver.Driver.VolumeId.{snapshot_path}
use brickstor_csi_driver.Driver.State.{Platform, State, lift}
use brickstor_csi_driver.Driver.State.Kept.{IsInner, lift-Keeps}
use brickstor_csi_driver.Driver.Controller.Resolve.{ResolveResponse}
use brickstor_csi_driver.Driver.Controller.Snapshots.{create_snapshot_on_bsr}
use brickstor_csi_driver.Driver.Controller.Snapshots.Kept.{create_snapshot_on_bsr-Keeps}
use brickstor_csi_driver.Driver.Controller.Create.{
  check_existing, create_new_vol, clone_on, use_snapshot, create_new_vol_from_snap,
  create_cloned_vol,
}

module _ {W : Type 0} (p : Platform W) (I : State W → Type 0) (inner : IsInner I) where
  check_existing-Keeps :
      (b : ProviderInterface W) (path : Text) (capacity : ℤ)
      → Keeps I (check_existing p b path capacity)
  unfolding check_existing
  check_existing-Keeps b path capacity =
      recover-Keeps I (lift (b.get_dataset path)) _ _ (lift-Keeps I inner (b.get_dataset path))
        (λ ds.
          if-Keeps I (not (is_zero capacity) && ltb_int (ref_quota_size ds) capacity) _ _ (λ s i. i)
            (λ s i. i))
        (λ e s i. i)

  pub create_new_vol-Keeps :
      (b : ProviderInterface W) (path : Text) (capacity : ℤ)
      → Keeps I (create_new_vol p b path capacity)
  unfolding create_new_vol
  create_new_vol-Keeps b path capacity =
      let m = b.create_dataset path capacity in
      recover-Keeps I (lift m) _ _ (lift-Keeps I inner m) (λ u s i. i)
        (λ e. if-Keeps I (is_exists p.grpc e) _ _ (check_existing-Keeps b path capacity) (λ s i. i))

  clone_on-Keeps :
      (b : ProviderInterface W) (report : Text → Error) (snap path : Text) (capacity : ℤ)
      → Keeps I (clone_on p b report snap path capacity)
  unfolding clone_on
  clone_on-Keeps b report snap path capacity =
      let m = b.clone_snapshot snap path capacity in
      recover-Keeps I (lift m) _ _ (lift-Keeps I inner m) (λ u s i. i)
        (λ e. if-Keeps I (is_exists p.grpc e) _ _ (λ s i. i) (λ s i. i))

  use_snapshot-Keeps :
      (b : ProviderInterface W) (path : Text) (capacity : ℤ) (name : Text)
      (found : Attempt Snapshot)
      → Keeps I (use_snapshot p b path capacity name found)
  unfolding use_snapshot
  use_snapshot-Keeps b path capacity name (failed e) = λ s i. i
  use_snapshot-Keeps b path capacity name (value snap) =
      clone_on-Keeps b (status internal) snap.path path capacity

  pub create_new_vol_from_snap-Keeps :
      (b : ProviderInterface W) (name path : Text) (capacity : ℤ)
      → Keeps I (create_new_vol_from_snap p b name path capacity)
  unfolding create_new_vol_from_snap
  create_new_vol_from_snap-Keeps b name path capacity =
      >>=-Keeps I (attempt (lift (b.get_snapshot name))) (use_snapshot p b path capacity name)
        (λ s i. inner s (b.get_snapshot name s.world).1 i) (use_snapshot-Keeps b path capacity name)

  pub create_cloned_vol-Keeps :
      (resolver : ResolveResponse W) (source path name : Text) (capacity : ℤ)
      → Keeps I (create_cloned_vol p resolver source path name capacity)
  unfolding create_cloned_vol
  create_cloned_vol-Keeps resolver source path name capacity =
      let snap = codes "k8s-clone-snapshot-" ++ name in
      >>=-Keeps I (create_snapshot_on_bsr p resolver source snap)
        (λ u.
          clone_on p resolver.bsr_provider (status not_found) (snapshot_path source snap) path
            capacity)
        (create_snapshot_on_bsr-Keeps p I inner resolver source snap)
        (λ u.
          clone_on-Keeps resolver.bsr_provider (status not_found) (snapshot_path source snap) path
            capacity)
