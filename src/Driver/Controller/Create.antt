-- ===== src/Driver/Controller/Create.antt =====
-- The three ways in which `CreateVolume` of pkg/driver/controllerServer.go makes a dataset.
pub mod Outcomes
pub mod Source
pub mod Kept
use brickstor_csi_driver.Base.{
  Attempt, ◌++◌, Text, codes, Eff, pure, fail, ◌>>=◌, ◌>>◌, Error, status, not_found,
  already_exists, internal, value, failed, attempt, if◌then◌else◌, is_exists, error_text, ℤ,
  ltb_int, is_zero, not, ◌&&◌,
}
use brickstor_csi_driver.Strconv.{format_int}
use brickstor_csi_driver.Bsr.Provider.{Dataset, Snapshot, ProviderInterface, ref_quota_size}
use brickstor_csi_driver.Driver.VolumeId.{snapshot_path}
use brickstor_csi_driver.Driver.State.{Platform, State, lift}
use brickstor_csi_driver.Driver.Controller.Resolve.{ResolveResponse}
use brickstor_csi_driver.Driver.Controller.Snapshots.{create_snapshot_on_bsr}

module _ {W : Type 0} (p : Platform W) where
  abbrev in_quotes : Text → Text → Text → Text
  in_quotes before name after = before ++ (name ++ after)

  wrong_size : Text → ℤ → Dataset → Error
  wrong_size path capacity ds = status already_exists (
      in_quotes (codes "Existing volume '") path (
        codes "' has incorrect size (req="
        ++ (format_int capacity
            ++ (codes ", curr=" ++ (format_int (ref_quota_size ds) ++ codes ")")))))

  -- A volume that exists will do if it is large enough, or if no size is asked for.
  unfoldable pub check_existing : ProviderInterface W → Text → ℤ → Eff (State W) (Unit {0})
  unfolding wrong_size
  check_existing b path capacity = do
    r ← attempt (lift (b.get_dataset path))
    elim r [
      | failed e ↦ fail (
          status internal (
            in_quotes (codes "Volume '") path
              (codes "' already exists, but size check failed: " ++ error_text p.grpc e)))
      | value ds ↦
          if not (is_zero capacity) && ltb_int (ref_quota_size ds) capacity
          then fail (wrong_size path capacity ds)
          else pure tt
    ]

  -- `createNewVol`
  unfoldable pub create_new_vol : ProviderInterface W → Text → ℤ → Eff (State W) (Unit {0})
  unfolding check_existing
  create_new_vol b path capacity = do
    r ← attempt (lift (b.create_dataset path capacity))
    elim r [
      | value u ↦ pure tt
      | failed e ↦
          if is_exists p.grpc e
          then check_existing b path capacity
          else fail (
              status internal (
                in_quotes (codes "Cannot create volume '") path
                  (codes "': " ++ error_text p.grpc e)))
    ]

  cannot_clone : Text → Text → Error → Text
  cannot_clone path snap e =
      in_quotes (codes "Cannot create volume '") path
        (in_quotes (codes "' using snapshot '") snap (codes "': " ++ error_text p.grpc e))

  unfoldable pub clone_on :
      ProviderInterface W → (Text → Error) → Text → Text → ℤ → Eff (State W) (Unit {0})
  unfolding cannot_clone
  clone_on b report snap path capacity = do
    r ← attempt (lift (b.clone_snapshot snap path capacity))
    elim r [
      | value u ↦ pure tt
      | failed e ↦ if is_exists p.grpc e then pure tt else fail (report (cannot_clone path snap e))
    ]

  use_snapshot : ProviderInterface W → Text → ℤ → Text → Attempt Snapshot → Eff (State W) (Unit {0})
  use_snapshot b path capacity snap_name (failed e) = fail (
      status not_found (
        in_quotes (codes "Failed to find snapshot '") snap_name
          (codes "': " ++ error_text p.grpc e)))
  use_snapshot b path capacity snap_name (value snap) =
      clone_on b (status internal) snap.path path capacity

  -- `createNewVolFromSnap`
  unfoldable pub create_new_vol_from_snap :
      ProviderInterface W → Text → Text → ℤ → Eff (State W) (Unit {0})
  unfolding use_snapshot
  create_new_vol_from_snap b snap_name path capacity = do
    found ← attempt (lift (b.get_snapshot snap_name))
    use_snapshot b path capacity snap_name found

  -- `createClonedVol`
  unfoldable pub create_cloned_vol :
      ResolveResponse W → Text → Text → Text → ℤ → Eff (State W) (Unit {0})
  unfolding clone_on
  create_cloned_vol resolver source path name capacity = do
    create_snapshot_on_bsr p resolver source (codes "k8s-clone-snapshot-" ++ name)
    clone_on resolver.bsr_provider (status not_found)
        (snapshot_path source (codes "k8s-clone-snapshot-" ++ name)) path capacity
