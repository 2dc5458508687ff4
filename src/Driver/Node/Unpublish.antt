-- ===== src/Driver/Node/Unpublish.antt =====
-- `NodeUnpublishVolume` of pkg/driver/nodeServer.go.
pub mod Cleared
pub mod Kept
use brickstor_csi_driver.Base.{
  Bool, true, false, Text, codes, ◌++◌, is_empty, Eff, pure, fail, ◌>>=◌, ◌>>◌, Error, status,
  internal, Attempt, value, failed, attempt, if◌then◌else◌,
}
use brickstor_csi_driver.Driver.State.{Platform, State, lift}
use brickstor_csi_driver.Driver.Node.Host.{Host}
use brickstor_csi_driver.Driver.Node.Mount.{told}
use brickstor_csi_driver.Driver.Node.Resolve.{must_be_given}

module _ {W : Type 0} (p : Platform W) (h : Host W) where
  remove_ignoring : Text → Eff (State W) (Unit {0})
  remove_ignoring target = do r ← attempt (lift (h.remove target)); pure tt

  unfoldable pub remove_unmounted : Text → Eff (State W) (Unit {0})
  remove_unmounted target = do
    r ← attempt (lift (h.remove target))
    elim r [
      | value u ↦ pure tt
      | failed e ↦
          if h.is_not_exist e
          then pure tt
          else fail (
              status internal
                (told p h (codes "Cannot remove unmounted target path '") target (codes "': ") e))
    ]

  unfoldable pub unmount_target : Text → Eff (State W) (Unit {0})
  unfolding remove_unmounted
  unmount_target target = do
    r ← attempt (lift (h.unmount target))
    elim r [
      | value u ↦ remove_unmounted target
      | failed e ↦ fail (
          status internal
            (told p h (codes "Failed to unmount target path '") target (codes "': ") e))
    ]

  unfoldable pub clear_target : Text → Eff (State W) (Unit {0})
  unfolding remove_ignoring unmount_target
  clear_target target = do
    r ← attempt (lift (h.is_likely_not_mount_point target))
    elim r [
      | value free ↦ if free then remove_ignoring target else unmount_target target
      | failed e ↦
          if h.is_not_exist e
          then pure tt
          else fail (
              status internal (
                told p h (codes "Cannot ensure that target path '") target
                  (codes "' is a mount point: '") e
                ++ codes "'"))
    ]

  -- `NodeUnpublishVolume`
  unfoldable pub node_unpublish_volume : Text → Text → Eff (State W) (Unit {0})
  unfolding clear_target
  node_unpublish_volume id target =
      if is_empty id
      then fail (must_be_given (codes "Volume ID"))
      else if is_empty target
      then fail (must_be_given (codes "Target path"))
      else clear_target target
