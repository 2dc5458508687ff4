-- ===== src/Driver/Node/Unpublish/Kept.antt =====
-- `NodeUnpublishVolume` changes nothing of the state but the world.
use brickstor_csi_driver.Base.{
  Text, pure, Keeps, >>=-Keeps, if-Keeps, recover-Keeps, is_empty, attempt,
}
use brickstor_csi_driver.Driver.State.{Platform, State, lift}
use brickstor_csi_driver.Driver.State.Kept.{IsInner, lift-Keeps}
use brickstor_csi_driver.Driver.Node.Host.{Host}
use brickstor_csi_driver.Driver.Node.Unpublish.{
  remove_ignoring, remove_unmounted, unmount_target, clear_target, node_unpublish_volume,
}

module _ {W : Type 0} (p : Platform W) (h : Host W) (I : State W → Type 0) (inner : IsInner I) where
  remove_ignoring-Keeps : (target : Text) → Keeps I (remove_ignoring p h target)
  unfolding remove_ignoring
  remove_ignoring-Keeps target =
      >>=-Keeps I (attempt (lift (h.remove target))) (λ r. pure tt)
        (λ s i. inner s (h.remove target s.world).1 i) (λ r s i. i)

  remove_unmounted-Keeps : (target : Text) → Keeps I (remove_unmounted p h target)
  unfolding remove_unmounted
  remove_unmounted-Keeps target =
      recover-Keeps I (lift (h.remove target)) _ _ (lift-Keeps I inner (h.remove target))
        (λ u s i. i) (λ e. if-Keeps I (h.is_not_exist e) _ _ (λ s i. i) (λ s i. i))

  unmount_target-Keeps : (target : Text) → Keeps I (unmount_target p h target)
  unfolding unmount_target
  unmount_target-Keeps target =
      recover-Keeps I (lift (h.unmount target)) _ _ (lift-Keeps I inner (h.unmount target))
        (λ u. remove_unmounted-Keeps target) (λ e s i. i)

  clear_target-Keeps : (target : Text) → Keeps I (clear_target p h target)
  unfolding clear_target
  clear_target-Keeps target =
      recover-Keeps I (lift (h.is_likely_not_mount_point target)) _ _
        (lift-Keeps I inner (h.is_likely_not_mount_point target))
        (λ free. if-Keeps I free _ _ (remove_ignoring-Keeps target) (unmount_target-Keeps target))
        (λ e. if-Keeps I (h.is_not_exist e) _ _ (λ s i. i) (λ s i. i))

  pub node_unpublish_volume-Keeps :
      (id target : Text) → Keeps I (node_unpublish_volume p h id target)
  unfolding node_unpublish_volume
  node_unpublish_volume-Keeps id target =
      if-Keeps I (is_empty id) _ _ (λ s i. i)
        (if-Keeps I (is_empty target) _ _ (λ s i. i) (clear_target-Keeps target))
