-- ===== src/Driver/Node/Stats.antt =====
-- `NodeGetVolumeStats`, and the calls that are not implemented, of pkg/driver/nodeServer.go.
pub mod Kept
use brickstor_csi_driver.Base.{
  [], Text, codes, ℤ, is_empty, Eff, fail, status, unimplemented, ◌>>=◌, ◌>>◌, if◌then◌else◌,
}
use brickstor_csi_driver.Driver.State.{Platform, State}
use brickstor_csi_driver.Driver.VolumeId.{VolumeInfo}
use brickstor_csi_driver.Driver.Node.Resolve.{
  must_be_given, not_nil, refresh_node_or_fail, read_volume_id, node_resolve_bsr, or_no_filesystem,
}

module _ {W : Type 0} (p : Platform W) where
  available_on : Text → VolumeInfo → Eff (State W) ℤ
  unfolding node_resolve_bsr or_no_filesystem
  available_on id info = do
    found ← node_resolve_bsr p info.config_name info.path
    b ← not_nil p found
    or_no_filesystem p id (b.get_ds_avail_cap info.path)

  -- `NodeGetVolumeStats`: the available bytes of the one usage that it answers with.
  unfoldable pub node_get_volume_stats : Text → Text → Eff (State W) ℤ
  unfolding refresh_node_or_fail read_volume_id available_on
  node_get_volume_stats volume_path id =
      if is_empty volume_path
      then fail (must_be_given (codes "req.VolumePath"))
      else if is_empty id
      then fail (must_be_given (codes "req.VolumeId"))
      else do refresh_node_or_fail p []; info ← read_volume_id p id; available_on id info

-- `NodeStageVolume`, `NodeUnstageVolume` and `NodeExpandVolume`
abbrev pub node_not_implemented : {S A : Type 0} → Eff S A
node_not_implemented = fail (status unimplemented [])
