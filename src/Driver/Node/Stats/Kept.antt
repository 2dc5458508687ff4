-- ===== src/Driver/Node/Stats/Kept.antt =====
-- `NodeGetVolumeStats` keeps what the refresh keeps and no call below changes.
use brickstor_csi_driver.Base.{Text, [], Eff, ◌>>=◌, Keeps, >>=-Keeps, if-Keeps, is_empty, ℤ}
use brickstor_csi_driver.Bsr.Provider.{ProviderInterface}
use brickstor_csi_driver.Driver.VolumeId.{VolumeInfo}
use brickstor_csi_driver.Driver.State.{Platform, State, refresh_node_config}
use brickstor_csi_driver.Driver.State.Kept.{IsInner}
use brickstor_csi_driver.Driver.Node.Resolve.{
  not_nil, refresh_node_or_fail, read_volume_id, node_resolve_bsr, or_no_filesystem,
}
use brickstor_csi_driver.Driver.Node.Resolve.Kept.{
  node_resolve_bsr-Keeps, not_nil-Keeps, or_no_filesystem-Keeps, refresh_node_or_fail-Keeps,
}
use brickstor_csi_driver.Driver.Node.Stats.{available_on, node_get_volume_stats}

module _ {W : Type 0} (p : Platform W) (I : State W → Type 0) (inner : IsInner I) where
  available_on-Keeps : (id : Text) (info : VolumeInfo) → Keeps I (available_on p id info)
  unfolding available_on
  available_on-Keeps id info =
      let capacity : ProviderInterface W → Eff (State W) ℤ =
        λ b. or_no_filesystem p id (b.get_ds_avail_cap info.path) in
      >>=-Keeps I (node_resolve_bsr p info.config_name info.path)
        (λ found. not_nil p found >>= capacity)
        (node_resolve_bsr-Keeps p I inner info.config_name info.path)
        (λ found.
          >>=-Keeps I (not_nil p found) capacity (not_nil-Keeps p I inner found)
            (λ b. or_no_filesystem-Keeps p I inner id (b.get_ds_avail_cap info.path)))

  pub node_get_volume_stats-Keeps :
      (volume_path id : Text)
      → Keeps I (refresh_node_config p [])
      → Keeps I (node_get_volume_stats p volume_path id)
  unfolding node_get_volume_stats read_volume_id
  node_get_volume_stats-Keeps volume_path id refreshed =
      if-Keeps I (is_empty volume_path) _ _ (λ s i. i)
        (if-Keeps I (is_empty id) _ _ (λ s i. i)
          (>>=-Keeps I (refresh_node_or_fail p []) (λ u. read_volume_id p id >>= available_on p id)
            (refresh_node_or_fail-Keeps p I inner [] refreshed)
            (λ u.
              >>=-Keeps I (read_volume_id p id) (available_on p id) (λ s i. i)
                (available_on-Keeps id))))
