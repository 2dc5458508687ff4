-- ===== src/Driver/Controller/Create/Source.antt =====
-- What a volume from a snapshot is cloned from, over the provider of pkg/bsr.
use brickstor_csi_driver.Base.{
  ◌≡◌, ◌∙◌, >>=-ok, attempt, attempted, ap, Text, ok, status, internal, Lacks, ℤ,
}
use brickstor_csi_driver.Bsr.Provider.{Snapshot, Provider, ProviderInterface}
use brickstor_csi_driver.Bsr.Api.{get_snapshot, provider_interface}
use brickstor_csi_driver.Bsr.Api.Snapshots.{get_snapshot-path}
use brickstor_csi_driver.Driver.VolumeId.{snapshot_path}
use brickstor_csi_driver.Driver.State.{Platform, State, lift}
use brickstor_csi_driver.Driver.Controller.Create.{use_snapshot, clone_on, create_new_vol_from_snap}

module _ {W : Type 0} (p : Platform W) (b : Provider) where
  -- The provider that the resolver makes for a node.
  abbrev provider : ProviderInterface W
  provider = provider_interface p.transport b

  -- For a snapshot "dataset@name" that the BrickStor has, `createNewVolFromSnap` asks for a clone
  -- with the dataset as its source: the snapshot's name is not part of the request.
  pub create_new_vol_from_snap-source :
      (dataset name path : Text) (capacity : ℤ) (s : State W) (snap : Snapshot)
      → Lacks b'@' dataset
      → Lacks b'@' name
      → (get_snapshot p.transport b (snapshot_path dataset name) s.world).0 ≡ ok snap
      → create_new_vol_from_snap p provider (snapshot_path dataset name) path capacity s
        ≡ clone_on p provider (status internal) dataset path capacity (record s {
          world = (get_snapshot p.transport b (snapshot_path dataset name) s.world).1;
        })
  unfolding create_new_vol_from_snap clone_on
  create_new_vol_from_snap-source dataset name path capacity s snap hd hn found =
      let after : State W = record s {
        world = (get_snapshot p.transport b (snapshot_path dataset name) s.world).1;
      } in
      >>=-ok (attempt (lift (get_snapshot p.transport b (snapshot_path dataset name))))
        (use_snapshot p provider path capacity (snapshot_path dataset name)) s (ap attempted found)
      ∙ ap (λ d. clone_on p provider (status internal) d path capacity after)
          (get_snapshot-path p.transport b dataset name s.world snap hd hn found)
