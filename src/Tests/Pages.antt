-- ===== src/Tests/Pages.antt =====
-- The theorems on followed tokens and on the ids of snapshots at concrete inputs: a node with three
-- datasets and a snapshot, and one with neither.
use brickstor_csi_driver.Base.{
  ◌≡◌, refl, arith, true, List, [], ◌∷◌, ◌>>◌, Text, codes, pos, pure, ok, if◌then◌else◌, text_eq,
  split, failed_precondition,
}
use brickstor_csi_driver.Tests.Fixture.{platform, settled, dataset_at, has, node_of}
use brickstor_csi_driver.Bsr.Provider.{Dataset, Snapshot, ProviderInterface}
use brickstor_csi_driver.Bsr.Resolver.{resolve, resolve_by_address}
use brickstor_csi_driver.Config.Nodes.{lookup, sorted_names}
use brickstor_csi_driver.Driver.VolumeId.{VolumeInfo, parse_volume_id}
use brickstor_csi_driver.Driver.Csi.{CreateSnapshotRequest, CsiSnapshot}
use brickstor_csi_driver.Driver.State.{State, refresh_config, refresh_shared}
use brickstor_csi_driver.Driver.Controller.Resolve.{resolve_bsr, resolve_bsr_no_zone, resolve_named}
use brickstor_csi_driver.Driver.Controller.Snapshots.{
  refresh_or, cannot_use_config, delete_known, delete_snapshot, create_snapshot,
  create_snapshot_on_bsr, snapshot_if_new,
}
use brickstor_csi_driver.Driver.Controller.Snapshots.Ids.{delete_snapshot-create_snapshot}
use brickstor_csi_driver.Driver.Controller.ListVolumes.{datasets_of}
use brickstor_csi_driver.Driver.Controller.ListVolumes.Collected.{Collected, Answers, collect_all}

abbrev three : List Dataset
three = dataset_at (codes "p/a") ∷ dataset_at (codes "p/b") ∷ dataset_at (codes "p/c") ∷ []

abbrev kept_snapshot : Snapshot
kept_snapshot = record {
  path = codes "p/d";
  name = codes "s";
  parent = [];
  created_by = [];
  creation_time = pos 1;
}

abbrev keeper : ProviderInterface (Unit {0})
keeper = record has { get_datasets = pure three; get_snapshot = λ path. pure kept_snapshot }

abbrev full : State (Unit {0})
full = record settled {
  controller =
      (codes "a", record { nodes = keeper ∷ [] }) ∷ (codes "b", record { nodes = has ∷ [] }) ∷ [];
}

abbrev held : Text → List Dataset
held n = if text_eq n (codes "a") then three else []

first_node : Answers platform 2 full held (codes "a")
unfolding lookup text_eq datasets_of resolve_by_address split
first_node = (
  (ground arith, omega arith),
  (node_of (codes "east"), record { nodes = keeper ∷ [] }, refl, refl, refl),
)

second_node : Answers platform 2 full held (codes "b")
unfolding lookup text_eq datasets_of resolve_by_address split
second_node = (
  (ground arith, omega arith),
  (node_of (codes "west"), record { nodes = has ∷ [] }, refl, refl, refl),
)

current : refresh_config platform [] full ≡ (ok tt, full)
unfolding refresh_config refresh_shared
current = refl

collect_all_example :
    Collected platform 2 full [] (codes "a:p/a" ∷ codes "a:p/b" ∷ codes "a:p/c" ∷ [])
unfolding sorted_names text_eq
collect_all_example =
    collect_all platform 2 full held (omega arith) current refl ((refl, tt), (tt, tt))
      (first_node, (second_node, tt))

abbrev wanted : CreateSnapshotRequest
wanted = record { source_volume_id = codes "a:p/d"; name = codes "s" }

abbrev info : VolumeInfo
info = record { config_name = codes "a"; path = codes "p/d" }

read_back : parse_volume_id (codes "a:p/d") ≡ ok info
unfolding parse_volume_id split
read_back = refl

abbrev made : CsiSnapshot
made = record {
  snapshot_id = codes "a:p/d@s";
  source_volume_id = codes "a:p/d";
  creation_time = pos 1;
  ready_to_use = true;
}

snapshot_made : (create_snapshot platform wanted full).0 ≡ ok made
unfolding create_snapshot create_snapshot_on_bsr snapshot_if_new refresh_config refresh_shared
    parse_volume_id split resolve_bsr resolve_bsr_no_zone resolve_named resolve lookup text_eq
snapshot_made = refl

delete_snapshot-create_snapshot_example :
    delete_snapshot platform (codes "a:p/d@s") settled
    ≡ (refresh_or platform (cannot_use_config platform failed_precondition) []
          >> delete_known platform info (codes "s"))
        settled
delete_snapshot-create_snapshot_example =
    delete_snapshot-create_snapshot platform wanted info made full settled read_back refl
      (ground arith) (ground arith) (ground arith) snapshot_made
