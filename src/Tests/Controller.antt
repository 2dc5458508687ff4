-- ===== src/Tests/Controller.antt =====
-- The theorems on the controller's handlers at concrete inputs.
use brickstor_csi_driver.Base.{
  ◌↔◌, is_exists, is_not_exist, path_join, clean, join, add64, cut_last, ◌≡◌, ◌≢◌, ◌↔◌, ◌⊎◌, refl,
  false, List, [], ◌∷◌, codes, none, some, ok, panic, pos, arith, status, internal, split,
  has_prefix, text_eq, contains,
}
use brickstor_csi_driver.Tests.Fixture
use brickstor_csi_driver.Tests.Fixture.{
  state_ready, platform, nodes, config, state, settled, has, lacks, provider, dataset_at,
}
use brickstor_csi_driver.Bsr.Provider.{Snapshot, ref_quota_size}
use brickstor_csi_driver.Bsr.Api.{get_snapshot, provider_interface}
use brickstor_csi_driver.Config.Nodes.{lookup}
use brickstor_csi_driver.Config.Refresh.{refresh}
use brickstor_csi_driver.Config.Refresh.Again.{refresh-again}
use brickstor_csi_driver.Driver.State.{refresh_config, refresh_shared}
use brickstor_csi_driver.Driver.Csi.{last_secret}
use brickstor_csi_driver.Driver.Controller.Capabilities.{
  first_unsupported, pick_availability_zone, topology_key_zone,
}
use brickstor_csi_driver.Config.Nodes.{sorted_names, text_leb}
use brickstor_csi_driver.Bsr.Read.{to_snapshot}
use brickstor_csi_driver.Bsr.Resolver.{resolve}
use brickstor_csi_driver.Driver.Controller.Snapshots.{wait_for}
use brickstor_csi_driver.Strconv.{format_int}
use brickstor_csi_driver.Driver.Identity.{probe}
use brickstor_csi_driver.Driver.Identity.Stale.{refresh_config-probe}
use brickstor_csi_driver.Driver.VolumeId.{snapshot_path, VolumeInfo}
use brickstor_csi_driver.Driver.Csi.{
  CreateVolumeRequest, Volume, VolumeCapability, single_node_writer,
}
use brickstor_csi_driver.Driver.Controller.Resolve.{
  ResolveParams, resolve_named, resolve_bsr, resolve_bsr_with_zone,
}
use brickstor_csi_driver.Driver.Controller.Resolve.Unknown.{
  IsAsked, resolve_bsr-panic, resolve_bsr_with_zone-nowhere,
}
use brickstor_csi_driver.Driver.Controller.Create.{
  clone_on, create_new_vol, create_new_vol_from_snap,
}
use brickstor_csi_driver.Driver.Controller.Create.Outcomes.{IsProvided, create_new_vol-ok}
use brickstor_csi_driver.Driver.Controller.Create.Source.{create_new_vol_from_snap-source}
use brickstor_csi_driver.Driver.Controller.Volumes.{create_volume, refreshed}
use brickstor_csi_driver.Driver.Controller.Volumes.Placement.{AllSupported}
use brickstor_csi_driver.Driver.Controller.Volumes.Created.{IsCreated, create_volume-IsCreated}
use brickstor_csi_driver.Driver.Controller.Manage.{delete_parsed_volume}
use brickstor_csi_driver.Driver.Controller.Manage.Deletion.{IsDeleted, delete_parsed_volume-ok}
use brickstor_csi_driver.Driver.Controller.ListSnapshots.{ds_snap_page}
use brickstor_csi_driver.Driver.Controller.ListSnapshots.Repeats.{ds_snap_page-repeats}

-- A second refresh of the file that the platform holds.
refresh-again_example :
    let first = refresh platform.grpc platform.files [] (config, tt) in
    let second = refresh platform.grpc platform.files [] first.1 in
    (second.0 ≡ ok false) × (second.1.0 ≡ first.1.0)
refresh-again_example =
    refresh-again platform.grpc platform.files 7 (λ path w. refl) (config, tt) refl

refresh_config-probe_example :
    let probed = (probe platform state).1 in
    let mine = refresh_config platform [] probed in
    (mine.0 ≡ ok tt) × (mine.1.controller ≡ state.controller) × (mine.1.config ≡ probed.config)
refresh_config-probe_example = refresh_config-probe platform 7 state refl (λ path w. refl)

create_new_vol-ok_example :
    (create_new_vol platform has (codes "p/d/v") (pos 15) state).0 ≡ ok tt
    ↔ IsProvided platform has (codes "p/d/v") (pos 15) state
create_new_vol-ok_example = create_new_vol-ok platform has (codes "p/d/v") (pos 15) state

abbrev gone : VolumeInfo
gone = record { config_name = codes "a"; path = codes "p/d/v" }

delete_parsed_volume-ok_example :
    (delete_parsed_volume platform gone state).0 ≡ ok tt ↔ IsDeleted platform gone state
delete_parsed_volume-ok_example = delete_parsed_volume-ok platform gone state

abbrev snapshot : Snapshot
snapshot = record {
  path = codes "p/d";
  name = codes "s";
  parent = codes "p";
  created_by = codes "u";
  creation_time = pos 1;
}

abbrev snapshot' : Snapshot
snapshot' = record snapshot { name = codes "s2" }

ds_snap_page-repeats_example :
    let page = ds_snap_page (codes "a") (pos 1) [] (snapshot ∷ snapshot' ∷ []) [] in
    (page.next_token ≡ [])
    ⊎ (ds_snap_page (codes "a") (pos 1) page.next_token (snapshot ∷ snapshot' ∷ []) [] ≡ page)
ds_snap_page-repeats_example =
    ds_snap_page-repeats (codes "a") (pos 1) (codes "p/d") (snapshot ∷ snapshot' ∷ [])
      (refl, (refl, tt))

abbrev unknown : ResolveParams
unknown = record { dataset_path = codes "p/d"; zone = []; config_name = codes "c" }

resolve_bsr-panic_example :
    (resolve_bsr platform unknown state).0 ≡ panic
    ↔ IsAsked platform unknown state × (lookup (codes "c") state.controller ≡ none)
resolve_bsr-panic_example = resolve_bsr-panic platform unknown state refl refl state_ready

abbrev elsewhere : ResolveParams
elsewhere = record { dataset_path = codes "p/d"; zone = codes "north"; config_name = [] }

configured_a : lookup (codes "a") nodes ≡ some (Fixture.node_of (codes "east"))
unfolding lookup text_eq
configured_a = refl

not_north : text_eq (codes "north") (codes "east") ≡ false
unfolding text_eq
not_north = refl

resolve_bsr_with_zone-nowhere_example : (resolve_bsr_with_zone platform elsewhere state).0 ≡ panic
resolve_bsr_with_zone-nowhere_example =
    resolve_bsr_with_zone-nowhere platform elsewhere state refl
      ((Fixture.node_of (codes "east"), configured_a, not_north), tt)

found :
    (get_snapshot platform.transport provider (snapshot_path (codes "p/d") (codes "s")) tt).0
    ≡ ok snapshot
unfolding get_snapshot split to_snapshot cut_last
found = refl

create_new_vol_from_snap-source_example :
    create_new_vol_from_snap platform
      (provider_interface platform.transport provider)
      (snapshot_path (codes "p/d") (codes "s"))
      (codes "p/d/v")
      (pos 15)
      state
    ≡ clone_on platform
        (provider_interface platform.transport provider)
        (status internal)
        (codes "p/d")
        (codes "p/d/v")
        (pos 15)
        state
create_new_vol_from_snap-source_example =
    create_new_vol_from_snap-source platform provider (codes "p/d") (codes "s") (codes "p/d/v")
      (pos 15) state snapshot (ground arith) (ground arith) found

abbrev request : CreateVolumeRequest
request = record {
  name = codes "v";
  required_bytes = pos 15;
  volume_capabilities =
      some (record { is_block = false; mount_flags = []; mode = single_node_writer } ∷ []);
  parameters = [];
  secrets = [];
  volume_content_source = none;
  accessibility_requirements =
      some (record { preferred = ((topology_key_zone, codes "east") ∷ []) ∷ []; requisite = [] });
}

abbrev created : Volume
created = record {
  volume_id = codes "a:p/d/v";
  capacity_bytes = pos 15;
  volume_context =
      (codes "dataIp", [])
      ∷ (codes "mountOptions", [])
      ∷ (codes "mountFsType", [])
      ∷ (codes "mountPointPermissions", [])
      ∷ [];
  content_source = none;
  accessible_topology = ((topology_key_zone, codes "east") ∷ []) ∷ [];
}

answered : (create_volume platform request settled).0 ≡ ok created
unfolding create_volume refresh_config refresh_shared last_secret first_unsupported lookup
    sorted_names resolve_bsr pick_availability_zone text_eq resolve create_new_vol is_exists
    contains is_not_exist path_join clean split join add64 ref_quota_size wait_for
    resolve_bsr_with_zone resolve_named text_leb format_int has_prefix
answered = refl

create_volume-IsCreated_example :
    (request.name ≢ [])
    × ((cs : List VolumeCapability) × (request.volume_capabilities ≡ some cs) × AllSupported cs)
    × IsCreated platform request (refreshed platform request settled).1 created
create_volume-IsCreated_example = create_volume-IsCreated platform request settled created answered
