-- ===== src/Tests/Node.antt =====
-- The node server's theorems at concrete inputs, on a host whose world counts the calls of `mount`.
use brickstor_csi_driver.Base.{
  ◌↔◌, ◌≢◌, ℕ, ◌+◌, ◌≤◌, Bool, ◌≡◌, ◌↔◌, refl, true, false, List, [], ◌∷◌, Text, codes, none, some,
  pure, fail, ok, err, panic, plain, text_eq, is_empty, has_prefix, ltb, if◌then◌else◌,
}
use brickstor_csi_driver.Tests.Fixture.{
  state_ready, platform, state, calm, platform_over, config, dataset_at, no_answer, node_of,
}
use brickstor_csi_driver.Bsr.Provider.{Dataset, ProviderInterface}
use brickstor_csi_driver.Config.Nodes.{lookup}
use brickstor_csi_driver.Config.Validate.{fs_type_nfs}
use brickstor_csi_driver.Driver.Csi.{VolumeCapability, single_node_writer}
use brickstor_csi_driver.Driver.State.{Platform, State, refresh_node_config}
use brickstor_csi_driver.Driver.Node.Host.{Host}
use brickstor_csi_driver.Driver.Node.Options.{
  nfs_options, mount_options, matches, contains_re, option_vers, option_timeo, fs_type,
}
use brickstor_csi_driver.Driver.Node.Options.Laws.{nfs_options_lem}
use brickstor_csi_driver.Driver.Node.Mount.{do_mount}
use brickstor_csi_driver.Driver.Node.Mount.Attempts.{
  IsMounted, IsCounter, do_mount-ok, do_mount-count,
}
use brickstor_csi_driver.Driver.Node.Unpublish.{node_unpublish_volume}
use brickstor_csi_driver.Driver.Node.Unpublish.Cleared.{IsCleared, node_unpublish_volume-ok}
use brickstor_csi_driver.Driver.Node.Publish.{
  PublishRequest, publish_dataset, set_permissions, get_mount_point_permissions,
}
use brickstor_csi_driver.Driver.Node.Publish.Again.{IsTold, publish_dataset-mounted}
use brickstor_csi_driver.Driver.Node.Resolve.Unknown.{node_resolve_bsr-panic}
use brickstor_csi_driver.Driver.Node.Resolve.{node_resolve_bsr}
use brickstor_csi_driver.Driver.State.NodeRefresh.{refresh_node_config-ne-panic}

-- A mount succeeds from the third attempt on.
abbrev host : Bool → Host ℕ
host free = record {
  is_likely_not_mount_point = λ target. pure free;
  mount =
      λ source target fs options w. (if ltb w 2 then err (plain (codes "busy")) else ok tt, w + 1);
  unmount = λ target. pure tt;
  mkdir_all = λ target mode. pure tt;
  remove = λ target. fail (plain (codes "busy"));
  chmod = λ target mode. pure tt;
  is_not_exist = λ e. false;
  is_permission = λ e. false;
  parse_error = λ text. plain text;
  cifs_error = λ re options. re;
}

abbrev on : Platform ℕ
on = platform_over ℕ

abbrev start : State ℕ
start = record { config = config; controller = []; node = []; world = 0 }

abbrev target : Text
target = codes "/mnt"

abbrev source : Text
source = codes "10.0.0.1:/p/d"

do_mount-ok_example :
    ((do_mount on (host true) source target fs_type_nfs [] start).0 ≡ ok tt
      → IsMounted on
          (host true)
          source
          target
          fs_type_nfs
          []
          start
          (do_mount on (host true) source target fs_type_nfs [] start).1)
    × ((t : State ℕ)
        → IsMounted on (host true) source target fs_type_nfs [] start t
        → ((do_mount on (host true) source target fs_type_nfs [] start).0 ≡ ok tt)
          × ((do_mount on (host true) source target fs_type_nfs [] start).1.world ≡ t.world))
do_mount-ok_example = do_mount-ok on (host true) source target fs_type_nfs [] start

counts : IsCounter on (host true) source target fs_type_nfs [] (λ w. w)
counts = record { mounts = λ w. refl; sleeps = λ w. refl; looks = λ w. refl; makes = λ w. refl }

do_mount-count_example : (do_mount on (host true) source target fs_type_nfs [] start).1.world ≤ 10
do_mount-count_example =
    do_mount-count on (host true) source target fs_type_nfs [] (λ w. w) counts start

node_unpublish_volume-ok_example :
    (node_unpublish_volume on (host false) (codes "a:p/d") target start).0 ≡ ok tt ↔ (
      (is_empty (codes "a:p/d") ≡ false)
      × (is_empty target ≡ false)
      × IsCleared on (host false) target 0)
node_unpublish_volume-ok_example =
    node_unpublish_volume-ok on (host false) target (codes "a:p/d") start

nfs_options_lem_example :
    ((added : List Text) × (nfs_options (codes "vers=4" ∷ codes "ro" ∷ [])
        ≡ codes "vers=4" ∷ codes "ro" ∷ added))
    × (contains_re (nfs_options (codes "vers=4" ∷ codes "ro" ∷ [])) option_vers ≡ true)
    × (contains_re (nfs_options (codes "vers=4" ∷ codes "ro" ∷ [])) option_timeo ≡ true)
nfs_options_lem_example = nfs_options_lem (codes "vers=4" ∷ codes "ro" ∷ [])

-- `nolock` of the user is doubled: the pattern for it asks for a longer option.
doubled :
    nfs_options (codes "nolock" ∷ [])
    ≡ codes "nolock" ∷ codes "vers=3" ∷ codes "nolock" ∷ codes "timeo=100" ∷ []
unfolding nfs_options contains_re matches has_prefix text_eq
doubled = refl

abbrev mounted_with : VolumeCapability
mounted_with = record {
  is_block = false;
  mount_flags = codes "rsize=1" ∷ [];
  mode = single_node_writer;
}

abbrev request : Text → PublishRequest
request id = record {
  volume_id = id;
  target_path = target;
  volume_capability = some mounted_with;
  secrets = [];
  volume_context = [];
  read_only = false;
}

abbrev provider : ProviderInterface ℕ
provider = record {
  addr = codes "https://10.0.0.1:8443";
  create_dataset = λ path size. no_answer;
  update_dataset = λ path size. no_answer;
  destroy_dataset = λ path. no_answer;
  set_dataset_acl = λ path read_only. no_answer;
  get_dataset = λ path. no_answer;
  get_datasets = no_answer;
  get_ds_avail_cap = λ path. no_answer;
  create_nfs_share = λ path access. no_answer;
  create_smb_share = λ path name. no_answer;
  get_smb_share_name = λ path. no_answer;
  create_snapshot = λ path name. no_answer;
  destroy_snapshot = λ path. no_answer;
  get_snapshot = λ path. no_answer;
  get_snapshots = λ paths. no_answer;
  clone_snapshot = λ snap path size. no_answer;
}

abbrev shared : Dataset
shared = record (dataset_at (codes "p/d")) { shared_over_nfs = true }

told : IsTold on.grpc
told = λ c t. ([], refl)

is_nfs : fs_type [] (node_of (codes "east")) ≡ fs_type_nfs
unfolding fs_type lookup
is_nfs = refl

default_mode : get_mount_point_permissions on (host false) [] ≡ ok 0o777
unfolding get_mount_point_permissions lookup
default_mode = refl

publish_dataset-mounted_example :
    publish_dataset on
      (host false)
      (request (codes "a:p/d"))
      mounted_with
      (node_of (codes "east"))
      provider
      shared
      start
    ≡ set_permissions on
        (host false)
        target
        (mount_options false mounted_with [] (node_of (codes "east")))
        0o777
        start
publish_dataset-mounted_example =
    publish_dataset-mounted on (host false) (request (codes "a:p/d")) mounted_with
      (node_of (codes "east")) provider shared start 0o777 told is_nfs refl default_mode refl

abbrev serving : State (Unit {0})
serving = record state { node = state.controller }

node_resolve_bsr-panic_example :
    ((node_resolve_bsr platform (codes "c") (codes "p/d") serving).0 ≡ panic
      ↔ lookup (codes "c") serving.node ≡ none)
    × ((node_resolve_bsr platform (codes "c") (codes "p/d") serving).0 ≢ ok none)
node_resolve_bsr-panic_example =
    node_resolve_bsr-panic platform (codes "c") (codes "p/d") serving state_ready

refresh_node_config-ne-panic_example : (refresh_node_config platform [] state).0 ≢ panic
refresh_node_config-ne-panic_example = refresh_node_config-ne-panic platform [] state calm
