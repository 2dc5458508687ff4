-- ===== src/Tests/Fixture.antt =====
-- A platform, a configuration and nodes for the examples.
use brickstor_csi_driver.Base.{
  ◌≡◌, ◌≢◌, inl, inr, Bool-cases, text_eq, true, [], ◌∷◌, Text, codes, none, pure, fail, plain, Eff,
  pos, false,
}
use mathlib.Core.Path.{subst}
use brickstor_csi_driver.Bsr.Resolver.{Resolver}
use brickstor_csi_driver.Bsr.Resolver.Calm.{AllCalm, AllReady}
use brickstor_csi_driver.Rest.Api.{Transport}
use brickstor_csi_driver.Bsr.Provider.{Dataset, Provider, ProviderInterface}
use brickstor_csi_driver.Config.Nodes.{lookup, Config, BsrData, NodeMap}
use brickstor_csi_driver.Config.Refresh.Outcomes.{IsCalm}
use brickstor_csi_driver.Driver.State.{Platform, State}

abbrev pub node_of : Text → BsrData
node_of zone = record {
  address = codes "https://10.0.0.1:8443";
  username = codes "root";
  password = codes "pw";
  default_dataset = codes "p/d";
  default_data_ip = [];
  default_mount_fs_type = codes "nfs";
  default_mount_options = [];
  zone = zone;
  mount_point_permissions = [];
  insecure_skip_verify = none;
}

abbrev pub nodes : NodeMap
nodes = (codes "a", node_of (codes "east")) ∷ (codes "b", node_of (codes "west")) ∷ []

abbrev pub config : Config
config = record {
  node_map = nodes;
  debug = false;
  file_path = codes "/config";
  last_mod_time = 0;
  temporary = false;
}

abbrev pub dataset_at : Text → Dataset
dataset_at path = record {
  path = path;
  mount_point = [];
  shared_over_nfs = false;
  shared_over_smb = false;
  bytes_available = pos 10;
  bytes_used = pos 5;
}

abbrev pub no_answer : {W A : Type 0} → Eff W A
no_answer = fail (plain (codes "not found"))

-- A node that has the datasets or none.
abbrev provider_with : Text → Eff (Unit {0}) Dataset → ProviderInterface (Unit {0})
provider_with addr dataset = record {
  addr = addr;
  create_dataset = λ path size. fail (plain (codes "already exists"));
  update_dataset = λ path size. pure tt;
  destroy_dataset = λ path. no_answer;
  set_dataset_acl = λ path read_only. pure tt;
  get_dataset = λ path. dataset;
  get_datasets = no_answer;
  get_ds_avail_cap = λ path. no_answer;
  create_nfs_share = λ path access. pure tt;
  create_smb_share = λ path name. pure tt;
  get_smb_share_name = λ path. no_answer;
  create_snapshot = λ path name. no_answer;
  destroy_snapshot = λ path. no_answer;
  get_snapshot = λ path. no_answer;
  get_snapshots = λ paths. pure [];
  clone_snapshot = λ snap path size. pure tt;
}

abbrev pub has : ProviderInterface (Unit {0})
has = provider_with (codes "https://10.0.0.1:8443") (pure (dataset_at (codes "p/d")))

abbrev pub lacks : ProviderInterface (Unit {0})
lacks = provider_with (codes "https://10.0.0.2:8443") no_answer

abbrev transport : {W : Type 0} → Transport W
transport = record {
  dataset = λ b q. no_answer;
  datasets = λ b q. pure [];
  create = λ b q. pure tt;
  delete = λ b q. pure tt;
  modify = λ b q. pure tt;
  set_perms = λ b q. pure tt;
  snaps = λ b q. pure (
      record {
        dataset_path = codes "p/d";
        name = codes "s";
        creation = pos 1;
        created_by = codes "u";
      }
      ∷ []);
  snaps_create = λ b q. no_answer;
  snaps_destroy = λ b q. pure tt;
  clone = λ b q. pure tt;
}

abbrev pub platform_over : (W : Type 0) → Platform W
platform_over W = record {
  grpc = record { status_text = λ c t. t };
  mode_name = λ m. codes "MODE";
  format_alone = λ t. t;
  transport = transport;
  files = record {
    stat = λ path. pure 7;
    read_file = λ path. pure (codes "nodes");
    unmarshal = λ content old. ((nodes, false), none);
  };
  sleep = λ w. w;
}

abbrev pub platform : Platform (Unit {0})
platform = platform_over (Unit {0})

abbrev pub state : State (Unit {0})
state = record {
  config = config;
  controller = (codes "a", record { nodes = lacks ∷ has ∷ [] }) ∷ [];
  node = [];
  world = tt;
}

pub calm : IsCalm platform.grpc platform.files
calm = (λ path w q. cc q, λ path w q. cc q)

-- A configuration that the file's modification time says is current.
abbrev pub settled : State (Unit {0})
settled = record {
  config = record config { last_mod_time = 7 };
  controller = (codes "a", record { nodes = lacks ∷ has ∷ [] }) ∷ [];
  node = [];
  world = tt;
}

abbrev pub provider : Provider
provider = record {
  address = codes "https://10.0.0.1:8443";
  username = codes "root";
  password = codes "pw";
  bsr_client = record {
    base_url = codes "https://10.0.0.1:8443";
    user = codes "root";
    pass = codes "pw";
    insecure_skip_verify = true;
  };
}

-- A map of one resolver is ready if that one is.
one_ready :
    {W : Type 0} (name : Text) (r : Resolver W)
    → AllCalm r.nodes
    → r.nodes ≢ []
    → AllReady ((name, r) ∷ [])
unfolding lookup
one_ready name r calm_nodes manned key found h = elim (Bool-cases (text_eq name key)) [
  | inl e ↦
      let same : r ≡ found = cc (rw e at h) in
      subst (λ (x : Resolver _). AllCalm x.nodes × (x.nodes ≢ [])) same (calm_nodes, manned)
  | inr e ↦ let bad = rw e at h in cc bad
]

pub state_ready : AllReady state.controller
state_ready =
    one_ready (codes "a") (record { nodes = lacks ∷ has ∷ [] })
      (λ path w q. cc q, (λ path w q. cc q, tt)) (λ q. cc q)
