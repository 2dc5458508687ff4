-- ===== src/Tests/Client.antt =====
-- The theorems on the REST client, durations, the configuration file and the process at concrete
-- inputs: a server that takes every request, in a world that counts them.
use brickstor_csi_driver.Base.{
  inr, ◌≢◌, panic, ℕ, ◌+◌, ◌≤◌, ◌≡◌, refl, arith, true, false, [], ◌∷◌, Text, codes, none, some, ok,
  pure, plain, pos, negsuc, text_eq, has_prefix, trim_prefix, cut_last, split, join,
}
use brickstor_csi_driver.Tests.Fixture.{calm, platform, config, node_of, provider}
use brickstor_csi_driver.Rest.Duration.{Floats, marshal, marshal_json, parse, unmarshal_json}
use brickstor_csi_driver.Rest.Duration.RoundTrip.{parse-marshal}
use brickstor_csi_driver.Rest.Client.{
  AuthHeader, new_basic_auth, HttpResponse, Net, Session, new_client,
}
use brickstor_csi_driver.Rest.Client.Login.{login, is_fresh}
use brickstor_csi_driver.Rest.Client.Login.Tokens.{IsSettled, login-IsSettled}
use brickstor_csi_driver.Rest.Client.Calls.{Call, send, get, post}
use brickstor_csi_driver.Rest.Client.Calls.Reachable.{
  IsWellFormed, made, posted, Reachable-IsWellFormed,
}
use brickstor_csi_driver.Rest.Client.Calls.Bounds.{post-Costs}
use brickstor_csi_driver.Config.Find.{
  Entry, file, folder, no_more, then_next, find_config_file, is_yaml, walk,
}
use brickstor_csi_driver.Config.Find.Yaml.{IsFound, find_config_file-IsFound}
use brickstor_csi_driver.Strconv.{parse_uint}
use brickstor_csi_driver.Bsr.Provider.{new_provider, ProviderInterface}
use brickstor_csi_driver.Config.Nodes.{BsrData, lookup, sorted_names}
use brickstor_csi_driver.Driver.State.Resolvers.{Matches, new_resolver_map-Matches}
use brickstor_csi_driver.Bsr.Api.{provider_interface}
use brickstor_csi_driver.Driver.State.{State, new_resolver_map, node_resolver}
use brickstor_csi_driver.Driver.Node.Host.{Host}
use brickstor_csi_driver.Driver.Role.{role_node, parse_role, is_controller, is_node}
use brickstor_csi_driver.Driver.Role.Parse.{IsParsed, parse_role-IsParsed}
use brickstor_csi_driver.Driver.Process.Reachable.{started, Reachable-served}
use brickstor_csi_driver.Driver.Process.NoPanic.{IsQuiet, main-ne-panic}
use brickstor_csi_driver.Driver.Process.{main, run, Sockets, identity, node, start_servers}
use brickstor_csi_driver.Driver.Process.Servers.{services_of, AllMade, start_servers-ok}

abbrev net : Net ℕ
net = record {
  grpc = record { status_text = λ c t. t };
  unix_now = λ w. pos w;
  request_error = λ method url. none;
  do_request = λ req w. (ok (record { status_code = 200; body = ok (codes "t") }), w + 1);
  basic_auth = λ user pass. codes "Basic";
  decode_map = λ body. ok ((codes "token", body) ∷ []);
  decode_error_response = λ body. ok body;
  parse_token = λ t. (some (pos 1000), none);
  invalid_key_type = codes "key is of invalid type";
}

abbrev auth : AuthHeader
auth = new_basic_auth (codes "root") (codes "pw")

abbrev fresh : Session ℕ
fresh = record {
  client = new_client (codes "https://10.0.0.1:8443") (pos 0) (some auth);
  world = 0;
}

has_auth : fresh.client.auth ≡ some auth
unfolding new_client
has_auth = refl

login-IsSettled_example : IsSettled (login net fresh)
login-IsSettled_example = login-IsSettled net auth fresh has_auth

abbrev call : Call Text
call = record {
  path = codes "/internal/v1/snaps";
  encoded = ok (codes "{}");
  decode = some (λ body. ok body);
}

Reachable-IsWellFormed_example : IsWellFormed (post net call fresh).1.client
Reachable-IsWellFormed_example =
    Reachable-IsWellFormed net (post net call fresh).1
      (posted call fresh (made (codes "https://10.0.0.1:8443") (pos 0) (some auth) 0))

post-Costs_example : ((get net call fresh).1.world ≤ 2) × ((post net call fresh).1.world ≤ 5)
post-Costs_example = post-Costs net (λ w. w) (λ req w. omega arith) call fresh

abbrev answer : HttpResponse
answer = record { status_code = 200; body = ok (codes "t") }

sent : (send net (codes "POST") call fresh).0 ≡ ok answer
unfolding send new_client login is_fresh trim_prefix lookup text_eq
sent = refl

abbrev floats : Floats
floats = record { is_too_small = λ n. false; nanoseconds = λ s. 0 }

parse-marshal_example :
    (parse floats (marshal (negsuc 90060999999999)) ≡ ok (negsuc 90060999999999))
    × (unmarshal_json floats (marshal_json (negsuc 90060999999999)) ≡ ok (negsuc 90060999999999))
parse-marshal_example = parse-marshal floats (negsuc 90060999999999) (omega arith) refl

-- The folder that Kubernetes makes for a secret, beside the file that points into it.
abbrev tree : Entry
tree = folder (codes "config") none (
    then_next (folder (codes "..d") none (then_next (file (codes "a.yaml")) no_more))
      (then_next (file (codes "a.yaml")) no_more))

file_found : find_config_file (codes "/config") tree ≡ ok (codes "/config/a.yaml")
unfolding find_config_file walk is_yaml text_eq cut_last has_prefix join split
file_found = refl

find_config_file-IsFound_example :
    IsFound (codes "/config") tree (find_config_file (codes "/config") tree)
find_config_file-IsFound_example = find_config_file-IsFound (codes "/config") tree

parse_role-IsParsed_example : IsParsed (codes "nodes") (parse_role (codes "nodes"))
parse_role-IsParsed_example = parse_role-IsParsed (codes "nodes")

abbrev sockets : Sockets (Unit {0})
sockets = record {
  parse_url = λ url. ok (record { scheme = codes "unix"; host = []; path = url });
  remove = λ path. pure tt;
  is_not_exist = λ e. true;
  listen = λ scheme path. pure tt;
}

abbrev configured : State (Unit {0})
configured = record {
  config = record config {
    node_map = (codes "a", record (node_of []) { insecure_skip_verify = some true }) ∷ [];
  };
  controller = [];
  node = [];
  world = tt;
}

servers_started :
    (start_servers platform sockets role_node configured).0 ≡ ok (identity ∷ node ∷ [])
unfolding start_servers new_resolver_map is_controller is_node text_eq sorted_names lookup split
    new_provider has_prefix cut_last parse_uint
servers_started = refl

start_servers-ok_example :
    ((identity ∷ node ∷ []) ≡ services_of platform sockets role_node)
    × AllMade platform sockets role_node configured
        (start_servers platform sockets role_node configured).1
start_servers-ok_example =
    start_servers-ok platform sockets role_node configured (identity ∷ node ∷ []) servers_started

abbrev made_for_a : ProviderInterface (Unit {0})
made_for_a = provider_interface platform.transport provider

map_made :
    new_resolver_map platform configured.config
    ≡ ok ((codes "a", record { nodes = made_for_a ∷ [] }) ∷ [])
unfolding new_resolver_map sorted_names lookup text_eq split new_provider has_prefix cut_last
    parse_uint
map_made = refl

new_resolver_map-Matches_example :
    Matches platform configured.config
      ((codes "a", record { nodes = made_for_a ∷ [] }) ∷ [])
      (codes "b")
new_resolver_map-Matches_example =
    new_resolver_map-Matches platform configured.config
      ((codes "a", record { nodes = made_for_a ∷ [] }) ∷ []) (codes "b") map_made

quiet : IsQuiet sockets
quiet = (λ url q. cc q, λ path w q. cc q, λ scheme path w q. cc q)

main-ne-panic_example :
    (main platform sockets
      (λ dir w. tree)
      (codes "/config")
      (codes "nodes")
      (codes "/csi.sock")
      tt).0
    ≢ panic
main-ne-panic_example =
    main-ne-panic platform sockets (λ dir w. tree) (codes "/config") (codes "nodes")
      (codes "/csi.sock") tt calm quiet

abbrev node_host : Host (Unit {0})
node_host = record {
  is_likely_not_mount_point = λ target. pure true;
  mount = λ source target fs options. pure tt;
  unmount = λ target. pure tt;
  mkdir_all = λ target mode. pure tt;
  remove = λ target. pure tt;
  chmod = λ target mode. pure tt;
  is_not_exist = λ e. false;
  is_permission = λ e. false;
  parse_error = λ text. plain text;
  cifs_error = λ re options. re;
}

abbrev running : State (Unit {0})
running = (run platform sockets role_node (codes "/csi.sock") configured).1

has_resolver : lookup (codes "a") running.node ≡ some (record { nodes = made_for_a ∷ [] })
unfolding run start_servers new_resolver_map is_controller is_node text_eq sorted_names lookup split
    new_provider has_prefix cut_last parse_uint
has_resolver = refl

Reachable-served_example :
    ((made_for_a ∷ []) ≢ [])
    × ((d : BsrData) × (node_resolver platform d ≡ ok (record { nodes = made_for_a ∷ [] })))
Reachable-served_example =
    Reachable-served platform sockets node_host running (codes "a")
      (record { nodes = made_for_a ∷ [] })
      (started role_node (codes "/csi.sock") configured.config tt) (inr has_resolver)
