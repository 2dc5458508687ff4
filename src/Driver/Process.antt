-- ===== src/Driver/Process.antt =====
-- `Run` and `NewDriver` of pkg/driver/driver.go, with the constructors of the servers; and what
-- `main` of cmd/main.go makes of the role.
pub mod Servers
pub mod NoPanic
pub mod Reachable
use brickstor_csi_driver.Base.{
  Bool, true, false, List, [], ◌∷◌, ◌++◌, Text, codes, Option, none, some, Eff, pure, fail, ◌>>=◌,
  ◌>>◌, ok, err, panic, Outcome, Error, plain, Attempt, value, failed, attempt, if◌then◌else◌,
  is_empty, text_eq, not, path_join, error_text,
}
use brickstor_csi_driver.Config.Nodes.{Config, NodeMap}
use brickstor_csi_driver.Config.Find.{Entry, new}
use brickstor_csi_driver.Driver.State.{
  Platform, State, ResolverMap, lift, return, get_state, new_resolver_map, put_controller, put_node,
}
use brickstor_csi_driver.Driver.Role.{Role, parse_role, is_controller, is_node}

-- `url.URL`: its scheme, its host, and its path as `filepath.FromSlash` writes it.
pub record Endpoint : Type 0 where
  pub scheme : Text
  pub host : Text
  pub path : Text

-- What `Run` calls of net/url, os and net.
pub record Sockets (W : Type 0) : Type 0 where
  pub parse_url : Text → Outcome Endpoint
  pub remove : Text → Eff W (Unit {0})
  pub is_not_exist : Error → Bool
  pub listen : Text → Text → Eff W (Unit {0})

-- The servers that are registered.
pub data Service : Type 0 where
  identity controller node : Service

module _ {W : Type 0} (p : Platform W) (h : Sockets W) where
  parsed_url : Text → Outcome Endpoint → Outcome Endpoint
  parsed_url endpoint (ok u) = ok u
  parsed_url endpoint (err e) = err (plain (codes "Failed to parse endpoint: " ++ endpoint))
  parsed_url endpoint panic = panic

  abbrev socket_of : Endpoint → Text
  socket_of u = if is_empty u.host then u.path else path_join u.host u.path

  remove_socket : Text → Eff (State W) (Unit {0})
  remove_socket socket = do
    r ← attempt (lift (h.remove socket))
    elim r [
      | value u ↦ pure tt
      | failed e ↦
          if h.is_not_exist e
          then pure tt
          else fail (plain (codes "Cannot remove unix domain socket: " ++ socket))
    ]

  listen_on : Endpoint → Eff (State W) (Unit {0})
  listen_on u = do
    r ← attempt (lift (h.listen u.scheme (socket_of u)))
    elim r [
      | value v ↦ pure tt
      | failed e ↦ fail (plain (codes "Failed to create socket listener: " ++ error_text p.grpc e))
    ]

  open_socket : Endpoint → Eff (State W) (Unit {0})
  unfolding remove_socket listen_on path_join
  open_socket u =
      if text_eq u.scheme (codes "unix")
      then (do remove_socket (socket_of u); listen_on u)
      else fail (plain (codes "Only unix domain sockets are supported"))

  -- `NewControllerServer` and `NewNodeServer`: a resolver map from the configuration.
  new_server : Text → (ResolverMap W → Eff (State W) (Unit {0})) → Eff (State W) (Unit {0})
  new_server name put = do
    s ← get_state
    r ← attempt (return (new_resolver_map p s.config))
    elim r [
      | value m ↦ put m
      | failed e ↦
          fail (plain (codes "Failed to create " ++ (name ++ (codes ": " ++ error_text p.grpc e))))
    ]

  start_controller : Role → Eff (State W) (List Service)
  unfolding new_server is_controller
  start_controller role =
      if is_controller role
      then (do new_server (codes "ControllerServer") put_controller; pure (controller ∷ []))
      else pure []

  start_node : Role → Eff (State W) (List Service)
  unfolding new_server is_node
  start_node role =
      if is_node role
      then (do new_server (codes "NodeServer") put_node; pure (node ∷ []))
      else pure []

  with_node : Role → List Service → Eff (State W) (List Service)
  unfolding start_node
  with_node role cs = do ns ← start_node role; pure (identity ∷ (cs ++ ns))

  unfoldable pub start_servers : Role → Eff (State W) (List Service)
  unfolding start_controller with_node
  start_servers role = do cs ← start_controller role; with_node role cs

  -- `Run` up to `Serve`: the servers that then serve.
  unfoldable pub run : Role → Text → Eff (State W) (List Service)
  unfolding parsed_url open_socket start_servers
  run role endpoint = do
    u ← return (parsed_url endpoint (h.parse_url endpoint))
    open_socket u
    start_servers role

  -- `main` behind the command line: a role that is not supported is replaced, with a warning.
  unfoldable pub run_as : Text → Text → Eff (State W) (List Service)
  unfolding parse_role run
  run_as role endpoint = run (parse_role role).0 endpoint

-- Whether each node says if certificates are checked: `main` prints the value behind the pointer.
unfoldable pub all_told : NodeMap → Bool
all_told [] = true
all_told ((name, d) ∷ m) =
    let rest = all_told m in elim d.insecure_skip_verify [ none ↦ false | some b ↦ rest ]

module _ {W : Type 0} (p : Platform W) (h : Sockets W) (tree : Text → W → Entry) where
  -- The options are printed, then the driver runs.
  run_with : Text → Text → Config → Eff W (List Service)
  unfolding all_told run_as
  run_with role endpoint c w =
      let r =
        run_as p h role endpoint (record { config = c; controller = []; node = []; world = w }) in
      if all_told c.node_map then (r.0, r.1.world) else (panic, w)

  -- `main` behind the command line, up to `Serve`; an error ends the process.
  unfoldable pub main : Text → Text → Text → Eff W (List Service)
  unfolding new run_with
  main dir role endpoint = do c ← new p.grpc p.files tree dir; run_with role endpoint c
