-- ===== src/Driver/State.antt =====
-- The state of one driver process: the configuration that its servers share, a resolver map for
-- each server, and the world. `newResolverMap` is of pkg/driver/utils.go, and the two
-- `refreshConfig` methods are of controllerServer.go and nodeServer.go.
pub mod NoPanic
pub mod Kept
pub mod Shared
pub mod NodeRefresh
pub mod Resolvers
pub mod Served
pub mod Manned
use brickstor_csi_driver.Base.{
  ℕ, Bool, true, false, List, [], ◌∷◌, ◌++◌, Text, codes, Option, none, some, Eff, pure, fail,
  ◌>>=◌, ◌>>◌, Outcome, ok, err, panic, Error, plain, if◌then◌else◌, Grpc, error_text,
}
use brickstor_csi_driver.Rest.Api.{Transport}
use brickstor_csi_driver.Bsr.Resolver.{Resolver, new_resolver}
use brickstor_csi_driver.Config.Nodes.{Config, BsrData, lookup_node, node_names}
use brickstor_csi_driver.Driver.Csi.{AccessMode}
use brickstor_csi_driver.Config.Refresh.{Files, refresh}

-- What the driver runs on: gRPC's error texts, the printed names of access modes, what `fmt.Sprintf` makes of a text that is passed as
-- a format with no arguments, the REST transport, the file system with package yaml, and
-- `time.Sleep(time.Second)`, in which the world may change.
pub record Platform (W : Type 0) : Type 0 where
  pub grpc : Grpc
  pub mode_name : AccessMode → Text
  pub format_alone : Text → Text
  pub transport : Transport W
  pub files : Files W
  pub sleep : W → W

abbrev pub ResolverMap : Type 0 → Type 0
ResolverMap W = List (Text × Resolver W)

pub record State (W : Type 0) : Type 0 where
  pub config : Config
  pub controller : ResolverMap W
  pub node : ResolverMap W
  pub world : W

module _ {W : Type 0} where
  -- A call on the world.
  abbrev pub lift : {A : Type 0} → Eff W A → Eff (State W) A
  lift m s = ((m s.world).0, record s { world = (m s.world).1 })

  abbrev pub return : {A : Type 0} → Outcome A → Eff (State W) A
  return r s = (r, s)

  abbrev pub get_state : Eff (State W) (State W)
  get_state s = (ok s, s)

  abbrev pub put_controller : ResolverMap W → Eff (State W) (Unit {0})
  put_controller m s = (ok tt, record s { controller = m })

  abbrev pub put_node : ResolverMap W → Eff (State W) (Unit {0})
  put_node m s = (ok tt, record s { node = m })

module _ {W : Type 0} (p : Platform W) where
  -- `s.config.Refresh(secret)`
  unfoldable pub refresh_shared : Text → Eff (State W) Bool
  unfolding refresh
  refresh_shared secret s =
      let r = refresh p.grpc p.files secret (s.config, s.world) in
      (r.0, record s { config = r.1.0; world = r.1.1 })

  pub node_resolver : BsrData → Outcome (Resolver W)
  unfolding new_resolver
  node_resolver d = elim d.insecure_skip_verify [
    | none ↦ panic
    | some skip ↦
        elim (new_resolver p.grpc p.transport (record {
          address = d.address;
          username = d.username;
          password = d.password;
          insecure_skip_verify = skip;
        })) [
          | ok r ↦ ok r
          | err e ↦ err (plain (codes "Cannot create BrickStor resolver: " ++ error_text p.grpc e))
          | panic ↦ panic
        ]
  ]

  with_resolver : Text → Outcome (Resolver W) → Outcome (ResolverMap W) → Outcome (ResolverMap W)
  with_resolver name (ok r) (ok m) = ok ((name, r) ∷ m)
  with_resolver name (ok r) (err e) = err e
  with_resolver name (ok r) panic = panic
  with_resolver name (err e) rest = err e
  with_resolver name panic rest = panic

  resolvers_for : Config → List Text → Outcome (ResolverMap W)
  unfolding node_resolver with_resolver
  resolvers_for c [] = ok []
  resolvers_for c (name ∷ names) =
      let rest = resolvers_for c names in
      elim (lookup_node c name) [ none ↦ rest | some d ↦ with_resolver name (node_resolver d) rest ]

  -- `newResolverMap`
  unfoldable pub new_resolver_map : Config → Outcome (ResolverMap W)
  unfolding resolvers_for
  new_resolver_map c = resolvers_for c (node_names c)

  rebuild_controller : Eff (State W) (Unit {0})
  rebuild_controller = do s ← get_state; m ← return (new_resolver_map s.config); put_controller m

  -- `refreshConfig` of the controller server
  unfoldable pub refresh_config : Text → Eff (State W) (Unit {0})
  unfolding rebuild_controller
  refresh_config secret = do
    changed ← refresh_shared secret
    if changed then rebuild_controller else pure tt

  rebuild_node : Eff (State W) (Unit {0})
  rebuild_node = do s ← get_state; m ← return (new_resolver_map s.config); put_node m

  -- `refreshConfig` of the node server
  unfoldable pub refresh_node_config : Text → Eff (State W) (Unit {0})
  unfolding rebuild_node
  refresh_node_config secret = do
    changed ← refresh_shared secret
    if changed then rebuild_node else pure tt
