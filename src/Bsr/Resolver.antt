-- ===== src/Bsr/Resolver.antt =====
-- pkg/bsr/resolver.go: a standalone node or a cluster, as the list of its providers.
pub mod Chosen
pub mod Calm
use brickstor_csi_driver.Base.{
  Bool, true, false, List, [], ◌∷◌, ◌++◌, Text, codes, Option, none, some, Eff, pure, fail, crash,
  ◌>>=◌, Outcome, ok, err, panic, Error, plain, Attempt, value, failed, attempt, if◌then◌else◌,
  is_empty, split, text_eq, Grpc, error_text,
}
use brickstor_csi_driver.Rest.Api.{Transport}
use brickstor_csi_driver.Bsr.Provider.{
  Dataset, ProviderInterface, Provider, ProviderArgs, new_provider,
}
use brickstor_csi_driver.Bsr.Api.{provider_interface}

pub record Resolver (W : Type 0) : Type 0 where
  pub nodes : List (ProviderInterface W)

-- What the loop of `Resolve` leaves: a node, or the last error; neither if there is no node.
pub data Found (W : Type 0) : Type 0 where
  node : ProviderInterface W → Found W
  last_error : Error → Found W
  nothing : Found W

module _ {W : Type 0} where
  unfoldable pub resolve_loop : Text → List (ProviderInterface W) → Found W → Eff W (Found W)
  resolve_loop path [] last = pure last
  resolve_loop path (n ∷ ns) last = do
    r ← attempt (n.get_dataset path)
    elim r [ value ds ↦ pure (node n) | failed e ↦ resolve_loop path ns (last_error e) ]

  -- `Resolve`. With no node at all the source returns a nil provider and a nil error; here the
  -- result is `none`.
  unfoldable pub resolve : Resolver W → Text → Eff W (Option (ProviderInterface W))
  unfolding resolve_loop
  resolve r path =
      if is_empty path
      then fail (plain (codes "Resolve was called with empty pool/dataset path"))
      else do
        found ← resolve_loop path r.nodes nothing
        elim found [ node n ↦ pure (some n) | last_error e ↦ fail e | nothing ↦ pure none ]

  by_address : Text → List (ProviderInterface W) → Outcome (ProviderInterface W)
  by_address addr [] = err (plain (codes "provider for address " ++ (addr ++ codes " not found")))
  by_address addr (n ∷ ns) =
      let rest = by_address addr ns in if text_eq n.addr addr then ok n else rest

  -- `ResolveByAddress`
  unfoldable pub resolve_by_address : Resolver W → Text → Outcome (ProviderInterface W)
  unfolding by_address
  resolve_by_address r addr =
      if is_empty addr
      then err (plain (codes "ResolveByAddr called with empty address"))
      else by_address addr r.nodes

pub record ResolverArgs : Type 0 where
  pub address : Text
  pub username : Text
  pub password : Text
  pub insecure_skip_verify : Bool

module _ {W : Type 0} (g : Grpc) (t : Transport W) where
  unfoldable pub new_nodes : ResolverArgs → List Text → Outcome (List (ProviderInterface W))
  new_nodes args [] = ok []
  new_nodes args (address ∷ rest) =
      elim (new_provider (record {
        address = address;
        username = args.username;
        password = args.password;
        insecure_skip_verify = args.insecure_skip_verify;
      })) [
        | ok p ↦ elim (new_nodes args rest) [
          | ok ps ↦ ok (provider_interface t p ∷ ps)
          | err e ↦ err e
          | panic ↦ panic
        ]
        | err e ↦ err (
            plain (
              codes "Cannot create provider for "
              ++ (address ++ (codes " BrickStor: " ++ error_text g e))))
        | panic ↦ panic
      ]

  -- `NewResolver`
  unfoldable pub new_resolver : ResolverArgs → Outcome (Resolver W)
  unfolding new_nodes
  new_resolver args =
      if is_empty args.address
      then err (plain (codes "BrickStor address(es) not specified"))
      else elim (new_nodes args (split b',' args.address)) [
        | ok ns ↦ ok (record { nodes = ns })
        | err e ↦ err e
        | panic ↦ panic
      ]
