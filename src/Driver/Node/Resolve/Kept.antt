-- ===== src/Driver/Node/Resolve/Kept.antt =====
-- What the node server's handlers begin with keeps what the refresh keeps.
use brickstor_csi_driver.Base.{Text, Option, none, some, Eff, Keeps, recover-Keeps}
use brickstor_csi_driver.Bsr.Provider.{ProviderInterface}
use brickstor_csi_driver.Bsr.Resolver.{Resolver, resolve}
use brickstor_csi_driver.Config.Nodes.{lookup}
use brickstor_csi_driver.Driver.State.{Platform, State, lift, refresh_node_config}
use brickstor_csi_driver.Driver.State.Kept.{IsInner, lift-Keeps}
use brickstor_csi_driver.Driver.Node.Resolve.{
  resolver_call, node_resolve_bsr, not_nil, refresh_node_or_fail, or_no_filesystem,
}

module _ {W : Type 0} (p : Platform W) (I : State W → Type 0) (inner : IsInner I) where
  resolver_call-Keeps : (r : Option (Resolver W)) (path : Text) → Keeps I (resolver_call p r path)
  unfolding resolver_call
  resolver_call-Keeps none path = λ s i. i
  resolver_call-Keeps (some r) path = lift-Keeps I inner (resolve r path)

  pub node_resolve_bsr-Keeps : (name path : Text) → Keeps I (node_resolve_bsr p name path)
  unfolding node_resolve_bsr
  node_resolve_bsr-Keeps name path s i =
      recover-Keeps I (resolver_call p (lookup name s.node) path) _ _
        (resolver_call-Keeps (lookup name s.node) path) (λ found t j. j) (λ e t j. j) s i

  pub not_nil-Keeps : (found : Option (ProviderInterface W)) → Keeps I (not_nil p found)
  not_nil-Keeps none = λ s i. i
  not_nil-Keeps (some b) = λ s i. i

  pub or_no_filesystem-Keeps :
      {A : Type 0} (what : Text) (m : Eff W A) → Keeps I (or_no_filesystem p what m)
  unfolding or_no_filesystem
  or_no_filesystem-Keeps what m =
      recover-Keeps I (lift m) _ _ (lift-Keeps I inner m) (λ a s i. i) (λ e s i. i)

  pub refresh_node_or_fail-Keeps :
      (secret : Text)
      → Keeps I (refresh_node_config p secret)
      → Keeps I (refresh_node_or_fail p secret)
  unfolding refresh_node_or_fail
  refresh_node_or_fail-Keeps secret refreshed =
      recover-Keeps I (refresh_node_config p secret) _ _ refreshed (λ u s i. i) (λ e s i. i)
