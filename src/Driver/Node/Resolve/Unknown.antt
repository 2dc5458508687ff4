-- ===== src/Driver/Node/Resolve/Unknown.antt =====
-- The start of the node server's handlers: which volumes end in a nil dereference.
use brickstor_csi_driver.Base.{
  ◌≡◌, ◌≢◌, ◌↔◌, refl, inl, inr, ok, panic, Text, none, some, ◌>>=◌, Outcome-cases, Option-cases,
}
use brickstor_csi_driver.Bsr.Resolver.{resolve}
use brickstor_csi_driver.Bsr.Resolver.Calm.{AllReady, resolve-Calm}
use brickstor_csi_driver.Config.Nodes.{lookup}
use brickstor_csi_driver.Driver.State.{Platform, State}
use brickstor_csi_driver.Driver.Node.Resolve.{node_resolve_bsr, resolver_call}

module _ {W : Type 0} (p : Platform W) where
  -- `resolveBSR` of the node server ends in a nil dereference exactly if the server has no resolver
  -- for the name, and it never answers with a nil provider. Each resolver that it has must have a
  -- provider, and none of these may panic when it is asked for a dataset.
  pub node_resolve_bsr-panic :
      (name path : Text) (s : State W)
      → AllReady s.node
      → ((node_resolve_bsr p name path s).0 ≡ panic ↔ lookup name s.node ≡ none)
        × ((node_resolve_bsr p name path s).0 ≢ ok none)
  unfolding node_resolve_bsr resolver_call
  node_resolve_bsr-panic name path s ready = elim (Option-cases (lookup name s.node)) [
    | inl e ↦ ((λ h. e, λ h. rw (e, ◌>>=◌) refl), λ h. let bad = rw (e, ◌>>=◌) at h in cc bad)
    | inr (r, e) ↦
        let (calm, manned) = ready name r e in
        let (no_panic, not_nil) = resolve-Calm r path s.world calm manned in
        elim (Outcome-cases (resolve r path s.world).0) [
          | inl (none, f) ↦ absurd (not_nil f)
          | inl (some n, f) ↦ (
            (λ h. let bad = rw (e, ◌>>=◌, f) at h in cc bad, λ h. cc (h, e)),
            λ h. let bad = rw (e, ◌>>=◌, f) at h in cc bad,
          )
          | inr (inl (x, f)) ↦ (
            (λ h. let bad = rw (e, ◌>>=◌, f) at h in cc bad, λ h. cc (h, e)),
            λ h. let bad = rw (e, ◌>>=◌, f) at h in cc bad,
          )
          | inr (inr f) ↦ absurd (no_panic f)
        ]
  ]
