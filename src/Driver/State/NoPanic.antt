-- ===== src/Driver/State/NoPanic.antt =====
-- Panics of `newResolverMap` and of the controller's `refreshConfig`.
use mathlib.Core.Path.{subst}
use brickstor_csi_driver.Base.{
  ◌≡◌, ◌≢◌, refl, inl, inr, Bool, true, false, List, [], ◌∷◌, Text, Option, none, some, arith,
  Outcome, ok, err, panic, Error, if◌then◌else◌, pure, >>=-ok, >>=-err, Outcome-cases, Bool-cases,
  Option-cases, text_eq, split,
}
use brickstor_csi_driver.Bsr.Provider.{ProviderArgs, new_provider}
use brickstor_csi_driver.Bsr.Resolver.{Resolver, ResolverArgs, new_resolver, new_nodes}
use brickstor_csi_driver.Config.Nodes.{Config, BsrData, NodeMap, lookup}
use brickstor_csi_driver.Config.Validate.Sound.{AllUsable}
use brickstor_csi_driver.Config.Refresh.Outcomes.{IsCalm, refresh-IsSafe}
use brickstor_csi_driver.Driver.State.{
  refresh_config, refresh_shared, rebuild_controller, Platform, State, node_resolver, with_resolver,
  resolvers_for, new_resolver_map,
}

new_provider-ne-panic : (args : ProviderArgs) → new_provider args ≢ panic
unfolding new_provider
new_provider-ne-panic args h = ground arith

module _ {W : Type 0} (p : Platform W) where
  new_nodes-ne-panic :
      (args : ResolverArgs) (addresses : List Text)
      → new_nodes p.grpc p.transport args addresses ≢ panic
  unfolding new_nodes
  new_nodes-ne-panic args [] h = cc
  new_nodes-ne-panic args (a ∷ rest) h = ground (
    arith,
    new_nodes-ne-panic args rest,
    new_provider-ne-panic (record {
      address = a;
      username = args.username;
      password = args.password;
      insecure_skip_verify = args.insecure_skip_verify;
    }),
  )

  new_resolver-ne-panic : (args : ResolverArgs) → new_resolver p.grpc p.transport args ≢ panic
  unfolding new_resolver
  new_resolver-ne-panic args h = ground (arith, new_nodes-ne-panic args (split b',' args.address))

  node_resolver-ne-panic : (d : BsrData) → d.insecure_skip_verify ≢ none → node_resolver p d ≢ panic
  unfolding node_resolver
  node_resolver-ne-panic d set h = elim (Option-cases d.insecure_skip_verify) [
    | inl e ↦ absurd (set e)
    | inr (skip, e) ↦ ground (
      arith,
      new_resolver-ne-panic (record {
        address = d.address;
        username = d.username;
        password = d.password;
        insecure_skip_verify = skip;
      }),
    )
  ]

  lookup-IsUsable :
      (m : NodeMap) (name : Text) (d : BsrData)
      → AllUsable m
      → lookup name m ≡ some d
      → d.insecure_skip_verify ≢ none
  unfolding lookup
  lookup-IsUsable [] name d u h = cc
  lookup-IsUsable ((k, v) ∷ m) name d (first, rest) h = elim (Bool-cases (text_eq k name)) [
    | inl e ↦
        let same : ◌≡◌ {A = Option BsrData} (some v) (some d) = rw e at h in
        let found : v ≡ d = cc in
        subst (λ (x : BsrData). x.insecure_skip_verify ≢ none) found first.tls
    | inr e ↦ lookup-IsUsable m name d rest (rw e at h)
  ]

  with_resolver-ne-panic :
      (name : Text) (r : Outcome (Resolver W)) (m : Outcome (List (Text × Resolver W)))
      → r ≢ panic
      → m ≢ panic
      → with_resolver p name r m ≢ panic
  unfolding with_resolver
  with_resolver-ne-panic name (ok r) (ok m) hr hm h = cc
  with_resolver-ne-panic name (ok r) (err e) hr hm h = cc
  with_resolver-ne-panic name (ok r) panic hr hm h = hm refl
  with_resolver-ne-panic name (err e) m hr hm h = cc
  with_resolver-ne-panic name panic m hr hm h = hr refl

  resolvers_for-ne-panic :
      (c : Config) (names : List Text) → AllUsable c.node_map → resolvers_for p c names ≢ panic
  unfolding resolvers_for
  resolvers_for-ne-panic c [] u h = cc
  resolvers_for-ne-panic c (name ∷ names) u h = elim (Option-cases (lookup name c.node_map)) [
    | inl e ↦ resolvers_for-ne-panic c names u (rw (e, resolvers_for) at h)
    | inr (d, e) ↦
        with_resolver-ne-panic name (node_resolver p d) (resolvers_for p c names)
          (node_resolver-ne-panic d (lookup-IsUsable c.node_map name d u e))
          (resolvers_for-ne-panic c names u) (rw (e, resolvers_for) at h)
  ]

  -- From a configuration whose nodes are usable the resolver map is made, or refused with an error.
  pub new_resolver_map-ne-panic : (c : Config) → AllUsable c.node_map → new_resolver_map p c ≢ panic
  unfolding new_resolver_map
  new_resolver_map-ne-panic c u = resolvers_for-ne-panic c _ u

  rebuild-ne-panic :
      (s : State W) → AllUsable s.config.node_map → (rebuild_controller p s).0 ≢ panic
  unfolding rebuild_controller
  rebuild-ne-panic s u h = ground (arith, new_resolver_map-ne-panic s.config u)

  after_change : Bool → State W → Outcome (Unit {0}) × State W
  after_change changed = if changed then rebuild_controller p else pure tt

  module _ (secret : Text) (s : State W) where
    refresh_config-ok :
        (changed : Bool)
        → (refresh_shared p secret s).0 ≡ ok changed
        → refresh_config p secret s ≡ after_change changed (refresh_shared p secret s).1
    unfolding refresh_config after_change
    refresh_config-ok changed e =
        >>=-ok (refresh_shared p secret) (λ b. if b then rebuild_controller p else pure tt) s e

    refresh_config-err :
        (x : Error)
        → (refresh_shared p secret s).0 ≡ err x
        → refresh_config p secret s ≡ (err x, (refresh_shared p secret s).1)
    unfolding refresh_config
    refresh_config-err x e =
        >>=-err (refresh_shared p secret) (λ b. if b then rebuild_controller p else pure tt) s e

  pub refresh_shared-IsSafe :
      (secret : Text) (s : State W)
      → IsCalm p.grpc p.files
      → let r = refresh_shared p secret s in
        (r.0 ≡ ok true → AllUsable r.1.config.node_map) × (r.0 ≢ panic)
  unfolding refresh_shared
  refresh_shared-IsSafe secret s calm =
      refresh-IsSafe p.grpc p.files secret (s.config, s.world) calm

  -- If the file system does not panic, then neither does `refreshConfig` of the controller.
  pub refresh_config-ne-panic :
      (secret : Text) (s : State W) → IsCalm p.grpc p.files → (refresh_config p secret s).0 ≢ panic
  unfolding after_change
  refresh_config-ne-panic secret s calm h =
      let r = refresh_shared p secret s in
      let (usable, no_panic) = refresh_shared-IsSafe secret s calm in
      elim (Outcome-cases r.0) [
        | inl (true, e) ↦
            rebuild-ne-panic r.1 (usable e) (rw (refresh_config-ok secret s true e) at h)
        | inl (false, e) ↦ let bad = rw (refresh_config-ok secret s false e) at h in cc bad
        | inr (inl (x, e)) ↦ let bad = rw (refresh_config-err secret s x e) at h in cc bad
        | inr (inr e) ↦ no_panic e
      ]
