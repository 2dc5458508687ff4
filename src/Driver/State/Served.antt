-- ===== src/Driver/State/Served.antt =====
-- Where the resolvers of a process come from.
use brickstor_csi_driver.Base.{
  ◌≡◌, inl, inr, [], Text, some, ok, Outcome-cases, Eff, pure, ◌>>=◌, Keeps, >>=-Keeps, if-Keeps,
  if◌then◌else◌,
}
use brickstor_csi_driver.Bsr.Resolver.{Resolver}
use brickstor_csi_driver.Config.Nodes.{BsrData, Config, lookup}
use brickstor_csi_driver.Driver.State.{
  Platform, State, ResolverMap, node_resolver, new_resolver_map, refresh_shared, refresh_config,
  refresh_node_config, rebuild_node, rebuild_controller, return, put_node, put_controller,
}
use brickstor_csi_driver.Driver.State.Resolvers.{new_resolver_map-Matches}

module _ {W : Type 0} (p : Platform W) where
  -- Each resolver of the map is one that the data of a node give.
  abbrev pub IsMade : ResolverMap W → Type 0
  IsMade m =
      (name : Text) (r : Resolver W)
      → lookup name m ≡ some r
      → (d : BsrData) × (node_resolver p d ≡ ok r)

  -- So are those of both maps.
  abbrev pub AllServed : State W → Type 0
  AllServed s = IsMade s.controller × IsMade s.node

  pub nothing-IsMade : IsMade []
  unfolding lookup
  nothing-IsMade name r h = cc h

  pub new_resolver_map-IsMade :
      (c : Config) (m : ResolverMap W) → new_resolver_map p c ≡ ok m → IsMade m
  new_resolver_map-IsMade c m h name r there = elim (new_resolver_map-Matches p c m name h) [
    | inl (missing, e) ↦ cc (there, missing)
    | inr (x, d, found, known, made) ↦ (d, cc (there, found, made))
  ]

  -- A map that is made from a configuration takes the place of the one before.
  pub install-Keeps :
      (c : Config) (put : ResolverMap W → Eff (State W) (Unit {0}))
      → ((m : ResolverMap W) (s : State W) → IsMade m → AllServed s → AllServed (put m s).1)
      → Keeps AllServed (return (new_resolver_map p c) >>= put)
  install-Keeps c put placed s i = elim (Outcome-cases (new_resolver_map p c)) [
    | inl (m, e) ↦ rw (e, ◌>>=◌) (placed m s (new_resolver_map-IsMade c m e) i)
    | inr (inl (x, e)) ↦ rw (e, ◌>>=◌) i
    | inr (inr e) ↦ rw (e, ◌>>=◌) i
  ]

  pub refresh_node_config-AllServed :
      (secret : Text) → Keeps AllServed (refresh_node_config p secret)
  unfolding refresh_node_config rebuild_node refresh_shared
  refresh_node_config-AllServed secret =
      >>=-Keeps AllServed (refresh_shared p secret)
        (λ changed. if changed then rebuild_node p else pure tt) (λ s i. i)
        (λ changed.
          if-Keeps AllServed changed (rebuild_node p) (pure tt)
            (λ s. install-Keeps s.config put_node (λ m t made i. (i.0, made)) s) (λ s i. i))

  pub refresh_config-AllServed : (secret : Text) → Keeps AllServed (refresh_config p secret)
  unfolding refresh_config rebuild_controller refresh_shared
  refresh_config-AllServed secret =
      >>=-Keeps AllServed (refresh_shared p secret)
        (λ changed. if changed then rebuild_controller p else pure tt) (λ s i. i)
        (λ changed.
          if-Keeps AllServed changed (rebuild_controller p) (pure tt)
            (λ s. install-Keeps s.config put_controller (λ m t made i. (made, i.1)) s) (λ s i. i))
