-- ===== src/Driver/State/Resolvers.antt =====
-- What a resolver map holds: for each configured name a resolver of that node, and nothing else.
use brickstor_csi_driver.Base.{
  ◌≡◌, ◌⊎◌, refl, inl, inr, false, Bool-cases, Option-cases, List, [], ◌∷◌, Text, none, some,
  Outcome, ok, err, panic, text_eq, text_eq→eq,
}
use brickstor_csi_driver.Bsr.Resolver.{Resolver}
use brickstor_csi_driver.Config.Nodes.{Config, BsrData, lookup, lookup_node, node_names}
use brickstor_csi_driver.Config.Nodes.Sorted.{sorted_names-contains}
use brickstor_csi_driver.Config.Validate.{contains_string}
use brickstor_csi_driver.Driver.State.{
  Platform, ResolverMap, node_resolver, with_resolver, resolvers_for, new_resolver_map,
}

module _ {W : Type 0} (p : Platform W) where
  -- A name has a resolver exactly if it is configured, and it is one of the node's data.
  abbrev pub Matches : Config → ResolverMap W → Text → Type 0
  Matches c m name =
      ((lookup name m ≡ none) × (lookup_node c name ≡ none))
      ⊎ ((r : Resolver W) × (d : BsrData) × (lookup name m ≡ some r)
          × (lookup_node c name ≡ some d)
          × (node_resolver p d ≡ ok r))

  with_resolver-inv :
      (name : Text) (r : Outcome (Resolver W)) (rest : Outcome (ResolverMap W)) (m : ResolverMap W)
      → with_resolver p name r rest ≡ ok m
      → (x : Resolver W) × (l : ResolverMap W) × (r ≡ ok x) × (rest ≡ ok l) × (m ≡ (name, x) ∷ l)
  unfolding with_resolver
  with_resolver-inv name (ok x) (ok l) m h = (x, l, refl, refl, cc h)
  with_resolver-inv name (ok x) (err e) m h = cc h
  with_resolver-inv name (ok x) panic m h = cc h
  with_resolver-inv name (err e) rest m h = cc h
  with_resolver-inv name panic rest m h = cc h

  -- For a name of the list.
  resolvers_for-Matches :
      (c : Config) (names : List Text) (m : ResolverMap W) (name : Text)
      → resolvers_for p c names ≡ ok m
      → Matches c m name ⊎ ((lookup name m ≡ none) × (contains_string names name ≡ false))
  unfolding resolvers_for contains_string lookup
  resolvers_for-Matches c [] m name h =
      let same : ◌≡◌ {A = ResolverMap W} [] m = cc h in
      inr (rw (← same) (unfold lookup in refl), refl)
  resolvers_for-Matches c (n ∷ ns) m name h = elim (Option-cases (lookup_node c n)) [
    | inl e ↦ unconfigured e (resolvers_for-Matches c ns m name (rw (e, resolvers_for) at h))
    | inr (d, e) ↦
        let (x, l, made, rest, same) =
          with_resolver-inv n (node_resolver p d) (resolvers_for p c ns) m
            (rw (e, resolvers_for) at h) in
        rw same (configured d x l e made (resolvers_for-Matches c ns l name rest))
  ]
    where
      unconfigured :
          lookup_node c n ≡ none
          → Matches c m name ⊎ ((lookup name m ≡ none) × (contains_string ns name ≡ false))
          → Matches c m name ⊎ ((lookup name m ≡ none) × (contains_string (n ∷ ns) name ≡ false))
      unconfigured e (inl k) = inl k
      unconfigured e (inr (none_there, out)) = elim (Bool-cases (text_eq n name)) [
        | inl f ↦ let same : n ≡ name = text_eq→eq n name f in inl (inl (none_there, rw same at e))
        | inr f ↦ inr (none_there, rw (f, contains_string) out)
      ]

      configured :
          (d : BsrData) (x : Resolver W) (l : ResolverMap W)
          → lookup_node c n ≡ some d
          → node_resolver p d ≡ ok x
          → Matches c l name ⊎ ((lookup name l ≡ none) × (contains_string ns name ≡ false))
          → Matches c ((n, x) ∷ l) name
            ⊎ ((lookup name ((n, x) ∷ l) ≡ none) × (contains_string (n ∷ ns) name ≡ false))
      configured d x l e made rest = elim (Bool-cases (text_eq n name)) [
        | inl f ↦
            let same : n ≡ name = text_eq→eq n name f in
            inl (inr (x, d, rw (f, lookup) refl, rw same at e, made))
        | inr f ↦ rw (f, lookup, contains_string) rest
      ]

  -- The resolver map that is made from a configuration answers for each name as the configuration
  -- does: a name that is not configured has no resolver, and one that is has the resolver that its
  -- node's data give.
  pub new_resolver_map-Matches :
      (c : Config) (m : ResolverMap W) (name : Text)
      → new_resolver_map p c ≡ ok m
      → Matches c m name
  unfolding new_resolver_map
  new_resolver_map-Matches c m name h = elim (resolvers_for-Matches c (node_names c) m name h) [
    | inl k ↦ k
    | inr (none_there, out) ↦ elim (Option-cases (lookup_node c name)) [
      | inl e ↦ inl (none_there, e)
      | inr (d, e) ↦ let there = sorted_names-contains c.node_map name d e in cc (there, out)
    ]
  ]
