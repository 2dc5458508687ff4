-- ===== src/Driver/Controller/Resolve/Zone.antt =====
-- Where a volume may be placed: the zone of the node that is resolved, and what happens when no
-- node is in the zone.
use brickstor_csi_driver.Base.{
  ◌≡◌, if◌then◌else◌, refl, ap, sym, ◌∙◌, inl, inr, [], ◌∷◌, Text, Option, none, some, arith, ◌>>=◌,
  Outcome, ok, err, panic, Error, Outcome-cases, Bool-cases, Option-cases, is_empty, text_eq,
  text_eq→eq,
}
use brickstor_csi_driver.Bsr.Resolver.{Resolver, resolve}
use brickstor_csi_driver.Config.Nodes.{BsrData, NodeMap, lookup}
use brickstor_csi_driver.Driver.State.{Platform, State, ResolverMap}
use brickstor_csi_driver.Driver.Controller.Resolve.{
  ResolveParams, ResolveResponse, no_provider, ask, dataset_on, resolve_named, search_zone,
  zone_of_named, resolve_bsr_with_zone,
}

module _ {W : Type 0} (p : Platform W) (q : ResolveParams) where
  -- The node that the response names is in the zone that was asked for, by a configuration.
  abbrev pub InZone : NodeMap → Outcome (ResolveResponse W) → Type 0
  InZone m (ok resp) = (d : BsrData) × (lookup resp.config_name m ≡ some d) × (d.zone ≡ q.zone)
  InZone m (err e) = Unit
  InZone m panic = Unit

  no_provider-InZone :
      (last : Option Error) (s : State W) (m : NodeMap) → InZone m (no_provider p q last s).0
  unfolding no_provider
  no_provider-InZone none s m = tt
  no_provider-InZone (some e) s m = ground arith

  -- One round of the loop keeps the property, if the node is in the zone.
  ask-InZone :
      (path name : Text) (r : Resolver W)
      (next : Option Error → State W → Outcome (ResolveResponse W) × State W) (s : State W)
      (m : NodeMap) (d : BsrData)
      → lookup name m ≡ some d
      → d.zone ≡ q.zone
      → ((e : Option Error) (t : State W) → t.config ≡ s.config → InZone m (next e t).0)
      → InZone m (ask p path name r next s).0
  ask-InZone path name r next s m d known zone rest =
      elim (Outcome-cases (resolve r path s.world).0) [
        | inl (none, e) ↦ rw (e, InZone) (rest none _ refl)
        | inl (some n, e) ↦ rw (e, InZone) (d, known, zone)
        | inr (inl (x, e)) ↦ rw (e, InZone) (rest (some x) _ refl)
        | inr (inr e) ↦ rw (e, InZone) tt
      ]

  search_zone-InZone :
      (m : ResolverMap W) (last : Option Error) (s : State W) (c : NodeMap)
      → s.config.node_map ≡ c
      → InZone c (search_zone p q m last s).0
  unfolding search_zone
  search_zone-InZone [] last s c same = no_provider-InZone last s c
  search_zone-InZone ((name, r) ∷ m) last s c same =
      elim (Option-cases (lookup name s.config.node_map)) [
        | inl e ↦ rw (e, InZone) tt
        | inr (d, e) ↦ elim (Bool-cases (text_eq q.zone d.zone)) [
          | inl here ↦
              rw (e, here, InZone)
                (ask-InZone (if is_empty q.dataset_path then d.default_dataset else q.dataset_path)
                  name r (search_zone p q m) s c d (rw (← same) e)
                  (sym (text_eq→eq q.zone d.zone here))
                  (λ x t kept. search_zone-InZone m x t c (ap (λ z. z.node_map) kept ∙ same)))
          | inr other ↦ rw (e, other, InZone) (search_zone-InZone m last s c same)
        ]
      ]

  -- A named node is answered for under its own name, if it is answered for at all.
  resolve_named-InZone :
      (path : Text) (s : State W) (d : BsrData)
      → lookup q.config_name s.config.node_map ≡ some d
      → d.zone ≡ q.zone
      → InZone s.config.node_map (resolve_named p path q.config_name s).0
  unfolding resolve_named
  resolve_named-InZone path s d known zone =
      elim (Option-cases (lookup q.config_name s.controller)) [
        | inl e ↦ rw (e, InZone) tt
        | inr (r, e) ↦ elim (Outcome-cases (resolve r path s.world).0) [
          | inl (none, f) ↦ rw (e, f, InZone) tt
          | inl (some n, f) ↦ rw (e, f, InZone) (d, known, zone)
          | inr (inl (x, f)) ↦ rw (e, f, InZone) tt
          | inr (inr f) ↦ rw (e, f, InZone) tt
        ]
      ]

  -- What is looked for on a node that the configuration has.
  dataset_on_lem :
      (path name : Text) (s : State W) (d : BsrData)
      → lookup name s.config.node_map ≡ some d
      → dataset_on p path name s ≡ (ok (if is_empty path then d.default_dataset else path), s)
  unfolding dataset_on
  dataset_on_lem path name s d known = elim (Bool-cases (is_empty path)) [
    | inl e ↦ ground arith
    | inr e ↦ ground arith
  ]

  zone_of_named-InZone :
      (s : State W) (d : BsrData)
      → lookup q.config_name s.config.node_map ≡ some d
      → InZone s.config.node_map (zone_of_named p q d s).0
  unfolding zone_of_named
  zone_of_named-InZone s d known = elim (Bool-cases (text_eq d.zone q.zone)) [
    | inl here ↦
        let found = dataset_on_lem q.dataset_path q.config_name s d known in
        rw (here, ◌>>=◌, ap (λ r. r.0) found, ap (λ r. r.1) found)
          (resolve_named-InZone
            (if is_empty q.dataset_path then d.default_dataset else q.dataset_path) s d known
            (text_eq→eq d.zone q.zone here))
    | inr other ↦ rw (other, InZone) tt
  ]

  -- Whatever node `resolveBsrWithZone` answers with, the configuration puts it in the zone that
  -- was asked for, whether the node was named or found by a search.
  pub resolve_bsr_with_zone-InZone :
      (s : State W) → InZone s.config.node_map (resolve_bsr_with_zone p q s).0
  unfolding resolve_bsr_with_zone
  resolve_bsr_with_zone-InZone s = elim (Bool-cases (is_empty q.config_name)) [
    | inl e ↦ rw e (search_zone-InZone s.controller none s s.config.node_map refl)
    | inr e ↦ elim (Option-cases (lookup q.config_name s.config.node_map)) [
      | inl f ↦ rw (e, f, InZone) tt
      | inr (d, f) ↦ rw (e, f) (zone_of_named-InZone s d f)
    ]
  ]
