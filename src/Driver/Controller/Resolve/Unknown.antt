-- ===== src/Driver/Controller/Resolve/Unknown.antt =====
-- Which requests end in a nil dereference: those for a BrickStor that the controller has no resolver
-- for, and those for a zone that none has.
use brickstor_csi_driver.Base.{
  ◌≡◌, ◌↔◌, ◌⊎◌, ◌∙◌, refl, ap, sym, inl, inr, ok, err, panic, true, false, [], ◌∷◌, Text, none,
  some, is_empty, text_eq, ◌>>=◌, >>=-to, Outcome-cases, Option-cases, Bool-cases, Eff,
  if◌then◌else◌,
}
use brickstor_csi_driver.Bsr.Resolver.{resolve}
use brickstor_csi_driver.Bsr.Resolver.Calm.{AllReady, resolve-Calm}
use brickstor_csi_driver.Config.Nodes.{BsrData, NodeMap, lookup, lookup_node}
use brickstor_csi_driver.Driver.State.{Platform, State, ResolverMap}
use brickstor_csi_driver.Driver.Controller.Resolve.{
  ResolveParams, ResolveResponse, resolve_named, dataset_on, search_zone, no_provider,
  zone_of_named, node_removed, wrong_zone, resolve_bsr_no_zone, resolve_bsr_with_zone, resolve_bsr,
}

module _ {W : Type 0} (p : Platform W) (q : ResolveParams) where
  -- The named BrickStor is asked: there is no zone, or it is in the zone.
  abbrev pub IsAsked : State W → Type 0
  IsAsked s =
      (is_empty q.zone ≡ true)
      ⊎ ((is_empty q.zone ≡ false)
          × ((d : BsrData) × (lookup_node s.config q.config_name ≡ some d)
              × (text_eq d.zone q.zone ≡ true)))

  resolve_named-panic :
      (path : Text) (s : State W)
      → AllReady s.controller
      → (resolve_named p path q.config_name s).0 ≡ panic ↔ lookup q.config_name s.controller ≡ none
  unfolding resolve_named
  resolve_named-panic path s ready = elim (Option-cases (lookup q.config_name s.controller)) [
    | inl e ↦ (λ h. e, λ h. rw (e, ◌>>=◌) refl)
    | inr (r, e) ↦
        let (calm, manned) = ready q.config_name r e in
        let (no_panic, not_nil) = resolve-Calm r path s.world calm manned in
        elim (Outcome-cases (resolve r path s.world).0) [
          | inl (none, f) ↦ absurd (not_nil f)
          | inl (some n, f) ↦ (λ h. let bad = rw (e, ◌>>=◌, f) at h in cc bad, λ h. cc (h, e))
          | inr (inl (x, f)) ↦ (λ h. let bad = rw (e, ◌>>=◌, f) at h in cc bad, λ h. cc (h, e))
          | inr (inr f) ↦ absurd (no_panic f)
        ]
  ]

  resolve_bsr_half :
      (s : State W)
      → (resolve_bsr p q s).0 ≡ panic
        ↔ ((if is_empty q.zone then resolve_bsr_no_zone p q else resolve_bsr_with_zone p q) s).0
          ≡ panic
  unfolding resolve_bsr
  resolve_bsr_half s =
      let half = if is_empty q.zone then resolve_bsr_no_zone p q else resolve_bsr_with_zone p q in
      elim (Outcome-cases (half s).0) [
        | inl (r, e) ↦ (λ h. let bad = rw (◌>>=◌, e) at h in cc bad, λ h. cc (h, e))
        | inr (inl (x, e)) ↦ (λ h. let bad = rw (◌>>=◌, e) at h in cc bad, λ h. cc (h, e))
        | inr (inr e) ↦ (λ h. e, λ h. rw (◌>>=◌, e) refl)
      ]

  module _ (s : State W) (named : is_empty q.config_name ≡ false)
      (given : is_empty q.dataset_path ≡ false) where
    dataset_given : dataset_on p q.dataset_path q.config_name s ≡ (ok q.dataset_path, s)
    unfolding dataset_on
    dataset_given = rw (given, dataset_on) refl

    abbrev by_name : Eff (State W) (ResolveResponse W)
    by_name =
        dataset_on p q.dataset_path q.config_name >>= λ path. resolve_named p path q.config_name

    by_name_given : by_name s ≡ resolve_named p q.dataset_path q.config_name s
    by_name_given =
        >>=-to (dataset_on p q.dataset_path q.config_name)
          (λ path. resolve_named p path q.config_name) s dataset_given

    no_zone_named : resolve_bsr_no_zone p q s ≡ resolve_named p q.dataset_path q.config_name s
    unfolding resolve_bsr_no_zone
    no_zone_named = rw named by_name_given

    abbrev IsMissing : Type 0
    IsMissing = lookup q.config_name s.controller ≡ none

    zone_removed :
        lookup_node s.config q.config_name ≡ none
        → resolve_bsr_with_zone p q s ≡ (err (node_removed p q.config_name), s)
    unfolding resolve_bsr_with_zone
    zone_removed e = rw (named, e) refl

    zone_here :
        (d : BsrData)
        → lookup_node s.config q.config_name ≡ some d
        → text_eq d.zone q.zone ≡ true
        → resolve_bsr_with_zone p q s ≡ resolve_named p q.dataset_path q.config_name s
    unfolding resolve_bsr_with_zone zone_of_named
    zone_here d e here = rw (named, e, here) by_name_given

    zone_other :
        (d : BsrData)
        → lookup_node s.config q.config_name ≡ some d
        → text_eq d.zone q.zone ≡ false
        → resolve_bsr_with_zone p q s ≡ (err (wrong_zone p q), s)
    unfolding resolve_bsr_with_zone zone_of_named
    zone_other d e other = rw (named, e, other) refl

    with_zone-panic :
        AllReady s.controller
        → is_empty q.zone ≡ false
        → (resolve_bsr_with_zone p q s).0 ≡ panic ↔ IsAsked s × IsMissing
    with_zone-panic ready zone = elim (Option-cases (lookup_node s.config q.config_name)) [
      | inl e ↦ (
        λ h. let bad = ap (λ r. r.0) (sym (zone_removed e)) ∙ h in cc bad,
        λ h. elim h.0 [
          | inl none_asked ↦ cc (none_asked, zone)
          | inr (_, (d, known, _)) ↦ cc (known, e)
        ],
      )
      | inr (d, e) ↦ elim (Bool-cases (text_eq d.zone q.zone)) [
        | inl here ↦
            let same = ap (λ r. r.0) (zone_here d e here) in
            let (to, from) = resolve_named-panic q.dataset_path s ready in
            (λ h. (inr (zone, (d, e, here)), to (sym same ∙ h)), λ h. same ∙ from h.1)
        | inr other ↦ (
          λ h. let bad = ap (λ r. r.0) (sym (zone_other d e other)) ∙ h in cc bad,
          λ h. elim h.0 [
            | inl none_asked ↦ cc (none_asked, zone)
            | inr (_, (d', known, here)) ↦
                let same : d' ≡ d = cc (known, e) in
                let there : text_eq d.zone q.zone ≡ true = rw same at here in cc (there, other)
          ],
        )
      ]
    ]

    half-panic :
        AllReady s.controller
        → ((if is_empty q.zone then resolve_bsr_no_zone p q else resolve_bsr_with_zone p q) s).0
            ≡ panic
          ↔ IsAsked s × IsMissing
    half-panic ready = elim (Bool-cases (is_empty q.zone)) [
      | inl zone ↦
          let same =
            ap (λ b. ((if b then resolve_bsr_no_zone p q else resolve_bsr_with_zone p q) s).0) zone
            ∙ ap (λ r. r.0) no_zone_named in
          let (to, from) = resolve_named-panic q.dataset_path s ready in
          (λ h. (inl zone, to (sym same ∙ h)), λ h. same ∙ from h.1)
      | inr zone ↦
          let same =
            ap (λ b. ((if b then resolve_bsr_no_zone p q else resolve_bsr_with_zone p q) s).0)
              zone in
          let (to, from) = with_zone-panic ready zone in
          (λ h. to (sym same ∙ h), λ h. same ∙ from h)
    ]

    -- A request that names a dataset and a BrickStor ends in a nil dereference exactly if the
    -- BrickStor is asked, because there is no zone or its data put it in the zone, and the
    -- controller has no resolver for it. Each resolver that it has must have a provider, and none of
    -- these may panic when it is asked for a dataset.
    pub resolve_bsr-panic :
        AllReady s.controller
        → (resolve_bsr p q s).0 ≡ panic ↔ IsAsked s × (lookup q.config_name s.controller ≡ none)
    resolve_bsr-panic ready =
        let (to, from) = resolve_bsr_half s in
        let (to', from') = half-panic ready in (λ h. to' (to h), λ h. from (from' h))

  -- Each node that the controller has a resolver for is configured, and in another zone.
  abbrev pub AllElsewhere : NodeMap → ResolverMap W → Type 0
  AllElsewhere m [] = Unit
  AllElsewhere m ((name, r) ∷ rest) =
      ((d : BsrData) × (lookup name m ≡ some d) × (text_eq q.zone d.zone ≡ false))
      × AllElsewhere m rest

  search_zone-elsewhere :
      (m : ResolverMap W) (s : State W)
      → AllElsewhere s.config.node_map m
      → (search_zone p q m none s).0 ≡ panic
  unfolding search_zone no_provider
  search_zone-elsewhere [] s h = refl
  search_zone-elsewhere ((name, r) ∷ m) s ((d, known, other), rest) =
      rw (known, other, ◌>>=◌) (search_zone-elsewhere m s rest)

  -- A request for a zone in which no node is, with no node named, ends in a nil dereference: the
  -- loop asks nobody, and its error stays nil.
  pub resolve_bsr_with_zone-nowhere :
      (s : State W)
      → is_empty q.config_name ≡ true
      → AllElsewhere s.config.node_map s.controller
      → (resolve_bsr_with_zone p q s).0 ≡ panic
  unfolding resolve_bsr_with_zone
  resolve_bsr_with_zone-nowhere s unnamed h = rw unnamed (search_zone-elsewhere s.controller s h)
