-- ===== src/Driver/Controller/Resolve/Kept.antt =====
-- `resolveBSR` of the controller changes nothing of the state but the world.
use brickstor_csi_driver.Base.{
  Text, codes, [], ◌∷◌, Option, none, some, Eff, pure, crash, ◌>>=◌, Error, Keeps, >>=-Keeps,
  if-Keeps, recover-Keeps, option-Keeps, attempt, Attempt, value, failed, if◌then◌else◌, is_empty,
  text_eq, contains, error_text,
}
use brickstor_csi_driver.Bsr.Provider.{ProviderInterface}
use brickstor_csi_driver.Bsr.Resolver.{Resolver, resolve}
use brickstor_csi_driver.Config.Nodes.{lookup, lookup_node}
use brickstor_csi_driver.Driver.State.{Platform, State, ResolverMap, lift}
use brickstor_csi_driver.Driver.State.Kept.{IsInner, lift-Keeps}
use brickstor_csi_driver.Driver.Controller.Resolve.{
  ResolveParams, ResolveResponse, no_provider, dataset_on, resolve_named, ask, search_all,
  resolve_bsr_no_zone, search_zone, zone_of_named, resolve_bsr_with_zone, resolve_bsr,
}

module _ {W : Type 0} (p : Platform W) (I : State W → Type 0) (inner : IsInner I) where
  no_provider-Keeps : (q : ResolveParams) (last : Option Error) → Keeps I (no_provider p q last)
  unfolding no_provider
  no_provider-Keeps q none = λ s i. i
  no_provider-Keeps q (some e) =
      if-Keeps I (contains (error_text p.grpc e) (codes "unknown authority")) _ _ (λ s i. i)
        (λ s i. i)

  dataset_on-Keeps : (path name : Text) → Keeps I (dataset_on p path name)
  unfolding dataset_on
  dataset_on-Keeps path name s =
      if-Keeps I (is_empty path) _ (pure path)
        (option-Keeps I (lookup_node s.config name) _ _ (λ t i. i) (λ d t i. i)) (λ t i. i) s

  resolve_named-Keeps : (path name : Text) → Keeps I (resolve_named p path name)
  unfolding resolve_named
  resolve_named-Keeps path name s =
      option-Keeps I (lookup name s.controller) crash _ (λ t i. i)
        (λ r.
          >>=-Keeps I (lift (resolve r path))
            (λ found. elim found [
              | none ↦ crash
              | some n ↦ pure (record { dataset_path = path; bsr_provider = n; config_name = name })
            ])
            (lift-Keeps I inner (resolve r path))
            (λ found. option-Keeps I found crash _ (λ t i. i) (λ n t i. i)))
        s

  ask-Keeps :
      (path name : Text) (r : Resolver W) (next : Option Error → Eff (State W) (ResolveResponse W))
      → ((last : Option Error) → Keeps I (next last))
      → Keeps I (ask p path name r next)
  ask-Keeps path name r next kept =
      >>=-Keeps I (attempt (lift (resolve r path)))
        (λ found. elim found [
          | value none ↦ next none
          | value (some n) ↦
              pure (record { dataset_path = path; bsr_provider = n; config_name = name })
          | failed e ↦ next (some e)
        ])
        (λ s i. inner s (resolve r path s.world).1 i) answered
    where
      answered :
          (found : Attempt (Option (ProviderInterface W)))
          → Keeps I {A = ResolveResponse W} (elim found [
            | value none ↦ next none
            | value (some n) ↦
                pure (record { dataset_path = path; bsr_provider = n; config_name = name })
            | failed e ↦ next (some e)
          ])
      answered (value none) = kept none
      answered (value (some n)) = λ s i. i
      answered (failed e) = kept (some e)

  search_all-Keeps :
      (q : ResolveParams) (m : ResolverMap W) (last : Option Error)
      → Keeps I (search_all p q m last)
  unfolding search_all
  search_all-Keeps q [] last = no_provider-Keeps q last
  search_all-Keeps q ((name, r) ∷ m) last =
      >>=-Keeps I (dataset_on p q.dataset_path name) (λ path. ask p path name r (search_all p q m))
        (dataset_on-Keeps q.dataset_path name)
        (λ path. ask-Keeps path name r (search_all p q m) (search_all-Keeps q m))

  named-Keeps :
      (q : ResolveParams)
      → Keeps I
          (dataset_on p q.dataset_path q.config_name >>= λ path. resolve_named p path q.config_name)
  named-Keeps q =
      >>=-Keeps I (dataset_on p q.dataset_path q.config_name)
        (λ path. resolve_named p path q.config_name) (dataset_on-Keeps q.dataset_path q.config_name)
        (λ path. resolve_named-Keeps path q.config_name)

  resolve_bsr_no_zone-Keeps : (q : ResolveParams) → Keeps I (resolve_bsr_no_zone p q)
  unfolding resolve_bsr_no_zone
  resolve_bsr_no_zone-Keeps q =
      if-Keeps I (is_empty q.config_name) _ _ (λ s. search_all-Keeps q s.controller none s)
        (named-Keeps q)

  search_zone-Keeps :
      (q : ResolveParams) (m : ResolverMap W) (last : Option Error)
      → Keeps I (search_zone p q m last)
  unfolding search_zone
  search_zone-Keeps q [] last = no_provider-Keeps q last
  search_zone-Keeps q ((name, r) ∷ m) last = λ s.
      option-Keeps I (lookup_node s.config name) _ _ (λ t i. i)
        (λ d.
          if-Keeps I (text_eq q.zone d.zone) _ _
            (ask-Keeps (if is_empty q.dataset_path then d.default_dataset else q.dataset_path) name
              r (search_zone p q m) (search_zone-Keeps q m))
            (search_zone-Keeps q m last))
        s

  resolve_bsr_with_zone-Keeps : (q : ResolveParams) → Keeps I (resolve_bsr_with_zone p q)
  unfolding resolve_bsr_with_zone zone_of_named
  resolve_bsr_with_zone-Keeps q s =
      if-Keeps I (is_empty q.config_name) _ _ (search_zone-Keeps q s.controller none)
        (option-Keeps I (lookup_node s.config q.config_name) _ _ (λ t i. i)
          (λ d. if-Keeps I (text_eq d.zone q.zone) _ _ (named-Keeps q) (λ t i. i)))
        s

  pub resolve_bsr-Keeps : (q : ResolveParams) → Keeps I (resolve_bsr p q)
  unfolding resolve_bsr
  resolve_bsr-Keeps q =
      recover-Keeps I
        (if is_empty q.zone then resolve_bsr_no_zone p q else resolve_bsr_with_zone p q) _ _
        (if-Keeps I (is_empty q.zone) _ _ (resolve_bsr_no_zone-Keeps q)
          (resolve_bsr_with_zone-Keeps q))
        (λ resp s i. i) (λ e s i. i)
