-- ===== src/Driver/Process/Servers.antt =====
-- Which servers run, and on which resolvers.
use mathlib.Core.Path.{subst}
use brickstor_csi_driver.Base.{
  ◌≡◌, refl, ap, sym, ◌∙◌, inl, inr, Bool, true, false, Bool-cases, List, [], ◌∷◌, ◌++◌, Text,
  codes, ok, Outcome, Outcome-cases, Eff, pure, ◌>>=◌, >>=-ok-inv, >>=-to, ◌>>◌, ◌⊎◌, if◌then◌else◌,
}
use brickstor_csi_driver.Driver.State.{
  Platform, State, ResolverMap, new_resolver_map, put_controller, put_node,
}
use brickstor_csi_driver.Driver.Role.{Role, is_controller, is_node}
use brickstor_csi_driver.Driver.Process.{
  Sockets, Service, identity, controller, node, new_server, start_controller, start_node, with_node,
  start_servers,
}

module _ {W : Type 0} (p : Platform W) (h : Sockets W) where
  new_server-ok :
      (name : Text) (put : ResolverMap W → Eff (State W) (Unit {0})) (s : State W)
      → (new_server p h name put s).0 ≡ ok tt
      → (m : ResolverMap W) × (new_resolver_map p s.config ≡ ok m)
        × (new_server p h name put s ≡ put m s)
  unfolding new_server
  new_server-ok name put s k = elim (Outcome-cases (new_resolver_map p s.config)) [
    | inl (m, e) ↦ (m, e, rw (e, ◌>>=◌) refl)
    | inr (inl (x, e)) ↦ let bad = rw (e, ◌>>=◌) at k in cc bad
    | inr (inr e) ↦ let bad = rw (e, ◌>>=◌) at k in cc bad
  ]

  -- A server of a role that asks for it is made from the configuration, and put where it belongs.
  abbrev Started :
      Bool
      → Service
      → (ResolverMap W → State W → State W)
      → Eff (State W) (List Service)
      → State W
      → Type 0
  Started asked service put m s =
      ((asked ≡ true)
        × ((r : ResolverMap W) × (new_resolver_map p s.config ≡ ok r)
            × (m s ≡ (ok (service ∷ []), put r s))))
      ⊎ ((asked ≡ false) × (m s ≡ (ok [], s)))

  abbrev set_controller : ResolverMap W → State W → State W
  set_controller r s = record s { controller = r }

  abbrev set_node : ResolverMap W → State W → State W
  set_node r s = record s { node = r }

  start_controller-Started :
      (role : Role) (s : State W) (cs : List Service)
      → (start_controller p h role s).0 ≡ ok cs
      → Started (is_controller role) controller set_controller (start_controller p h role) s
  unfolding start_controller
  start_controller-Started role s cs k = elim (Bool-cases (is_controller role)) [
    | inr e ↦ inr (e, rw (e, start_controller) refl)
    | inl e ↦
        let make = new_server p h (codes "ControllerServer") put_controller in
        let k1 = rw (e, start_controller) at k in
        let (u, f, g) = >>=-ok-inv make (λ v. pure (controller ∷ [])) s cs k1 in
        let (r, known, step) = new_server-ok (codes "ControllerServer") put_controller s f in
        let done : start_controller p h role s ≡ (ok (controller ∷ []), set_controller r s) =
          ap (λ b. (if b then make >> pure (controller ∷ []) else pure []) s) e
          ∙ >>=-to make (λ v. pure (controller ∷ [])) s step in
        inl (e, (r, known, done))
  ]

  start_node-Started :
      (role : Role) (s : State W) (ns : List Service)
      → (start_node p h role s).0 ≡ ok ns
      → Started (is_node role) node set_node (start_node p h role) s
  unfolding start_node
  start_node-Started role s ns k = elim (Bool-cases (is_node role)) [
    | inr e ↦ inr (e, rw (e, start_node) refl)
    | inl e ↦
        let make = new_server p h (codes "NodeServer") put_node in
        let k1 = rw (e, start_node) at k in
        let (u, f, g) = >>=-ok-inv make (λ v. pure (node ∷ [])) s ns k1 in
        let (r, known, step) = new_server-ok (codes "NodeServer") put_node s f in
        let done : start_node p h role s ≡ (ok (node ∷ []), set_node r s) =
          ap (λ b. (if b then make >> pure (node ∷ []) else pure []) s) e
          ∙ >>=-to make (λ v. pure (node ∷ [])) s step in
        inl (e, (r, known, done))
  ]

  -- The services of a role.
  abbrev pub services_of : Role → List Service
  services_of role =
      identity
      ∷ ((if is_controller role then controller ∷ [] else [])
          ++ (if is_node role then node ∷ [] else []))

  -- Each server that runs has the resolver map of the configuration, which stays as it is.
  abbrev pub AllMade : Role → State W → State W → Type 0
  AllMade role s t =
      (t.config ≡ s.config)
      × (is_controller role ≡ true → new_resolver_map p s.config ≡ ok t.controller)
      × (is_node role ≡ true → new_resolver_map p s.config ≡ ok t.node)

  start_servers_step :
      (role : Role) (s t : State W) (cs ns : List Service) (v : State W)
      → start_controller p h role s ≡ (ok cs, t)
      → start_node p h role t ≡ (ok ns, v)
      → start_servers p h role s ≡ (ok (identity ∷ (cs ++ ns)), v)
  unfolding start_servers with_node
  start_servers_step role s t cs ns v e f =
      >>=-to (start_controller p h role) (with_node p h role) s e
      ∙ >>=-to (start_node p h role) (λ ns. pure (identity ∷ (cs ++ ns))) t f

  start_servers_inv :
      (role : Role) (s : State W) (services : List Service)
      → (start_servers p h role s).0 ≡ ok services
      → (cs ns : List Service) × ((start_controller p h role s).0 ≡ ok cs)
        × ((start_node p h role (start_controller p h role s).1).0 ≡ ok ns)
        × (services ≡ identity ∷ (cs ++ ns))
  unfolding start_servers with_node
  start_servers_inv role s services k =
      let (cs, e, k1) = >>=-ok-inv (start_controller p h role) (with_node p h role) s services k in
      let t = (start_controller p h role s).1 in
      let (ns, f, k2) =
        >>=-ok-inv (start_node p h role) (λ ns. pure (identity ∷ (cs ++ ns))) t services k1 in
      (cs, ns, e, f, cc k2)

  abbrev Ready : Role → State W → Outcome (List Service) × State W → Type 0
  Ready role s r = (r.0 ≡ ok (services_of role)) × AllMade role s r.1

  node_Ready :
      (role : Role) (s t : State W) (cs ns : List Service)
      → start_controller p h role s ≡ (ok cs, t)
      → (start_node p h role t).0 ≡ ok ns
      → t.config ≡ s.config
      → (is_controller role ≡ true → new_resolver_map p s.config ≡ ok t.controller)
      → cs ≡ (if is_controller role then controller ∷ [] else [])
      → Ready role s (start_servers p h role s)
  node_Ready role s t cs ns e f conf made listed = elim (start_node-Started role t ns f) [
    | inl (b, (r, known, step)) ↦
        rw (start_servers_step role s t cs (node ∷ []) (set_node r t) e step) (
          ap ok (rw (listed, b) refl),
          (conf, made, λ q. ap (new_resolver_map p) (sym conf) ∙ known),
        )
    | inr (b, step) ↦
        rw (start_servers_step role s t cs [] t e step)
          (ap ok (rw (listed, b) refl), (conf, made, λ q. cc (q, b)))
  ]

  start_servers-Ready :
      (role : Role) (s : State W) (services : List Service)
      → (start_servers p h role s).0 ≡ ok services
      → Ready role s (start_servers p h role s)
  start_servers-Ready role s services k =
      let (cs, ns, e, f, same) = start_servers_inv role s services k in
      elim (start_controller-Started role s cs e) [
        | inl (a, (r, known, step)) ↦
            node_Ready role s (set_controller r s) (controller ∷ []) ns step
              (subst (λ (t : State W). (start_node p h role t).0 ≡ ok ns) (ap (λ q. q.1) step) f)
              refl (λ q. known) (rw a refl)
        | inr (a, step) ↦
            node_Ready role s s [] ns step
              (subst (λ (t : State W). (start_node p h role t).0 ≡ ok ns) (ap (λ q. q.1) step) f)
              refl (λ q. cc (q, a)) (rw a refl)
      ]

  -- Where the servers of a role can be started, the services that run are the identity service and
  -- those of the role, and each server that runs has the resolver map of the configuration.
  pub start_servers-ok :
      (role : Role) (s : State W) (services : List Service)
      → (start_servers p h role s).0 ≡ ok services
      → (services ≡ services_of role) × AllMade role s (start_servers p h role s).1
  start_servers-ok role s services k =
      let (listed, made) = start_servers-Ready role s services k in
      let same : services ≡ services_of role = cc (k, listed) in (same, made)
