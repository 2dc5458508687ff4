-- ===== src/Driver/Process/NoPanic.antt =====
-- The start of the process does not panic.
use brickstor_csi_driver.Base.{
  ◌≡◌, ◌≢◌, refl, inl, inr, true, [], ◌∷◌, ◌++◌, Text, codes, Eff, pure, ok, err, panic, Outcome,
  Outcome-cases, Option-cases, text_eq, >>=-ok, >>=-err, Safe, >>=-Safe, pure-Safe, fail-Safe,
  if-Safe, recover-Safe, ◌>>◌,
}
use brickstor_csi_driver.Config.Nodes.{Config, NodeMap}
use brickstor_csi_driver.Config.Validate.Sound.{AllUsable}
use brickstor_csi_driver.Config.Refresh.Outcomes.{IsCalm}
use brickstor_csi_driver.Config.Find.{Entry, new}
use brickstor_csi_driver.Config.Find.Usable.{new-IsStart}
use brickstor_csi_driver.Driver.State.{
  Platform, State, ResolverMap, lift, return, new_resolver_map, put_controller, put_node,
}
use brickstor_csi_driver.Driver.State.NoPanic.{new_resolver_map-ne-panic}
use brickstor_csi_driver.Driver.Role.{Role, parse_role, is_controller, is_node}
use brickstor_csi_driver.Driver.Process.{
  Sockets, Endpoint, controller, node, identity, parsed_url, socket_of, remove_socket, listen_on,
  open_socket, new_server, start_controller, start_node, with_node, start_servers, run, run_as,
  all_told, run_with, main,
}

all_told-AllUsable : (m : NodeMap) → AllUsable m → all_told m ≡ true
unfolding all_told
all_told-AllUsable [] u = refl
all_told-AllUsable ((name, d) ∷ m) (first, rest) = elim (Option-cases d.insecure_skip_verify) [
  | inl e ↦ absurd (first.tls e)
  | inr (b, e) ↦ rw e (all_told-AllUsable m rest)
]

module _ {W : Type 0} (h : Sockets W) where
  -- The packages net/url, os and net do not panic.
  abbrev pub IsQuiet : Type 0
  IsQuiet =
      ((endpoint : Text) → h.parse_url endpoint ≢ panic)
      × ((socket : Text) (w : W) → (h.remove socket w).0 ≢ panic)
      × ((scheme socket : Text) (w : W) → (h.listen scheme socket w).0 ≢ panic)

module _ {W : Type 0} (p : Platform W) (h : Sockets W) (quiet : IsQuiet h) where
  -- The nodes of the configuration are usable.
  abbrev Usable : State W → Type 0
  Usable s = AllUsable s.config.node_map

  lift-Safe : {A : Type 0} (m : Eff W A) → ((w : W) → (m w).0 ≢ panic) → Safe Usable (lift m)
  lift-Safe m calm s u = (calm s.world, u)

  return-Safe : {A : Type 0} (o : Outcome A) → o ≢ panic → Safe Usable (return o)
  return-Safe o calm s u = (calm, u)

  parsed_url-ne-panic :
      (endpoint : Text) (o : Outcome Endpoint) → o ≢ panic → parsed_url p h endpoint o ≢ panic
  unfolding parsed_url
  parsed_url-ne-panic endpoint (ok u) calm q = cc q
  parsed_url-ne-panic endpoint (err e) calm q = cc q
  parsed_url-ne-panic endpoint panic calm q = calm refl

  remove_socket-Safe : (socket : Text) → Safe Usable (remove_socket p h socket)
  unfolding remove_socket
  remove_socket-Safe socket =
      recover-Safe Usable (lift (h.remove socket)) (λ u. pure tt) _
        (lift-Safe (h.remove socket) (quiet.1 socket)) (λ u. pure-Safe Usable tt)
        (λ e.
          if-Safe Usable (h.is_not_exist e) (pure tt) _ (pure-Safe Usable tt)
            (fail-Safe Usable (Unit {0}) _))

  listen_on-Safe : (u : Endpoint) → Safe Usable (listen_on p h u)
  unfolding listen_on
  listen_on-Safe u =
      recover-Safe Usable (lift (h.listen u.scheme (socket_of p h u))) (λ v. pure tt) _
        (lift-Safe (h.listen u.scheme (socket_of p h u)) (quiet.2 u.scheme (socket_of p h u)))
        (λ v. pure-Safe Usable tt) (λ e. fail-Safe Usable (Unit {0}) _)

  open_socket-Safe : (u : Endpoint) → Safe Usable (open_socket p h u)
  unfolding open_socket
  open_socket-Safe u =
      if-Safe Usable (text_eq u.scheme (codes "unix")) _ _
        (>>=-Safe Usable (remove_socket p h (socket_of p h u)) (λ v. listen_on p h u)
          (remove_socket-Safe (socket_of p h u)) (λ v. listen_on-Safe u))
        (fail-Safe Usable (Unit {0}) _)

  new_server-Safe :
      (name : Text) (put : ResolverMap W → Eff (State W) (Unit {0}))
      → ((m : ResolverMap W) → Safe Usable (put m))
      → Safe Usable (new_server p h name put)
  unfolding new_server
  new_server-Safe name put puts s u =
      recover-Safe Usable (return (new_resolver_map p s.config)) put _
        (return-Safe (new_resolver_map p s.config) (new_resolver_map-ne-panic p s.config u)) puts
        (λ e. fail-Safe Usable (Unit {0}) _) s u

  start_controller-Safe : (role : Role) → Safe Usable (start_controller p h role)
  unfolding start_controller
  start_controller-Safe role =
      if-Safe Usable (is_controller role) _ _
        (>>=-Safe Usable (new_server p h (codes "ControllerServer") put_controller)
          (λ v. pure (controller ∷ []))
          (new_server-Safe (codes "ControllerServer") put_controller (λ m s u. (λ q. cc q, u)))
          (λ v. pure-Safe Usable (controller ∷ [])))
        (pure-Safe Usable [])

  start_node-Safe : (role : Role) → Safe Usable (start_node p h role)
  unfolding start_node
  start_node-Safe role =
      if-Safe Usable (is_node role) _ _
        (>>=-Safe Usable (new_server p h (codes "NodeServer") put_node) (λ v. pure (node ∷ []))
          (new_server-Safe (codes "NodeServer") put_node (λ m s u. (λ q. cc q, u)))
          (λ v. pure-Safe Usable (node ∷ [])))
        (pure-Safe Usable [])

  start_servers-Safe : (role : Role) → Safe Usable (start_servers p h role)
  unfolding start_servers with_node
  start_servers-Safe role =
      >>=-Safe Usable (start_controller p h role) (with_node p h role) (start_controller-Safe role)
        (λ cs.
          >>=-Safe Usable (start_node p h role) (λ ns. pure (identity ∷ (cs ++ ns)))
            (start_node-Safe role) (λ ns. pure-Safe Usable (identity ∷ (cs ++ ns))))

  pub run-Safe : (role : Role) (endpoint : Text) → Safe Usable (run p h role endpoint)
  unfolding run
  run-Safe role endpoint =
      >>=-Safe Usable (return (parsed_url p h endpoint (h.parse_url endpoint)))
        (λ u. open_socket p h u >> start_servers p h role)
        (return-Safe (parsed_url p h endpoint (h.parse_url endpoint))
          (parsed_url-ne-panic endpoint (h.parse_url endpoint) (quiet.0 endpoint)))
        (λ u.
          >>=-Safe Usable (open_socket p h u) (λ v. start_servers p h role) (open_socket-Safe u)
            (λ v. start_servers-Safe role))

module _ {W : Type 0} (p : Platform W) (h : Sockets W) (tree : Text → W → Entry) where
  run_with-ne-panic :
      (role endpoint : Text) (c : Config) (w : W)
      → IsQuiet h
      → AllUsable c.node_map
      → (run_with p h tree role endpoint c w).0 ≢ panic
  unfolding run_with run_as
  run_with-ne-panic role endpoint c w quiet u =
      rw (all_told-AllUsable c.node_map u)
        (run-Safe p h quiet (parse_role role).0 endpoint
          (record { config = c; controller = []; node = []; world = w }) u).0

  -- If the file system, the sockets and the reading of URLs do not panic, then the program does not
  -- on its way to the serving of requests, whatever the configuration file, the role and the
  -- endpoint are: it has its servers, or ends with an error.
  pub main-ne-panic :
      (dir role endpoint : Text) (w : W)
      → IsCalm p.grpc p.files
      → IsQuiet h
      → (main p h tree dir role endpoint w).0 ≢ panic
  unfolding main
  main-ne-panic dir role endpoint w calm quiet h0 =
      let (no_panic, usable) = new-IsStart p.grpc p.files calm tree dir w in
      elim (Outcome-cases (new p.grpc p.files tree dir w).0) [
        | inl (c, e) ↦
            run_with-ne-panic role endpoint c (new p.grpc p.files tree dir w).1 quiet (usable c e) (
              rw (>>=-ok (new p.grpc p.files tree dir) (run_with p h tree role endpoint) w e) at h0)
        | inr (inl (x, e)) ↦
            let bad =
              rw (>>=-err (new p.grpc p.files tree dir) (run_with p h tree role endpoint) w e) at
                h0 in
            cc bad
        | inr (inr e) ↦ no_panic e
      ]
