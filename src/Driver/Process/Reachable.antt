-- ===== src/Driver/Process/Reachable.antt =====
-- The states that a process gets to, and where its resolvers come from.
use brickstor_csi_driver.Base.{
  List, ◌≡◌, ◌≢◌, ◌⊎◌, [], ◌∷◌, ◌++◌, Text, codes, some, Eff, pure, ok, ◌>>=◌, ◌>>◌, Keeps,
  >>=-Keeps, if-Keeps, recover-Keeps, text_eq, inl, inr, Outcome-cases,
}
use brickstor_csi_driver.Bsr.Resolver.{Resolver}
use brickstor_csi_driver.Config.Nodes.{BsrData, Config, lookup}
use brickstor_csi_driver.Driver.State.{
  Platform, State, ResolverMap, lift, return, node_resolver, new_resolver_map, put_controller,
  put_node, refresh_shared,
}
use brickstor_csi_driver.Driver.State.Kept.{IsInner}
use brickstor_csi_driver.Driver.State.Served.{
  IsMade, AllServed, nothing-IsMade, new_resolver_map-IsMade, refresh_config-AllServed,
  refresh_node_config-AllServed,
}
use brickstor_csi_driver.Driver.State.Manned.{node_resolver-nonempty}
use brickstor_csi_driver.Driver.Identity.{probe}
use brickstor_csi_driver.Driver.Role.{Role, is_controller, is_node}
use brickstor_csi_driver.Driver.Node.Host.{Host}
use brickstor_csi_driver.Driver.Node.Publish.{PublishRequest, node_publish_volume}
use brickstor_csi_driver.Driver.Node.Publish.Kept.{node_publish_volume-Keeps}
use brickstor_csi_driver.Driver.Node.Unpublish.{node_unpublish_volume}
use brickstor_csi_driver.Driver.Node.Unpublish.Kept.{node_unpublish_volume-Keeps}
use brickstor_csi_driver.Driver.Node.Stats.{node_get_volume_stats}
use brickstor_csi_driver.Driver.Node.Stats.Kept.{node_get_volume_stats-Keeps}
use brickstor_csi_driver.Driver.Csi.{
  CreateVolumeRequest, DeleteVolumeRequest, ExpandRequest, ValidateRequest, CreateSnapshotRequest,
  ListVolumesRequest, ListSnapshotsRequest,
}
use brickstor_csi_driver.Driver.Controller.Volumes.{create_volume}
use brickstor_csi_driver.Driver.Controller.Volumes.Kept.{create_volume-Keeps}
use brickstor_csi_driver.Driver.Controller.Manage.{
  delete_volume, expand_volume, validate_volume_capabilities,
}
use brickstor_csi_driver.Driver.Controller.Manage.Kept.{
  delete_volume-Keeps, expand_volume-Keeps, validate_volume_capabilities-Keeps, get_capacity-Keeps,
}
use brickstor_csi_driver.Driver.Controller.Capabilities.{get_capacity}
use brickstor_csi_driver.Driver.Controller.Snapshots.{create_snapshot, delete_snapshot}
use brickstor_csi_driver.Driver.Controller.Snapshots.Kept.{
  create_snapshot-Keeps, delete_snapshot-Keeps,
}
use brickstor_csi_driver.Driver.Controller.ListVolumes.{list_volumes}
use brickstor_csi_driver.Driver.Controller.ListVolumes.Kept.{list_volumes-Keeps}
use brickstor_csi_driver.Driver.Controller.ListSnapshots.{list_snapshots}
use brickstor_csi_driver.Driver.Controller.ListSnapshots.Kept.{list_snapshots-Keeps}
use brickstor_csi_driver.Driver.Process.{
  Sockets, Endpoint, controller, node, identity, parsed_url, socket_of, remove_socket, listen_on,
  open_socket, new_server, start_controller, start_node, with_node, start_servers, run,
}

module _ {W : Type 0} (p : Platform W) (k : Sockets W) where
  served_inner : IsInner (AllServed p)
  served_inner s w i = i

  remove_socket-Keeps : (socket : Text) → Keeps (AllServed p) (remove_socket p k socket)
  unfolding remove_socket
  remove_socket-Keeps socket =
      recover-Keeps (AllServed p) (lift (k.remove socket)) _ _ (λ s i. i) (λ u s i. i)
        (λ e. if-Keeps (AllServed p) (k.is_not_exist e) _ _ (λ s i. i) (λ s i. i))

  listen_on-Keeps : (u : Endpoint) → Keeps (AllServed p) (listen_on p k u)
  unfolding listen_on
  listen_on-Keeps u =
      recover-Keeps (AllServed p) (lift (k.listen u.scheme (socket_of p k u))) _ _ (λ s i. i)
        (λ v s i. i) (λ e s i. i)

  open_socket-Keeps : (u : Endpoint) → Keeps (AllServed p) (open_socket p k u)
  unfolding open_socket
  open_socket-Keeps u =
      if-Keeps (AllServed p) (text_eq u.scheme (codes "unix")) _ _
        (>>=-Keeps (AllServed p) (remove_socket p k (socket_of p k u)) (λ v. listen_on p k u)
          (remove_socket-Keeps (socket_of p k u)) (λ v. listen_on-Keeps u))
        (λ s i. i)

  new_server-Keeps :
      (name : Text) (put : ResolverMap W → Eff (State W) (Unit {0}))
      → ((m : ResolverMap W) (s : State W) → IsMade p m → AllServed p s → AllServed p (put m s).1)
      → Keeps (AllServed p) (new_server p k name put)
  unfolding new_server
  new_server-Keeps name put placed s i = elim (Outcome-cases (new_resolver_map p s.config)) [
    | inl (m, e) ↦ rw (e, ◌>>=◌) (placed m s (new_resolver_map-IsMade p s.config m e) i)
    | inr (inl (x, e)) ↦ rw (e, ◌>>=◌) i
    | inr (inr e) ↦ rw (e, ◌>>=◌) i
  ]

  start_controller-Keeps : (role : Role) → Keeps (AllServed p) (start_controller p k role)
  unfolding start_controller
  start_controller-Keeps role =
      if-Keeps (AllServed p) (is_controller role) _ _
        (>>=-Keeps (AllServed p) (new_server p k (codes "ControllerServer") put_controller)
          (λ v. pure (controller ∷ []))
          (new_server-Keeps (codes "ControllerServer") put_controller (λ m s made i. (made, i.1)))
          (λ v s i. i))
        (λ s i. i)

  start_node-Keeps : (role : Role) → Keeps (AllServed p) (start_node p k role)
  unfolding start_node
  start_node-Keeps role =
      if-Keeps (AllServed p) (is_node role) _ _
        (>>=-Keeps (AllServed p) (new_server p k (codes "NodeServer") put_node)
          (λ v. pure (node ∷ []))
          (new_server-Keeps (codes "NodeServer") put_node (λ m s made i. (i.0, made))) (λ v s i. i))
        (λ s i. i)

  start_servers-Keeps : (role : Role) → Keeps (AllServed p) (start_servers p k role)
  unfolding start_servers with_node
  start_servers-Keeps role =
      >>=-Keeps (AllServed p) (start_controller p k role) (with_node p k role)
        (start_controller-Keeps role)
        (λ cs.
          >>=-Keeps (AllServed p) (start_node p k role) (λ ns. pure (identity ∷ (cs ++ ns)))
            (start_node-Keeps role) (λ ns s i. i))

  run-Keeps : (role : Role) (endpoint : Text) → Keeps (AllServed p) (run p k role endpoint)
  unfolding run
  run-Keeps role endpoint =
      >>=-Keeps (AllServed p) (return (parsed_url p k endpoint (k.parse_url endpoint)))
        (λ u. open_socket p k u >> start_servers p k role) (λ s i. i)
        (λ u.
          >>=-Keeps (AllServed p) (open_socket p k u) (λ v. start_servers p k role)
            (open_socket-Keeps u) (λ v. start_servers-Keeps role))

  probe-Keeps : Keeps (AllServed p) (probe p)
  unfolding probe refresh_shared
  probe-Keeps =
      recover-Keeps (AllServed p) (refresh_shared p []) _ _ (λ s i. i) (λ u s i. i) (λ e s i. i)

  module _ (h : Host W) where
    -- The states that a process gets to from its start by the handlers of its servers, whatever the
    -- calls come to, and whatever else happens to the world between them.
    pub data Reachable : State W → Type 0 where
      started :
          (role : Role) (endpoint : Text) (c : Config) (w : W)
          → Reachable
              (run p k role endpoint
                (record { config = c; controller = []; node = []; world = w })).1
      elsewhere : (s : State W) (w : W) → Reachable s → Reachable (record s { world = w })
      probed : (s : State W) → Reachable s → Reachable (probe p s).1
      published :
          (req : PublishRequest) (s : State W)
          → Reachable s
          → Reachable (node_publish_volume p h req s).1
      unpublished :
          (id target : Text) (s : State W)
          → Reachable s
          → Reachable (node_unpublish_volume p h id target s).1
      measured :
          (volume_path id : Text) (s : State W)
          → Reachable s
          → Reachable (node_get_volume_stats p volume_path id s).1
      created :
          (req : CreateVolumeRequest) (s : State W)
          → Reachable s
          → Reachable (create_volume p req s).1
      deleted :
          (req : DeleteVolumeRequest) (s : State W)
          → Reachable s
          → Reachable (delete_volume p req s).1
      expanded :
          (req : ExpandRequest) (s : State W) → Reachable s → Reachable (expand_volume p req s).1
      validated :
          (req : ValidateRequest) (s : State W)
          → Reachable s
          → Reachable (validate_volume_capabilities p req s).1
      told_capacity :
          (params : List (Text × Text)) (s : State W)
          → Reachable s
          → Reachable (get_capacity p params s).1
      snapshot_created :
          (req : CreateSnapshotRequest) (s : State W)
          → Reachable s
          → Reachable (create_snapshot p req s).1
      snapshot_deleted :
          (id : Text) (s : State W) → Reachable s → Reachable (delete_snapshot p id s).1
      volumes_listed :
          (req : ListVolumesRequest) (s : State W)
          → Reachable s
          → Reachable (list_volumes p req s).1
      snapshots_listed :
          (req : ListSnapshotsRequest) (s : State W)
          → Reachable s
          → Reachable (list_snapshots p req s).1

    Reachable-AllServed : (s : State W) → Reachable s → AllServed p s
    Reachable-AllServed _ (started role endpoint c w) =
        run-Keeps role endpoint (record { config = c; controller = []; node = []; world = w })
          (nothing-IsMade p, nothing-IsMade p)
    Reachable-AllServed _ (elsewhere s w r) = Reachable-AllServed s r
    Reachable-AllServed _ (probed s r) = probe-Keeps s (Reachable-AllServed s r)
    Reachable-AllServed _ (published req s r) =
        node_publish_volume-Keeps p h (AllServed p) served_inner (refresh_node_config-AllServed p)
          req s (Reachable-AllServed s r)
    Reachable-AllServed _ (unpublished id target s r) =
        node_unpublish_volume-Keeps p h (AllServed p) served_inner id target s
          (Reachable-AllServed s r)
    Reachable-AllServed _ (measured volume_path id s r) =
        node_get_volume_stats-Keeps p (AllServed p) served_inner volume_path id
          (refresh_node_config-AllServed p []) s (Reachable-AllServed s r)
    Reachable-AllServed _ (created req s r) =
        create_volume-Keeps p (AllServed p) served_inner req (refresh_config-AllServed p) s
          (Reachable-AllServed s r)
    Reachable-AllServed _ (deleted req s r) =
        delete_volume-Keeps p (AllServed p) served_inner (refresh_config-AllServed p) req s
          (Reachable-AllServed s r)
    Reachable-AllServed _ (expanded req s r) =
        expand_volume-Keeps p (AllServed p) served_inner (refresh_config-AllServed p) req s
          (Reachable-AllServed s r)
    Reachable-AllServed _ (validated req s r) =
        validate_volume_capabilities-Keeps p (AllServed p) served_inner (refresh_config-AllServed p)
          req s (Reachable-AllServed s r)
    Reachable-AllServed _ (told_capacity params s r) =
        get_capacity-Keeps p (AllServed p) served_inner params s (Reachable-AllServed s r)
    Reachable-AllServed _ (snapshot_created req s r) =
        create_snapshot-Keeps p (AllServed p) served_inner (refresh_config-AllServed p) req s
          (Reachable-AllServed s r)
    Reachable-AllServed _ (snapshot_deleted id s r) =
        delete_snapshot-Keeps p (AllServed p) served_inner (refresh_config-AllServed p) id s
          (Reachable-AllServed s r)
    Reachable-AllServed _ (volumes_listed req s r) =
        list_volumes-Keeps p (AllServed p) served_inner req (refresh_config-AllServed p) s
          (Reachable-AllServed s r)
    Reachable-AllServed _ (snapshots_listed req s r) =
        list_snapshots-Keeps p (AllServed p) served_inner req (refresh_config-AllServed p) s
          (Reachable-AllServed s r)

    -- In every state that a process gets to, each resolver of the controller and of the node server
    -- has a provider, and is one that the data of a node give.
    pub Reachable-served :
        (s : State W) (name : Text) (r : Resolver W)
        → Reachable s
        → (lookup name s.controller ≡ some r) ⊎ (lookup name s.node ≡ some r)
        → (r.nodes ≢ []) × ((d : BsrData) × (node_resolver p d ≡ ok r))
    Reachable-served s name r reached (inl there) =
        let (d, made) = (Reachable-AllServed s reached).0 name r there in
        (node_resolver-nonempty p d r made, (d, made))
    Reachable-served s name r reached (inr there) =
        let (d, made) = (Reachable-AllServed s reached).1 name r there in
        (node_resolver-nonempty p d r made, (d, made))
