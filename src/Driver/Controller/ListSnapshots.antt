-- ===== src/Driver/Controller/ListSnapshots.antt =====
-- `ListSnapshots`, `getSingleSnap` and `getDsSnapList` of pkg/driver/controllerServer.go.
pub mod Repeats
pub mod Kept
use brickstor_csi_driver.Base.{
  ℕ, Bool, true, false, not, ◌&&◌, List, [], ◌∷◌, ◌++◌, Text, codes, none, some, Eff, pure, fail,
  crash, ◌>>=◌, ◌>>◌, ok, err, panic, status, internal, failed_precondition, value, failed, attempt,
  if◌then◌else◌, ◌==◌, is_empty, text_eq, split, drop, length, error_text, is_not_exist, ℤ, pos,
  negsuc,
}
use brickstor_csi_driver.Bsr.Provider.{Snapshot, ProviderInterface}
use brickstor_csi_driver.Bsr.Resolver.{Resolver, resolve_by_address}
use brickstor_csi_driver.Config.Nodes.{lookup, lookup_node, node_names}
use brickstor_csi_driver.Driver.VolumeId.{parse_volume_id, volume_id, snapshot_path}
use brickstor_csi_driver.Driver.Paging.{get_paging_values, page_entries, next_token}
use brickstor_csi_driver.Driver.Csi.{ListSnapshotsRequest, Page, CsiSnapshot}
use brickstor_csi_driver.Driver.State.{Platform, State, lift, return, get_state}
use brickstor_csi_driver.Driver.Controller.Resolve.{ResolveParams, ResolveResponse, resolve_bsr}
use brickstor_csi_driver.Driver.Controller.Snapshots.{
  refresh_or, cannot_use_config, is_code_not_found, names_under,
}
use brickstor_csi_driver.Driver.Controller.ListVolumes.{
  unlimited, page_limit, negative_limit, empty_page,
}

-- `convertSnapToCSISnap`
unfoldable pub convert_snap : Text → Snapshot → CsiSnapshot
convert_snap config_name snap = record {
  snapshot_id = volume_id config_name (snapshot_path snap.path snap.name);
  source_volume_id = volume_id config_name snap.path;
  creation_time = snap.creation_time;
  ready_to_use = true;
}

-- Snapshots with no creator are left out.
unfoldable pub created_by_user : List Snapshot → List Snapshot
created_by_user [] = []
created_by_user (s ∷ rest) =
    let more = created_by_user rest in if is_empty s.created_by then more else s ∷ more

-- Whether the limit is given and reached.
abbrev pub reached : ℤ → ℕ → Bool
reached (pos max) n = not (max == 0) && n == max
reached (negsuc max) n = false

abbrev pub head_path : List Snapshot → Text
head_path [] = []
head_path (s ∷ rest) = s.path

-- The loop of `getDsSnapList`: everything before the starting token is skipped.
unfoldable pub ds_snap_page : Text → ℤ → Text → List Snapshot → List CsiSnapshot → Page CsiSnapshot
unfolding convert_snap
ds_snap_page config_name max token [] entries = record { entries = entries; next_token = [] }
ds_snap_page config_name max token (s ∷ rest) entries =
    let token' = if text_eq s.path token then [] else token in
    let entries' = entries ++ convert_snap config_name s ∷ [] in
    let skip = ds_snap_page config_name max token' rest entries in
    let more = ds_snap_page config_name max token' rest entries' in
    let stop : Page CsiSnapshot = record { entries = entries'; next_token = head_path rest } in
    if not (is_empty token')
    then skip
    else if is_empty s.created_by
    then skip
    else if reached max (length entries')
    then stop
    else more

-- Where a volume's snapshots are looked for: an id that is no pair is taken for a path.
unfoldable pub snap_list_params : Text → List Text → ResolveParams
snap_list_params id (config_name ∷ path ∷ []) = record {
  dataset_path = path;
  zone = [];
  config_name = config_name;
}
snap_list_params id _ = record { dataset_path = id; zone = []; config_name = [] }

module _ {W : Type 0} (p : Platform W) where
  -- `getDsSnapList`
  unfoldable pub get_ds_snap_list : ListSnapshotsRequest → Eff (State W) (Page CsiSnapshot)
  unfolding ds_snap_page snap_list_params
  get_ds_snap_list req = do
    let q = snap_list_params req.source_volume_id (split b':' req.source_volume_id)
    r ← attempt (resolve_bsr p q)
    elim r [
      | failed e ↦ pure empty_page
      | value resp ↦ do
        found ← attempt (lift (resp.bsr_provider.get_snapshots (q.dataset_path ∷ [])))
        elim found [
          | value snaps ↦
              pure (ds_snap_page resp.config_name req.max_entries req.starting_token snaps [])
          | failed e ↦ fail (
              status internal (
                codes "Cannot get snapshot list for '"
                ++ (resp.config_name ++ (codes "': " ++ error_text p.grpc e))))
        ]
    ]

  single_on : ResolveResponse W → Text → Eff (State W) (Page CsiSnapshot)
  unfolding convert_snap
  single_on resp path = do
    r ← attempt (lift (resp.bsr_provider.get_snapshot path))
    elim r [
      | value snap ↦
          pure (record { entries = convert_snap resp.config_name snap ∷ []; next_token = [] })
      | failed e ↦
          if is_not_exist p.grpc e
          then pure empty_page
          else fail (
              status internal (
                codes "Cannot get snapshot '"
                ++ (path ++ (codes "' for snapshot list: " ++ error_text p.grpc e))))
    ]

  single_parsed : Text → Text → Eff (State W) (Page CsiSnapshot)
  unfolding single_on
  single_parsed volume name = do
    info ← return (parse_volume_id volume)
    r ← attempt (
        resolve_bsr p
          (record { dataset_path = info.path; zone = []; config_name = info.config_name }))
    elim r [
      | value resp ↦ single_on resp (snapshot_path info.path name)
      | failed e ↦ if is_code_not_found e then pure empty_page else fail e
    ]

  single_parts : List Text → Eff (State W) (Page CsiSnapshot)
  unfolding single_parsed
  single_parts (volume ∷ name ∷ []) = single_parsed volume name
  single_parts _ = pure empty_page

  -- `getSingleSnap`
  unfoldable pub get_single_snap : Text → Eff (State W) (Page CsiSnapshot)
  unfolding single_parts
  get_single_snap snapshot_id = single_parts (split b'@' snapshot_id)

  snaps_on : ProviderInterface W → Text → Eff (State W) (List Snapshot)
  unfolding names_under created_by_user
  snaps_on b default_dataset = do
    ds ← attempt (lift b.get_datasets)
    elim ds [
      | failed e ↦ pure []
      | value [] ↦ pure []
      | value (d ∷ rest) ↦ do
        found ←
            attempt (lift (b.get_snapshots (names_under (default_dataset ++ codes "/") (d ∷ rest))))
        elim found [ value snaps ↦ pure (created_by_user snaps) | failed e ↦ pure [] ]
    ]

  snaps_at : Resolver W → Text → Text → Eff (State W) (List Snapshot)
  unfolding snaps_on
  snaps_at r default_dataset addr = elim (resolve_by_address r addr) [
    | ok b ↦ snaps_on b default_dataset
    | err e ↦ pure []
    | panic ↦ crash
  ]

  -- The user's snapshots at all addresses of a node or cluster, in order.
  unfoldable pub snaps_of : Resolver W → Text → List Text → Eff (State W) (List Snapshot)
  unfolding snaps_at
  snaps_of r default_dataset [] = pure []
  snaps_of r default_dataset (addr ∷ rest) = do
    here ← snaps_at r default_dataset addr
    more ← snaps_of r default_dataset rest
    pure (here ++ more)

  unfoldable pub snapshot_page : Text → List Text → ℤ → ℕ → List Snapshot → Page CsiSnapshot
  unfolding page_entries
  snapshot_page name following offset max snaps =
      let entries = page_entries (convert_snap name) offset max 0 snaps [] in
      record {
        entries = entries;
        next_token =
            next_token (not (max == unlimited)) name following offset (length entries)
              (length snaps);
      }

  -- The loop over the nodes: the first one with snapshots gives the page.
  unfoldable pub list_snapshots_from : List Text → ℤ → ℕ → Eff (State W) (Page CsiSnapshot)
  unfolding snaps_of snapshot_page
  list_snapshots_from [] offset max = pure empty_page
  list_snapshots_from (name ∷ following) offset max = do
    s ← get_state
    elim (lookup_node s.config name) [
      | none ↦ list_snapshots_from following offset max
      | some d ↦ elim (lookup name s.controller) [
        | none ↦ crash
        | some r ↦ do
          snaps ← snaps_of r d.default_dataset (split b',' d.address)
          elim snaps [
            | [] ↦ list_snapshots_from following offset max
            | x ∷ xs ↦ pure (snapshot_page name following offset max (x ∷ xs))
          ]
      ]
    ]

  list_snapshots_limited : Text → ℕ → Eff (State W) (Page CsiSnapshot)
  unfolding list_snapshots_from
  list_snapshots_limited starting_token max = do
    s ← get_state
    q ← return (get_paging_values starting_token (node_names s.config))
    list_snapshots_from (drop q.node_index (node_names s.config)) q.offset max

  list_all_snapshots : ListSnapshotsRequest → Eff (State W) (Page CsiSnapshot)
  unfolding list_snapshots_limited
  list_all_snapshots req = elim req.max_entries [
    | negsuc n ↦ fail (negative_limit (negsuc n))
    | pos n ↦ list_snapshots_limited req.starting_token (page_limit n)
  ]

  -- `ListSnapshots`
  unfoldable pub list_snapshots : ListSnapshotsRequest → Eff (State W) (Page CsiSnapshot)
  unfolding get_single_snap get_ds_snap_list list_all_snapshots
  list_snapshots req = do
    refresh_or p (cannot_use_config p failed_precondition) []
    if not (is_empty req.snapshot_id)
        then get_single_snap req.snapshot_id
        else if not (is_empty req.source_volume_id)
        then get_ds_snap_list req
        else list_all_snapshots req
