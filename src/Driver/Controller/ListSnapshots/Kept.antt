-- ===== src/Driver/Controller/ListSnapshots/Kept.antt =====
-- `ListSnapshots` keeps what the refresh keeps and no call below changes.
use brickstor_csi_driver.Base.{
  ℕ, Text, codes, List, [], ◌∷◌, ◌++◌, Eff, pure, fail, crash, ◌>>=◌, failed_precondition, Keeps,
  >>=-Keeps, if-Keeps, option-Keeps, outcome-Keeps, recover-Keeps, split, drop, ℤ, pos, negsuc,
  attempt, Attempt, value, failed, if◌then◌else◌, is_empty, not, is_not_exist,
}
use brickstor_csi_driver.Bsr.Provider.{Dataset, Snapshot, ProviderInterface}
use brickstor_csi_driver.Bsr.Resolver.{Resolver, resolve_by_address}
use brickstor_csi_driver.Config.Nodes.{lookup, lookup_node, node_names}
use brickstor_csi_driver.Driver.VolumeId.{VolumeInfo, parse_volume_id, snapshot_path}
use brickstor_csi_driver.Driver.Paging.{get_paging_values}
use brickstor_csi_driver.Driver.Csi.{ListSnapshotsRequest, Page, CsiSnapshot}
use brickstor_csi_driver.Driver.State.{Platform, State, lift, return, refresh_config}
use brickstor_csi_driver.Driver.State.Kept.{IsInner, lift-Keeps}
use brickstor_csi_driver.Driver.Controller.Resolve.{ResolveParams, ResolveResponse, resolve_bsr}
use brickstor_csi_driver.Driver.Controller.Resolve.Kept.{resolve_bsr-Keeps}
use brickstor_csi_driver.Driver.Controller.Snapshots.{
  refresh_or, cannot_use_config, is_code_not_found, names_under,
}
use brickstor_csi_driver.Driver.Controller.Snapshots.Kept.{refresh_or-Keeps}
use brickstor_csi_driver.Driver.Controller.ListVolumes.{page_limit, negative_limit, empty_page}
use brickstor_csi_driver.Driver.Controller.ListVolumes.Kept.{page_or-Keeps}
use brickstor_csi_driver.Driver.Controller.ListSnapshots.{
  snap_list_params, get_ds_snap_list, single_on, single_parsed, single_parts, get_single_snap,
  created_by_user, snaps_on, snaps_at, snaps_of, snapshot_page, list_snapshots_from,
  list_snapshots_limited, list_all_snapshots, list_snapshots,
}

module _ {W : Type 0} (p : Platform W) (I : State W → Type 0) (inner : IsInner I) where
  get_ds_snap_list-Keeps : (req : ListSnapshotsRequest) → Keeps I (get_ds_snap_list p req)
  unfolding get_ds_snap_list
  get_ds_snap_list-Keeps req =
      let q = snap_list_params req.source_volume_id (split b':' req.source_volume_id) in
      recover-Keeps I (resolve_bsr p q) _ _ (resolve_bsr-Keeps p I inner q)
        (λ resp.
          let look = resp.bsr_provider.get_snapshots (q.dataset_path ∷ []) in
          recover-Keeps I (lift look) _ _ (lift-Keeps I inner look) (λ snaps s i. i) (λ e s i. i))
        (λ e s i. i)

  single_on-Keeps : (resp : ResolveResponse W) (path : Text) → Keeps I (single_on p resp path)
  unfolding single_on
  single_on-Keeps resp path =
      let look = resp.bsr_provider.get_snapshot path in
      recover-Keeps I (lift look) _ _ (lift-Keeps I inner look) (λ snap s i. i)
        (λ e. if-Keeps I (is_not_exist p.grpc e) _ _ (λ s i. i) (λ s i. i))

  abbrev at : VolumeInfo → ResolveParams
  at info = record { dataset_path = info.path; zone = []; config_name = info.config_name }

  abbrev single_known : Text → VolumeInfo → Eff (State W) (Page CsiSnapshot)
  single_known name info = do
    r ← attempt (resolve_bsr p (at info))
    elim r [
      | value resp ↦ single_on p resp (snapshot_path info.path name)
      | failed e ↦ if is_code_not_found e then pure empty_page else fail e
    ]

  single_parts-Keeps : (parts : List Text) → Keeps I (single_parts p parts)
  unfolding single_parts single_parsed
  single_parts-Keeps (volume ∷ name ∷ []) =
      >>=-Keeps I (return (parse_volume_id volume)) (single_known name) (λ s i. i)
        (λ info.
          recover-Keeps I (resolve_bsr p (at info)) _ _ (resolve_bsr-Keeps p I inner (at info))
            (λ resp. single_on-Keeps resp (snapshot_path info.path name))
            (λ e. if-Keeps I (is_code_not_found e) _ _ (λ s i. i) (λ s i. i)))
  single_parts-Keeps [] = λ s i. i
  single_parts-Keeps (a ∷ []) = λ s i. i
  single_parts-Keeps (a ∷ b ∷ c ∷ rest) = λ s i. i

  module _ (b : ProviderInterface W) (default_dataset : Text) where
    abbrev under : List Dataset → Eff (State W) (List Snapshot)
    under ds = do
      found ← attempt (lift (b.get_snapshots (names_under (default_dataset ++ codes "/") ds)))
      elim found [ value snaps ↦ pure (created_by_user snaps) | failed e ↦ pure [] ]

    under-Keeps : (ds : List Dataset) → Keeps I (under ds)
    under-Keeps ds =
        let look = b.get_snapshots (names_under (default_dataset ++ codes "/") ds) in
        recover-Keeps I (lift look) (λ snaps. pure (created_by_user snaps)) (λ e. pure [])
          (lift-Keeps I inner look) (λ snaps s i. i) (λ e s i. i)

    answered :
        (r : Attempt (List Dataset))
        → Keeps I {A = List Snapshot} (elim r [
          | failed e ↦ pure []
          | value [] ↦ pure []
          | value (d ∷ rest) ↦ under (d ∷ rest)
        ])
    answered (failed e) = λ s i. i
    answered (value []) = λ s i. i
    answered (value (d ∷ rest)) = under-Keeps (d ∷ rest)

    snaps_on-Keeps : Keeps I (snaps_on p b default_dataset)
    unfolding snaps_on
    snaps_on-Keeps =
        >>=-Keeps I (attempt (lift b.get_datasets))
          (λ r. elim r [
            | failed e ↦ pure []
            | value [] ↦ pure []
            | value (d ∷ rest) ↦ under (d ∷ rest)
          ])
          (λ s i. inner s (b.get_datasets s.world).1 i) answered

  snaps_of-Keeps :
      (r : Resolver W) (default_dataset : Text) (addrs : List Text)
      → Keeps I (snaps_of p r default_dataset addrs)
  unfolding snaps_of snaps_at
  snaps_of-Keeps r default_dataset [] = λ s i. i
  snaps_of-Keeps r default_dataset (addr ∷ rest) =
      >>=-Keeps I (snaps_at p r default_dataset addr)
        (λ here. snaps_of p r default_dataset rest >>= λ more. pure (here ++ more))
        (outcome-Keeps I (resolve_by_address r addr) _ _ _ (λ b. snaps_on-Keeps b default_dataset)
          (λ e s i. i) (λ s i. i))
        (λ here.
          >>=-Keeps I (snaps_of p r default_dataset rest) (λ more. pure (here ++ more))
            (snaps_of-Keeps r default_dataset rest) (λ more s i. i))

  list_snapshots_from-Keeps :
      (names : List Text) (offset : ℤ) (max : ℕ) → Keeps I (list_snapshots_from p names offset max)
  unfolding list_snapshots_from
  list_snapshots_from-Keeps [] offset max = λ s i. i
  list_snapshots_from-Keeps (name ∷ following) offset max = λ s.
      let next = list_snapshots_from p following offset max in
      let page = snapshot_page p name following offset max in
      option-Keeps I (lookup_node s.config name) next _
        (list_snapshots_from-Keeps following offset max)
        (λ d.
          option-Keeps I (lookup name s.controller) crash _ (λ t i. i)
            (λ r.
              >>=-Keeps I (snaps_of p r d.default_dataset (split b',' d.address))
                (λ snaps. elim snaps [ [] ↦ next | x ∷ xs ↦ pure (page (x ∷ xs)) ])
                (snaps_of-Keeps r d.default_dataset (split b',' d.address))
                (λ snaps.
                  page_or-Keeps p I inner page next snaps
                    (list_snapshots_from-Keeps following offset max))))
        s

  list_snapshots_limited-Keeps :
      (token : Text) (max : ℕ) → Keeps I (list_snapshots_limited p token max)
  unfolding list_snapshots_limited
  list_snapshots_limited-Keeps token max s =
      >>=-Keeps I (return (get_paging_values token (node_names s.config)))
        (λ q. list_snapshots_from p (drop q.node_index (node_names s.config)) q.offset max)
        (λ t i. i)
        (λ q. list_snapshots_from-Keeps (drop q.node_index (node_names s.config)) q.offset max) s

  list_all_snapshots-Keeps : (req : ListSnapshotsRequest) → Keeps I (list_all_snapshots p req)
  unfolding list_all_snapshots
  list_all_snapshots-Keeps req = by_limit req.max_entries
    where
      by_limit :
          (n : ℤ)
          → Keeps I {A = Page CsiSnapshot} (elim n [
            | negsuc k ↦ fail (negative_limit (negsuc k))
            | pos k ↦ list_snapshots_limited p req.starting_token (page_limit k)
          ])
      by_limit (negsuc k) = λ s i. i
      by_limit (pos k) = list_snapshots_limited-Keeps req.starting_token (page_limit k)

  pub list_snapshots-Keeps :
      (req : ListSnapshotsRequest)
      → ((secret : Text) → Keeps I (refresh_config p secret))
      → Keeps I (list_snapshots p req)
  unfolding list_snapshots get_single_snap
  list_snapshots-Keeps req kept =
      >>=-Keeps I (refresh_or p (cannot_use_config p failed_precondition) [])
        (λ u.
          if not (is_empty req.snapshot_id)
          then get_single_snap p req.snapshot_id
          else if not (is_empty req.source_volume_id)
          then get_ds_snap_list p req
          else list_all_snapshots p req)
        (refresh_or-Keeps p I inner kept (cannot_use_config p failed_precondition) [])
        (λ u.
          if-Keeps I (not (is_empty req.snapshot_id)) _ _
            (single_parts-Keeps (split b'@' req.snapshot_id))
            (if-Keeps I (not (is_empty req.source_volume_id)) _ _ (get_ds_snap_list-Keeps req)
              (list_all_snapshots-Keeps req)))
