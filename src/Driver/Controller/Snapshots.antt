-- ===== src/Driver/Controller/Snapshots.antt =====
-- Snapshots: `CreateSnapshotOnBSR`, `CreateSnapshot` and `DeleteSnapshot` of
-- pkg/driver/controllerServer.go.
pub mod Ids
pub mod Kept
use brickstor_csi_driver.Base.{
  ℕ, zero, suc, Bool, true, false, List, [], ◌∷◌, ◌++◌, Text, codes, none, some, Eff, pure, fail,
  ◌>>=◌, ◌>>◌, ok, Error, status, not_found, already_exists, internal, invalid_argument,
  failed_precondition, Code, status_code, value, failed, attempt, if◌then◌else◌, is_empty, text_eq,
  has_prefix, split, error_text, is_not_exist,
}
use brickstor_csi_driver.Bsr.Provider.{Dataset, Snapshot, ProviderInterface}
use brickstor_csi_driver.Config.Nodes.{lookup_node}
use brickstor_csi_driver.Driver.VolumeId.{VolumeInfo, parse_volume_id, volume_id, snapshot_path}
use brickstor_csi_driver.Driver.Csi.{CreateSnapshotRequest, CsiSnapshot}
use brickstor_csi_driver.Driver.State.{Platform, State, lift, return, get_state, refresh_config}
use brickstor_csi_driver.Driver.Controller.Resolve.{ResolveResponse, resolve_bsr}

-- The names of the datasets below the default dataset.
unfoldable pub names_under : Text → List Dataset → List Text
names_under prefix [] = []
names_under prefix (d ∷ ds) =
    let rest = names_under prefix ds in if has_prefix d.path prefix then d.path ∷ rest else rest

-- A snapshot of another dataset that has the name.
unfoldable pub has_duplicate : Text → Text → List Snapshot → Bool
has_duplicate volume_path snap_name [] = false
has_duplicate volume_path snap_name (s ∷ rest) =
    let later = has_duplicate volume_path snap_name rest in
    if text_eq volume_path s.path then later else if text_eq snap_name s.name then true else later

-- Whether the code is that of the error.
abbrev pub is_code_not_found : Error → Bool
is_code_not_found e = elim (status_code e) [ not_found ↦ true | _ ↦ false ]

module _ {W : Type 0} (p : Platform W) where
  -- The error with which a handler reports a failed refresh.
  abbrev pub refresh_or : (Error → Error) → Text → Eff (State W) (Unit {0})
  refresh_or report secret = do
    r ← attempt (refresh_config p secret)
    elim r [ value u ↦ pure tt | failed e ↦ fail (report e) ]

  abbrev pub cannot_use_config : Code → Error → Error
  cannot_use_config c e = status c (codes "Cannot use config file: " ++ error_text p.grpc e)

  -- `time.Sleep(time.Second)`
  abbrev pause : Eff (State W) (Unit {0})
  pause = lift (λ w. (ok tt, p.sleep w))

  -- Up to ten looks, a second apart, until a call succeeds; what it returns is dropped.
  unfoldable pub wait_for : {A : Type 0} → ℕ → Eff W A → Eff (State W) (Unit {0})
  wait_for zero look = pure tt
  wait_for (suc n) look = do
    r ← attempt (lift look)
    elim r [ value a ↦ pure tt | failed e ↦ do pause; wait_for n look ]

  -- The search for a snapshot of that name elsewhere; its own errors are ignored.
  unfoldable pub check_unique : ProviderInterface W → Text → Text → Text → Eff (State W) (Unit {0})
  unfolding names_under has_duplicate
  check_unique b default_dataset volume_path snap_name = do
    ds ← attempt (lift b.get_datasets)
    elim ds [
      | failed e ↦ pure tt
      | value datasets ↦ do
        r ← attempt (lift (b.get_snapshots (names_under (default_dataset ++ codes "/") datasets)))
        elim r [
          | failed e ↦ pure tt
          | value snaps ↦
              if has_duplicate volume_path snap_name snaps
              then fail
                  (status already_exists (codes "Duplicate snapshot '" ++ (snap_name ++ codes "'")))
              else pure tt
        ]
    ]

  make_snapshot : ProviderInterface W → Text → Text → Eff (State W) Snapshot
  unfolding wait_for
  make_snapshot b volume_path snap_name = do
    r ← attempt (lift (b.create_snapshot volume_path snap_name))
    elim r [
      | failed e ↦ fail (
          status internal (
            codes "Cannot create snapshot '"
            ++ (snap_name ++ (codes "': " ++ error_text p.grpc e))))
      | value snap ↦ do
        wait_for 10 (b.get_snapshot (snapshot_path volume_path snap_name))
        pure snap
    ]

  unfoldable pub snapshot_if_new : ProviderInterface W → Text → Text → Text → Eff (State W) Snapshot
  unfolding check_unique make_snapshot
  snapshot_if_new b config_name volume_path snap_name = do
    found ← attempt (lift (b.get_snapshot (snapshot_path volume_path snap_name)))
    elim found [
      | value snap ↦ pure snap
      | failed e ↦ do
        s ← get_state
        elim (lookup_node s.config config_name) [
          | none ↦ pure tt
          | some d ↦ check_unique b d.default_dataset volume_path snap_name
        ]
        make_snapshot b volume_path snap_name
    ]

  -- `CreateSnapshotOnBSR`
  unfoldable pub create_snapshot_on_bsr : ResolveResponse W → Text → Text → Eff (State W) Snapshot
  unfolding snapshot_if_new
  create_snapshot_on_bsr resolver volume_path snap_name = do
    ds ← attempt (lift (resolver.bsr_provider.get_dataset volume_path))
    elim ds [
      | failed e ↦
          fail (
            status not_found (codes "Source volume '" ++ (volume_path ++ codes "' does not exist")))
      | value d ↦ snapshot_if_new resolver.bsr_provider resolver.config_name volume_path snap_name
    ]

  answer_snapshot :
      CreateSnapshotRequest → VolumeInfo → ResolveResponse W → Eff (State W) CsiSnapshot
  answer_snapshot req info resp = do
    snap ← create_snapshot_on_bsr resp info.path req.name
    pure (record {
      snapshot_id = volume_id resp.config_name (snapshot_path info.path req.name);
      source_volume_id = req.source_volume_id;
      creation_time = snap.creation_time;
      ready_to_use = true;
    })

  snapshot_volume : CreateSnapshotRequest → VolumeInfo → Eff (State W) CsiSnapshot
  unfolding answer_snapshot
  snapshot_volume req info = do
    resp ←
        resolve_bsr p
          (record { dataset_path = info.path; zone = []; config_name = info.config_name })
    answer_snapshot req info resp

  snapshot_parsed : CreateSnapshotRequest → VolumeInfo → Eff (State W) CsiSnapshot
  unfolding snapshot_volume
  snapshot_parsed req info =
      if is_empty req.name
      then fail (status invalid_argument (codes "Snapshot name must be provided"))
      else snapshot_volume req info

  snapshot_refreshed : CreateSnapshotRequest → Eff (State W) CsiSnapshot
  unfolding snapshot_parsed
  snapshot_refreshed req =
      if is_empty req.source_volume_id
      then fail (status invalid_argument (codes "Snapshot source volume ID must be provided"))
      else do info ← return (parse_volume_id req.source_volume_id); snapshot_parsed req info

  -- `CreateSnapshot`; what stands behind the last error check is never reached with an error.
  unfoldable pub create_snapshot : CreateSnapshotRequest → Eff (State W) CsiSnapshot
  unfolding snapshot_refreshed
  create_snapshot req = do
    refresh_or (cannot_use_config failed_precondition) []
    snapshot_refreshed req

  destroy_on : ResolveResponse W → Text → Eff (State W) (Unit {0})
  destroy_on resp path = do
    r ← attempt (lift (resp.bsr_provider.destroy_snapshot path))
    elim r [
      | value u ↦ pure tt
      | failed e ↦
          if is_not_exist p.grpc e
          then pure tt
          else fail (
              status internal (
                codes "Failed to delete snapshot '"
                ++ (path ++ (codes "': " ++ error_text p.grpc e))))
    ]

  -- `DeleteSnapshot` behind the reading of the id
  unfoldable pub delete_known : VolumeInfo → Text → Eff (State W) (Unit {0})
  unfolding destroy_on
  delete_known info snapshot = do
    r ← attempt (
        resolve_bsr p
          (record { dataset_path = info.path; zone = []; config_name = info.config_name }))
    elim r [
      | value resp ↦ destroy_on resp (snapshot_path info.path snapshot)
      | failed e ↦ if is_code_not_found e then pure tt else fail e
    ]

  delete_parsed : Text → Text → Eff (State W) (Unit {0})
  unfolding delete_known
  delete_parsed volume snapshot = do
    info ← return (parse_volume_id volume)
    delete_known info snapshot

  unfoldable pub delete_parts : List Text → Eff (State W) (Unit {0})
  unfolding delete_parsed
  delete_parts (volume ∷ snapshot ∷ []) = delete_parsed volume snapshot
  delete_parts _ = pure tt

  -- `DeleteSnapshot`
  unfoldable pub delete_snapshot : Text → Eff (State W) (Unit {0})
  unfolding delete_parts
  delete_snapshot snapshot_id = do
    refresh_or (cannot_use_config failed_precondition) []
    if is_empty snapshot_id
        then fail (status invalid_argument (codes "Snapshot ID must be provided"))
        else delete_parts (split b'@' snapshot_id)
