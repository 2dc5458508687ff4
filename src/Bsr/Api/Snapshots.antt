-- ===== src/Bsr/Api/Snapshots.antt =====
-- What `GetSnapshot` gives for a snapshot's name.
use brickstor_csi_driver.Base.{
  ◌≡◌, refl, ap, sym, false, List, [], ◌∷◌, Text, codes, ok, ◌>>=◌, >>=-ok-inv, Lacks, split-append,
  split-Lacks, is_empty,
}
use brickstor_csi_driver.Rest.Api.{Transport}
use brickstor_csi_driver.Rest.Model
use brickstor_csi_driver.Bsr.Provider.{Snapshot, Provider}
use brickstor_csi_driver.Bsr.Api.{get_snapshot, named_snapshot, one_snapshot, required}
use brickstor_csi_driver.Bsr.Read.{to_snapshot}
use brickstor_csi_driver.Driver.VolumeId.{snapshot_path}

one_snapshot-path :
    {W : Type 0} (ds_name : Text) (found : List Model.Snapshot) (w : W) (snap : Snapshot)
    → (one_snapshot ds_name found w).0 ≡ ok snap
    → snap.path ≡ ds_name
unfolding one_snapshot to_snapshot
one_snapshot-path ds_name [] w snap h = cc
one_snapshot-path ds_name (s ∷ []) w snap h =
    let same : to_snapshot ds_name s ≡ snap = cc in ap (λ q. q.path) (sym same)
one_snapshot-path ds_name (s ∷ r ∷ rest) w snap h = cc

append-nonempty : (a b : Text) → is_empty (snapshot_path a b) ≡ false
append-nonempty [] b = refl
append-nonempty (x ∷ a) b = refl

required-passed :
    {W : Type 0} (arg msg : Text) (w : W) → is_empty arg ≡ false → required arg msg w ≡ (ok tt, w)
required-passed arg msg w e = rw e refl

module _ {W : Type 0} (t : Transport W) (b : Provider) where
  named_snapshot-path :
      (id dataset name : Text) (w : W) (snap : Snapshot)
      → (named_snapshot t b id (dataset ∷ name ∷ []) w).0 ≡ ok snap
      → snap.path ≡ dataset
  unfolding named_snapshot
  named_snapshot-path id dataset name w snap h =
      let (found, asked, rest) =
        >>=-ok-inv (t.snaps b.bsr_client (record { datasets = id ∷ []; recursive = false }))
          (one_snapshot dataset) w snap h in
      one_snapshot-path dataset found _ snap rest

  -- What `GetSnapshot` gives for "dataset@name" has the dataset as its path, without the name.
  pub get_snapshot-path :
      (dataset name : Text) (w : W) (snap : Snapshot)
      → Lacks b'@' dataset
      → Lacks b'@' name
      → (get_snapshot t b (snapshot_path dataset name) w).0 ≡ ok snap
      → snap.path ≡ dataset
  unfolding get_snapshot
  get_snapshot-path dataset name w snap hd hn h =
      let passed =
        required-passed (snapshot_path dataset name) (codes "snapshot name is empty") w
          (append-nonempty dataset name) in
      named_snapshot-path (snapshot_path dataset name) dataset name w snap (
        rw
          (
            ap (λ r. r.0) passed,
            ap (λ r. r.1) passed,
            split-append b'@' dataset name hd,
            split-Lacks b'@' name hn,
            ◌>>=◌,
          )
          at h)
