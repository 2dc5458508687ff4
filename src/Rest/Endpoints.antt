-- ===== src/Rest/Endpoints.antt =====
-- The calls of pkg/rest/api.go over `Get` and `Post` of the client: the transport that a provider has
-- where its client is one session.
use brickstor_csi_driver.Base.{
  List, Text, codes, Option, none, some, Outcome, Eff, pure, crash, ◌>>=◌,
}
use brickstor_csi_driver.Rest.Model.{
  Dataset, DatasetRequest, DatasetsRequest, CreateDatasetRequest, ModifyDatasetRequest,
  DeleteDatasetRequest, FsSetPermissionsRequest, Snapshot, SnapCriteria, CreateSnapsRequest,
  CloneRequest,
}
use brickstor_csi_driver.Rest.Api.{Transport}
use brickstor_csi_driver.Rest.Client.{Net, Session}
use brickstor_csi_driver.Rest.Client.Calls.{get, post}

-- What encoding/json makes of the requests, and how it reads the answers; an answer of which the
-- driver reads nothing is read all the same.
pub record Json : Type 0 where
  pub dataset_request : DatasetRequest → Outcome Text
  pub datasets_request : DatasetsRequest → Outcome Text
  pub create_request : CreateDatasetRequest → Outcome Text
  pub delete_request : DeleteDatasetRequest → Outcome Text
  pub modify_request : ModifyDatasetRequest → Outcome Text
  pub perms_request : FsSetPermissionsRequest → Outcome Text
  pub criteria : SnapCriteria → Outcome Text
  pub snaps_request : CreateSnapsRequest → Outcome Text
  pub clone_request : CloneRequest → Outcome Text
  pub dataset_answer : Text → Outcome Dataset
  pub datasets_answer : Text → Outcome (List Dataset)
  pub snaps_answer : Text → Outcome (List Snapshot)
  pub unread_answer : Text → Outcome (Unit {0})

module _ {W : Type 0} (net : Net W) (json : Json) where
  -- An answer that is asked for is there.
  abbrev answer : {R : Type 0} → Option R → Eff (Session W) R
  answer none = crash
  answer (some r) = pure r

  get_at : {R : Type 0} → Text → Outcome Text → (Text → Outcome R) → Eff (Session W) R
  unfolding get
  get_at path body decode =
      get net (record { path = path; encoded = body; decode = some decode }) >>= answer

  post_at : {R : Type 0} → Text → Outcome Text → (Text → Outcome R) → Eff (Session W) R
  unfolding post
  post_at path body decode =
      post net (record { path = path; encoded = body; decode = some decode }) >>= answer

  unfoldable pub get_dataset : DatasetRequest → Eff (Session W) Dataset
  unfolding get_at
  get_dataset q =
      get_at (codes "/internal/v1/zfs/dataset") (json.dataset_request q) json.dataset_answer

  -- `GetDatasets` up to the answer; `get_datasets` filters it.
  unfoldable pub fetch_datasets : DatasetsRequest → Eff (Session W) (List Dataset)
  unfolding get_at
  fetch_datasets q =
      get_at (codes "/internal/v1/zfs/datasets") (json.datasets_request q) json.datasets_answer

  unfoldable pub create_dataset : CreateDatasetRequest → Eff (Session W) (Unit {0})
  unfolding post_at
  create_dataset q =
      post_at (codes "/internal/v1/dataset/create") (json.create_request q) json.unread_answer

  unfoldable pub delete_dataset : DeleteDatasetRequest → Eff (Session W) (Unit {0})
  unfolding post_at
  delete_dataset q =
      post_at (codes "/internal/v1/dataset/delete") (json.delete_request q) json.unread_answer

  unfoldable pub modify_dataset : ModifyDatasetRequest → Eff (Session W) (Unit {0})
  unfolding post_at
  modify_dataset q =
      post_at (codes "/internal/v1/zfs/dataset/modify") (json.modify_request q) json.unread_answer

  unfoldable pub fs_set_perms : FsSetPermissionsRequest → Eff (Session W) (Unit {0})
  unfolding post_at
  fs_set_perms q =
      post_at (codes "/internal/v1/fs/perms/apply") (json.perms_request q) json.unread_answer

  unfoldable pub get_snaps : SnapCriteria → Eff (Session W) (List Snapshot)
  unfolding post_at
  get_snaps q = post_at (codes "/internal/v1/snaps") (json.criteria q) json.snaps_answer

  unfoldable pub create_snaps : CreateSnapsRequest → Eff (Session W) (List Snapshot)
  unfolding post_at
  create_snaps q =
      post_at (codes "/internal/v1/snaps/create") (json.snaps_request q) json.snaps_answer

  unfoldable pub destroy_snaps : SnapCriteria → Eff (Session W) (Unit {0})
  unfolding post_at
  destroy_snaps q =
      post_at (codes "/internal/v1/snaps/destroy") (json.criteria q) json.unread_answer

  unfoldable pub clone_dataset : CloneRequest → Eff (Session W) (Unit {0})
  unfolding post_at
  clone_dataset q =
      post_at (codes "/internal/v1/dataset/clone") (json.clone_request q) json.unread_answer

  -- A provider whose client is this session.
  unfoldable pub transport : Transport (Session W)
  unfolding get_dataset fetch_datasets create_dataset delete_dataset modify_dataset fs_set_perms
      get_snaps create_snaps destroy_snaps clone_dataset
  transport = record {
    dataset = λ b q. get_dataset q;
    datasets = λ b q. fetch_datasets q;
    create = λ b q. create_dataset q;
    delete = λ b q. delete_dataset q;
    modify = λ b q. modify_dataset q;
    set_perms = λ b q. fs_set_perms q;
    snaps = λ b q. get_snaps q;
    snaps_create = λ b q. create_snaps q;
    snaps_destroy = λ b q. destroy_snaps q;
    clone = λ b q. clone_dataset q;
  }
