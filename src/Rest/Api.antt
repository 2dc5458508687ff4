-- ===== src/Rest/Api.antt =====
-- pkg/rest/api.go: the typed calls of `BsrClient`. What stands below a call, the JSON encoding and
-- `Get` or `Post` of client.go, is the record `Transport`: one effect for each endpoint. Endpoints
-- makes one of the two.
pub mod Usable
use brickstor_csi_driver.Base.{
  Bool, false, not, ◌&&◌, List, [], ◌∷◌, Text, codes, Option, none, some, Eff, pure, ◌>>=◌,
  if◌then◌else◌, has_prefix, cut_first,
}
use brickstor_csi_driver.Rest.Model.{
  Dataset, DatasetRequest, DatasetsRequest, CreateDatasetRequest, ModifyDatasetRequest,
  DeleteDatasetRequest, FsSetPermissionsRequest, Snapshot, SnapCriteria, CreateSnapsRequest,
  CloneRequest,
}

-- The settings with which a client is made: the server's URL, the credentials and the TLS check.
pub record BsrClient : Type 0 where
  pub base_url : Text
  pub user : Text
  pub pass : Text
  pub insecure_skip_verify : Bool

-- One round trip for each endpoint of a server, over the world `W`.
pub record Transport (W : Type 0) : Type 0 where
  pub dataset : BsrClient → DatasetRequest → Eff W Dataset
  pub datasets : BsrClient → DatasetsRequest → Eff W (List Dataset)
  pub create : BsrClient → CreateDatasetRequest → Eff W (Unit {0})
  pub delete : BsrClient → DeleteDatasetRequest → Eff W (Unit {0})
  pub modify : BsrClient → ModifyDatasetRequest → Eff W (Unit {0})
  pub set_perms : BsrClient → FsSetPermissionsRequest → Eff W (Unit {0})
  pub snaps : BsrClient → SnapCriteria → Eff W (List Snapshot)
  pub snaps_create : BsrClient → CreateSnapsRequest → Eff W (List Snapshot)
  pub snaps_destroy : BsrClient → SnapCriteria → Eff W (Unit {0})
  pub clone : BsrClient → CloneRequest → Eff W (Unit {0})

-- The second part of the path begins with "global".
abbrev is_global : Option (Text × Text) → Bool
is_global none = false
is_global (some (pool, rest)) = has_prefix rest (codes "global")

-- Neither in a "bp" pool nor outside "{pool}/global".
unfoldable pub is_usable : Text → Bool
is_usable path = not (has_prefix path (codes "bp")) && is_global (cut_first b'/' path)

unfoldable pub usable : List Dataset → List Dataset
unfolding is_usable
usable [] = []
usable (d ∷ ds) = let rest = usable ds in if is_usable d.path then d ∷ rest else rest

module _ {W : Type 0} (t : Transport W) (b : BsrClient) where
  unfoldable pub get_datasets : DatasetsRequest → Eff W (List Dataset)
  get_datasets req = do datasets ← t.datasets b req; pure (usable datasets)
