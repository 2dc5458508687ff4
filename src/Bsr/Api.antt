-- ===== src/Bsr/Api.antt =====
-- pkg/bsr/api.go: the methods of a provider over the REST calls, and the interface that they make.
pub mod Snapshots
use brickstor_csi_driver.Base.{
  Bool, true, false, List, [], ◌∷◌, ◌++◌, Text, codes, Option, none, some, Eff, pure, fail, ◌>>=◌,
  ◌>>◌, plain, if◌then◌else◌, split, is_empty, ℤ, pos, is_positive,
}
use brickstor_csi_driver.Strconv.{format_int}
use brickstor_csi_driver.Rest.Model
use brickstor_csi_driver.Rest.Model.{never_expires, FsAce, DatasetsRequest}
use brickstor_csi_driver.Rest.Api
use brickstor_csi_driver.Rest.Api.{Transport}
use brickstor_csi_driver.Bsr.Provider.{Dataset, Snapshot, Provider, ProviderInterface}
use brickstor_csi_driver.Bsr.Read.{
  from_outcome, empty_dataset, read_dataset, read_datasets, read_all_available,
  read_all_share_names, to_snapshot, to_snapshots, ref_quota_properties,
}

-- The request for one dataset and none below it.
abbrev one_dataset : Text → Text → DatasetsRequest
one_dataset path props = record {
  dataset = path;
  include_ancestors = false;
  exclude_descendants = true;
  exclude_volumes = true;
  exclude_filesystems = false;
  props = props;
  limit = 0;
  offset = 0;
}

-- A property of the dataset set to a value.
abbrev set_property : Text → Text → Option Text → Model.ModifyDatasetRequest
set_property id name value = record {
  properties = record { name = name; value = value; source = [] } ∷ [];
  dataset_id = id;
}

abbrev all_props : Text
all_props = codes "available,used,mountpoint,sharenfs,sharesmb"

-- `errors.New(msg)` for an argument that must not be empty.
abbrev required : {W : Type 0} → Text → Text → Eff W (Unit {0})
required arg msg = if is_empty arg then fail (plain msg) else pure tt

-- The value that shares a dataset over NFS.
unfoldable pub nfs_value : Text → Text
nfs_value nfs_args =
    if is_empty nfs_args
    then codes "anon=0,sec=sys"
    else codes "anon=0,sec=sys" ++ (codes "," ++ nfs_args)

unfoldable pub smb_value : Text → Text
smb_value share_name = if is_empty share_name then codes "on" else codes "name=" ++ share_name

-- The entry for 'everyone'.
unfoldable pub everyone_ace : Bool → FsAce
everyone_ace read_only = record {
  sid = codes "S-1-1-0";
  permission_flags = if read_only then codes "r-x---a-R-c---" else codes "rwxpdDaARWcCos";
  inheritance_flags = codes "fd-----";
  access_type = codes "Allow";
}

one_created : {W : Type 0} → Text → Text → List Model.Snapshot → Eff W Snapshot
one_created path snap_name (s ∷ []) = pure (record {
  path = path;
  name = snap_name;
  parent = [];
  created_by = [];
  creation_time = s.creation;
})
one_created path snap_name _ = fail (plain (codes "snapshot was not created"))

one_snapshot : {W : Type 0} → Text → List Model.Snapshot → Eff W Snapshot
one_snapshot ds_name (s ∷ []) = pure (to_snapshot ds_name s)
one_snapshot ds_name _ = fail (plain (codes "snapshot does not exist"))

module _ {W : Type 0} (t : Transport W) (p : Provider) where
  unfoldable pub get_ds_avail_cap : Text → Eff W ℤ
  unfolding read_all_available
  get_ds_avail_cap path = do
    resp ← Api.get_datasets t p.bsr_client (one_dataset path (codes "available"))
    from_outcome (read_all_available resp (pos 0))

  unfoldable pub get_dataset : Text → Eff W Dataset
  unfolding Api.get_datasets read_dataset
  get_dataset path = do
    required path (codes "path is empty")
    resp ← Api.get_datasets t p.bsr_client (one_dataset path all_props)
    from_outcome (read_dataset resp (empty_dataset path))

  unfoldable pub get_datasets : Eff W (List Dataset)
  unfolding Api.get_datasets read_datasets
  get_datasets = do
    resp ← Api.get_datasets t p.bsr_client (record {
      dataset = [];
      include_ancestors = false;
      exclude_descendants = false;
      exclude_volumes = true;
      exclude_filesystems = false;
      props = all_props;
      limit = 0;
      offset = 0;
    })
    from_outcome (read_datasets resp)

  unfoldable pub create_dataset : Text → ℤ → Eff W (Unit {0})
  unfolding ref_quota_properties
  create_dataset path ref_quota_size = do
    required path (codes "CreateFilesystem path is required")
    t.create p.bsr_client (record {
      name = path;
      properties = ref_quota_properties ref_quota_size;
      encrypt = false;
      encrypt_algo = [];
    })

  unfoldable pub update_dataset : Text → ℤ → Eff W (Unit {0})
  update_dataset path ref_quota_size = do
    required path (codes "Parameter 'path' is required")
    d ← t.dataset p.bsr_client (record { dataset = path })
    t.modify p.bsr_client (
        set_property d.id (codes "refquota")
          (if is_positive ref_quota_size then some (format_int ref_quota_size) else none))

  unfoldable pub destroy_dataset : Text → Eff W (Unit {0})
  destroy_dataset path = do
    required path (codes "Filesystem path is required")
    t.delete p.bsr_client (record { dataset = path; force = false })

  unfoldable pub create_nfs_share : Text → Text → Eff W (Unit {0})
  unfolding nfs_value
  create_nfs_share path nfs_args = do
    required path (codes "CreateNfsShareParams path is required")
    d ← t.dataset p.bsr_client (record { dataset = path })
    t.modify p.bsr_client (set_property d.id (codes "sharenfs") (some (nfs_value nfs_args)))

  unfoldable pub create_smb_share : Text → Text → Eff W (Unit {0})
  unfolding smb_value
  create_smb_share path share_name = do
    required path (codes "CreateSmbShare path is required")
    d ← t.dataset p.bsr_client (record { dataset = path })
    t.modify p.bsr_client (set_property d.id (codes "sharesmb") (some (smb_value share_name)))

  unfoldable pub get_smb_share_name : Text → Eff W Text
  unfolding Api.get_datasets read_all_share_names
  get_smb_share_name path = do
    required path (codes "Filesystem path is required")
    resp ← Api.get_datasets t p.bsr_client (one_dataset path (codes "sharesmb"))
    found ← from_outcome (read_all_share_names path resp)
    elim found [ some n ↦ pure n | none ↦ fail (plain (path ++ codes " is not an smb share")) ]

  unfoldable pub set_dataset_acl : Text → Bool → Eff W (Unit {0})
  unfolding everyone_ace
  set_dataset_acl path read_only = do
    required path (codes "Filesystem path is required")
    d ← t.dataset p.bsr_client (record { dataset = path })
    t.set_perms p.bsr_client (record {
      wait_until_complete = true;
      dataset_id = d.id;
      recursive = false;
      acl = everyone_ace read_only ∷ [];
      single_dataset_only = true;
    })

  unfoldable pub create_snapshot : Text → Text → Eff W Snapshot
  unfolding one_created
  create_snapshot path snap_name = do
    required path (codes "Parameter 'CreateSnapshot path' is required")
    snaps ← t.snaps_create p.bsr_client (record {
      criteria = record { datasets = path ∷ []; recursive = false };
      name = snap_name;
      exp = never_expires;
    })
    one_created path snap_name snaps

  -- The name is `dataset@snapshot`.
  named_snapshot : Text → List Text → Eff W Snapshot
  unfolding one_snapshot
  named_snapshot snap_name (ds_name ∷ leaf ∷ []) = do
    snaps ← t.snaps p.bsr_client (record { datasets = snap_name ∷ []; recursive = false })
    one_snapshot ds_name snaps
  named_snapshot snap_name _ = fail (plain (codes "invalid snapshot name"))

  unfoldable pub get_snapshot : Text → Eff W Snapshot
  unfolding named_snapshot
  get_snapshot snap_name = do
    required snap_name (codes "snapshot name is empty")
    named_snapshot snap_name (split b'@' snap_name)

  unfoldable pub get_snapshots : List Text → Eff W (List Snapshot)
  unfolding to_snapshots
  get_snapshots datasets =
      if is_empty datasets then fail (plain (codes "get snapshots dataset list is empty")) else do
        snaps ← t.snaps p.bsr_client (record { datasets = datasets; recursive = false })
        pure (to_snapshots snaps)

  unfoldable pub destroy_snapshot : Text → Eff W (Unit {0})
  destroy_snapshot path = do
    required path (codes "destroy snapshot path is required")
    t.snaps_destroy p.bsr_client (record { datasets = path ∷ []; recursive = false })

  unfoldable pub clone_snapshot : Text → Text → ℤ → Eff W (Unit {0})
  clone_snapshot snap_name target ref_quota_size = do
    required snap_name (codes "clone snapshot name is required")
    required target (codes "clone target path is required")
    t.clone p.bsr_client (record {
      src = snap_name;
      dst = target;
      props =
          if is_positive ref_quota_size
          then (codes "refquota", format_int ref_quota_size) ∷ []
          else [];
    })

  -- A provider as a value of `ProviderInterface`.
  abbrev pub provider_interface : ProviderInterface W
  provider_interface = record {
    addr = p.address;
    create_dataset = create_dataset;
    update_dataset = update_dataset;
    destroy_dataset = destroy_dataset;
    set_dataset_acl = set_dataset_acl;
    get_dataset = get_dataset;
    get_datasets = get_datasets;
    get_ds_avail_cap = get_ds_avail_cap;
    create_nfs_share = create_nfs_share;
    create_smb_share = create_smb_share;
    get_smb_share_name = get_smb_share_name;
    create_snapshot = create_snapshot;
    destroy_snapshot = destroy_snapshot;
    get_snapshot = get_snapshot;
    get_snapshots = get_snapshots;
    clone_snapshot = clone_snapshot;
  }
