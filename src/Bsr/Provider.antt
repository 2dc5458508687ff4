-- ===== src/Bsr/Provider.antt =====
-- pkg/bsr/provider.go: datasets, snapshots, the provider interface and a provider's address check.
use brickstor_csi_driver.Base.{
  ◌-◌, ◌^◌, Bool, List, ◌++◌, Text, codes, Option, none, some, Eff, Outcome, ok, err, Error, plain,
  if◌then◌else◌, has_prefix, cut_last, trim_prefix, replace_byte, ℤ, add64, is_empty,
}
use brickstor_csi_driver.Rest.Api.{BsrClient}
use brickstor_csi_driver.Strconv
use brickstor_csi_driver.Strconv.{parse_uint}

pub record Dataset : Type 0 where
  pub path : Text
  pub mount_point : Text
  pub shared_over_nfs : Bool
  pub shared_over_smb : Bool
  pub bytes_available : ℤ
  pub bytes_used : ℤ

-- The field `Clones` is never set and is left out.
pub record Snapshot : Type 0 where
  pub path : Text
  pub name : Text
  pub parent : Text
  pub created_by : Text
  pub creation_time : ℤ

-- `GetDefaultSmbShareName`
unfoldable pub default_smb_share_name : Dataset → Text
unfolding trim_prefix replace_byte
default_smb_share_name ds = replace_byte b'/' b'_' (trim_prefix ds.path (codes "/"))

-- `GetRefQuotaSize`: an int64 sum, which wraps around.
unfoldable pub ref_quota_size : Dataset → ℤ
ref_quota_size ds = add64 ds.bytes_available ds.bytes_used

-- `ProviderInterface`
pub record ProviderInterface (W : Type 0) : Type 0 where
  pub addr : Text
  pub create_dataset : Text → ℤ → Eff W (Unit {0})
  pub update_dataset : Text → ℤ → Eff W (Unit {0})
  pub destroy_dataset : Text → Eff W (Unit {0})
  pub set_dataset_acl : Text → Bool → Eff W (Unit {0})
  pub get_dataset : Text → Eff W Dataset
  pub get_datasets : Eff W (List Dataset)
  pub get_ds_avail_cap : Text → Eff W ℤ
  pub create_nfs_share : Text → Text → Eff W (Unit {0})
  pub create_smb_share : Text → Text → Eff W (Unit {0})
  pub get_smb_share_name : Text → Eff W Text
  pub create_snapshot : Text → Text → Eff W Snapshot
  pub destroy_snapshot : Text → Eff W (Unit {0})
  pub get_snapshot : Text → Eff W Snapshot
  pub get_snapshots : List Text → Eff W (List Snapshot)
  pub clone_snapshot : Text → Text → ℤ → Eff W (Unit {0})

-- `Provider`; its client is given by the settings with which it was made.
pub record Provider : Type 0 where
  pub address : Text
  pub username : Text
  pub password : Text
  pub bsr_client : BsrClient

pub record ProviderArgs : Type 0 where
  pub address : Text
  pub username : Text
  pub password : Text
  pub insecure_skip_verify : Bool

abbrev invalid_address : Text → Text → Error
invalid_address address why =
    plain (codes "invalid BrickStor address (" ++ (address ++ (codes ")" ++ why)))

-- The error of the port check, if there is one.
unfoldable pub check_port : Text → Option (Text × Text) → Option Error
check_port address none = some (invalid_address address (codes ", missing port"))
check_port address (some (host, port)) = elim (parse_uint 10 (2 ^ 16 - 1) port) [
  | Strconv.value n ↦ none
  | Strconv.syntax ↦
      some (invalid_address address (codes ", invalid port (" ++ (port ++ codes ")")))
  | Strconv.range ↦ some (invalid_address address (codes ", invalid port (" ++ (port ++ codes ")")))
]

-- `newProvider`
unfoldable pub new_provider : ProviderArgs → Outcome Provider
unfolding check_port
new_provider args =
    if is_empty args.address
    then err (plain (codes "missing BrickStor address"))
    else if has_prefix args.address (codes "https://")
    then elim (check_port args.address (cut_last b':' args.address)) [
      | some e ↦ err e
      | none ↦ ok (record {
        address = args.address;
        username = args.username;
        password = args.password;
        bsr_client = record {
          base_url = args.address;
          user = args.username;
          pass = args.password;
          insecure_skip_verify = args.insecure_skip_verify;
        };
      })
    ]
    else err (invalid_address args.address (codes ", must be https"))
