-- ===== src/Driver/VolumeId.antt =====
-- `ParseVolumeID` of pkg/driver/utils.go, and the ids that the controller makes.
pub mod Laws
use brickstor_csi_driver.Base.{
  List, [], ◌∷◌, ◌++◌, Text, codes, Outcome, ok, err, status, invalid_argument, split,
}

pub record VolumeInfo : Type 0 where
  pub config_name : Text
  pub path : Text

unfoldable pub volume_info_of : Text → List Text → Outcome VolumeInfo
volume_info_of id (path ∷ []) = ok (record { config_name = []; path = path })
volume_info_of id (config_name ∷ path ∷ []) = ok (record { config_name = config_name; path = path })
volume_info_of id _ = err (status invalid_argument (codes "Unknown VolumeId format: " ++ id))

-- `ParseVolumeID`
unfoldable pub parse_volume_id : Text → Outcome VolumeInfo
unfolding volume_info_of
parse_volume_id id = volume_info_of id (split b':' id)

-- `fmt.Sprintf("%s:%s", configName, path)`
abbrev pub volume_id : Text → Text → Text
volume_id config_name path = config_name ++ b':' ∷ path

-- `fmt.Sprintf("%s@%s", path, name)`
abbrev pub snapshot_path : Text → Text → Text
snapshot_path path name = path ++ b'@' ∷ name
