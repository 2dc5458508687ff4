-- ===== src/Tests/Lists.antt =====
-- The theorems on lists, ids and error codes at concrete inputs.
use brickstor_csi_driver.Base.{
  some, ok, false, text_eq, ◌≡◌, refl, ◌↔◌, true, [], ◌∷◌, codes, err, Error, status, not_found,
  split,
}
use brickstor_csi_driver.Tests.Fixture.{platform, settled, state}
use brickstor_csi_driver.Rest.Api.{is_usable}
use brickstor_csi_driver.Config.Nodes.{lookup}
use brickstor_csi_driver.Bsr.Resolver.{resolve}
use brickstor_csi_driver.Driver.State.{refresh_config, refresh_shared}
use brickstor_csi_driver.Driver.Csi.{ValidateRequest, single_node_writer, last_secret}
use brickstor_csi_driver.Driver.Controller.Capabilities.{first_unsupported, supported_modes}
use brickstor_csi_driver.Driver.Controller.Manage.{
  confirmed, refreshed_for, validate_volume_capabilities,
}
use brickstor_csi_driver.Driver.Controller.Manage.Confirmed.{
  IsConfirmed, validate_volume_capabilities-IsConfirmed,
}
use brickstor_csi_driver.Rest.Api.Usable.{InGlobal, is_usable-InGlobal}
use brickstor_csi_driver.Driver.VolumeId.{VolumeInfo, parse_volume_id}
use brickstor_csi_driver.Driver.Controller.Resolve.{
  ResolveParams, resolve_named, resolve_bsr_no_zone, resolve_bsr,
}
use brickstor_csi_driver.Driver.Controller.Resolve.Codes.{half, IsReport, resolve_bsr-err}

is_usable-InGlobal_example : is_usable (codes "p/global/d") ≡ true ↔ InGlobal (codes "p/global/d")
is_usable-InGlobal_example = is_usable-InGlobal (codes "p/global/d")

abbrev missing : ResolveParams
missing = record { dataset_path = codes "p/x"; zone = codes "north"; config_name = codes "c" }

resolve_bsr-err_example :
    (resolve_bsr platform missing state).0 ≡ err (status not_found (codes "gone")) ↔ (
      (x : Error) × ((half platform missing state).0 ≡ err x)
      × IsReport platform missing x (status not_found (codes "gone")))
resolve_bsr-err_example = resolve_bsr-err platform missing state (status not_found (codes "gone"))

abbrev question : ValidateRequest
question = record {
  volume_id = codes "a:p/d";
  volume_capabilities =
      some (record { is_block = false; mount_flags = []; mode = single_node_writer } ∷ []);
  volume_context = [];
  secrets = [];
}

confirmed_here :
    (validate_volume_capabilities platform question settled).0 ≡ ok (confirmed supported_modes [])
unfolding validate_volume_capabilities parse_volume_id split refresh_config refresh_shared
    last_secret first_unsupported lookup resolve_bsr resolve_bsr_no_zone resolve_named text_eq
    resolve
confirmed_here = refl

validate_volume_capabilities-IsConfirmed_example :
    (info : VolumeInfo) × (parse_volume_id (codes "a:p/d") ≡ ok info)
    × IsConfirmed platform question supported_modes [] info
        (refreshed_for platform question settled).1
validate_volume_capabilities-IsConfirmed_example =
    validate_volume_capabilities-IsConfirmed platform question supported_modes [] settled
      confirmed_here
