-- ===== src/Driver/Controller/Service.antt =====
-- What the controller tells of itself, and the calls of pkg/driver/controllerServer.go that are not
-- implemented.
use brickstor_csi_driver.Base.{List, [], ◌∷◌, Eff, fail, status, unimplemented}

-- What the driver names of csi.ControllerServiceCapability.
pub data ControllerCapability : Type 0 where
  rpc_list_volumes rpc_create_delete_volume rpc_create_delete_snapshot rpc_list_snapshots
        rpc_clone_volume rpc_get_capacity rpc_expand_volume :
      ControllerCapability

-- `ControllerGetCapabilities`
abbrev pub controller_get_capabilities : List ControllerCapability
controller_get_capabilities =
    rpc_list_volumes ∷ rpc_create_delete_volume ∷ rpc_create_delete_snapshot ∷ rpc_list_snapshots
    ∷ rpc_clone_volume ∷ rpc_get_capacity ∷ rpc_expand_volume ∷ []

-- `ControllerPublishVolume`, `ControllerUnpublishVolume`, `ControllerGetVolume` and
-- `ControllerModifyVolume`
abbrev pub controller_not_implemented : {S A : Type 0} → Eff S A
controller_not_implemented = fail (status unimplemented [])
