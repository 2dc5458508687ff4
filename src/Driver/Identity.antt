-- ===== src/Driver/Identity.antt =====
-- pkg/driver/identityServer.go, and the two calls of the node server that tell what it is.
pub mod Stale
use brickstor_csi_driver.Base.{
  ◌++◌, ◌∷◌, List, Text, [], codes, Eff, ◌>>=◌, pure, fail, Attempt, value, failed, attempt, status,
  failed_precondition, error_text,
}
use brickstor_csi_driver.Driver.State.{Platform, State, refresh_shared}

-- `Probe`: the configuration is refreshed, and whether it has changed is dropped.
unfoldable pub probe : {W : Type 0} → Platform W → Eff (State W) (Unit {0})
unfolding refresh_shared
probe p = do
  r ← attempt (refresh_shared p [])
  elim r [
    | value changed ↦ pure tt
    | failed e ↦
        fail (status failed_precondition (codes "Cannot use config file: " ++ error_text p.grpc e))
  ]

-- `GetPluginInfo`: the name, and the version, which the build sets.
abbrev pub get_plugin_info : Text → Text × Text
get_plugin_info version = (codes "brickstor-csi-driver.racktopsystems.com", version)

pub data PluginCapability : Type 0 where
  controller_service volume_accessibility_constraints expansion_online expansion_offline :
      PluginCapability

-- `GetPluginCapabilities`
abbrev pub get_plugin_capabilities : List PluginCapability
get_plugin_capabilities =
    controller_service ∷ volume_accessibility_constraints ∷ expansion_online ∷ expansion_offline
    ∷ []

-- `NodeGetInfo`: the node's id, and a topology without segments.
abbrev pub node_get_info : Text → Text × List (Text × Text)
node_get_info node_id = (node_id, [])
