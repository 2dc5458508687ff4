-- ===== src/Driver/Controller.antt =====
-- The controller server, pkg/driver/controllerServer.go.
pub mod Resolve
pub mod Capabilities
pub mod Create
pub mod Volumes
pub mod Manage
pub mod Snapshots
pub mod ListVolumes
pub mod ListSnapshots
pub mod Service
