-- ===== src/Driver.antt =====
-- pkg/driver: volume ids, page tokens, the state that the servers share, and the servers.
pub mod VolumeId
pub mod Paging
pub mod Csi
pub mod State
pub mod Controller
pub mod Identity
pub mod Node
pub mod Role
pub mod Process
