-- ===== src/Driver/Node.antt =====
-- The node server, pkg/driver/nodeServer.go.
pub mod Options
pub mod Host
pub mod Mount
pub mod Resolve
pub mod Publish
pub mod Unpublish
pub mod Stats
