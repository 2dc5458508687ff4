-- ===== src/Config.antt =====
-- pkg/config/config.go: the driver's configuration, its validation and its refresh from a file.
pub mod Nodes
pub mod Validate
pub mod Refresh
pub mod Find
