-- ===== src/Config.antt =====
-- api/v1/config.go: the configuration of the server, its parts, and their start.
pub mod Settings
pub mod Loading
pub mod Building
pub mod Starting
pub mod Built
pub mod Initialized
