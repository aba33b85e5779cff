-- ===== src/Config.antt =====
-- domains/config: the configuration, its TOML codec and the manager that persists it.
pub mod Configuration
pub mod Toml
pub mod Paths
pub mod Store
mod Examples
