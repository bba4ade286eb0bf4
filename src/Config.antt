-- ===== src/Config.antt =====
-- internal/config: the configuration.
pub mod Alias
