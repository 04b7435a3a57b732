-- ===== src/Config.antt =====
-- src/config: the configuration file.
pub mod Sections
pub mod Text
pub mod Special
pub mod Runtime
pub mod Loader
pub mod Validate
