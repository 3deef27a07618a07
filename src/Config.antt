-- ===== src/Config.antt =====
-- The configuration of the node (config/config.py, config/config_utils.py).
pub mod Values
pub mod Settings
pub mod Client
pub mod Checks
pub mod Analyzers
pub mod Components
