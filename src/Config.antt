-- ===== src/Config.antt =====
-- src/config.rs: the client's configuration and the gateway's HTTP origin.
pub mod Defaults
pub mod Origin
pub mod Stored
