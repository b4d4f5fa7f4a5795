-- ===== src/External.antt =====
-- What the program takes from other packages: each is a record of the operations that the source
-- calls, with the documented laws that a proof relies on. Nothing here is translated code.
pub mod Serde
pub mod Crypto
pub mod Http
pub mod Solana
pub mod Keypairs
pub mod Toml
pub mod Spl
