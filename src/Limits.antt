-- ===== src/Limits.antt =====
-- src/limits.rs: the bounds on what the gateway may send, the nonce check, and the sanitizer of a
-- job's body.
pub mod Nonce
pub mod Body
pub mod Laws
