-- ===== src/Agenc.antt =====
-- agenc-worker/src: the provider's side of a task.
pub mod Net
pub mod Tx
pub mod Proof
pub mod Worker
pub mod Manifest
pub mod Builder
pub mod Mcp
