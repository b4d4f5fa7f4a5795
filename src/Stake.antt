-- ===== src/Stake.antt =====
-- src/solana_stake.rs: the JSON-RPC client, its parsers, the wait for finality and the transfer.
pub mod Rpc
pub mod Balance
pub mod Finalized
pub mod Finality
pub mod Answers
pub mod Transfer
pub mod Requests
pub mod Liveness
