-- ===== src/Examples.antt =====
-- Concrete instances of the external packages, and the theorems at concrete inputs.
mod Json
mod Parts
mod Limits
mod Run
mod Agenc
mod Work
mod Stake
mod Protocol
mod Provider
mod Manifest
mod Builder
mod Settling
mod Cli
mod Auth
mod Commands
mod Mcp
mod Stored
mod Main
