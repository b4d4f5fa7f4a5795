-- ===== src/Run.antt =====
-- src/run.rs: the pull loop.
pub mod Backoff
pub mod Reconnect
pub mod Link
pub mod Job
pub mod Serve
