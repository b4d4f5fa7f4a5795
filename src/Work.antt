-- ===== src/Work.antt =====
-- src/work.rs: the registration, the job board and the choice of a job.
pub mod Select
pub mod Margin
pub mod Best
pub mod Provider
pub mod Once
