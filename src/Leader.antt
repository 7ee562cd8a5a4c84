-- ===== src/Leader.antt =====
-- shared/distributed.job.lock.ts: the lease by which one worker leads a job.
pub mod Lock
pub mod Exclusion
pub mod Tenure
