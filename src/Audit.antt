-- ===== src/Audit.antt =====
-- security/immutable.audit.ts: the audit log with its chain of hashes.
pub mod Canonical
pub mod Reordered
pub mod Chain
pub mod Linked
pub mod Ordering
pub mod Written
pub mod Texts
pub mod Commitment
pub mod Gaps
pub mod Dropped
pub mod Undefined
