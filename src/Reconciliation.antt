-- ===== src/Reconciliation.antt =====
-- settlement/reconciliation.engine.ts: the sweep that compares wallets, ledger and positions, and its
-- repair of locked margin.
pub mod Check
pub mod Repair
pub mod Sweep
pub mod Repaired
pub mod Swept
pub mod Resting
pub mod History
