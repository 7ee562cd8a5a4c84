-- ===== src/Wallet.antt =====
-- wallet-service and the ledger check of settlement/reconciliation.engine.ts.
pub mod Repository
pub mod Reconciliation
pub mod Posting
pub mod Methods
pub mod Calls
pub mod Solvency
