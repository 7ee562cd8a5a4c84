-- ===== src/Ledger.antt =====
-- wallet-service/balance.calculator.ts, wallet-service/ledger.engine.ts and
-- trading-service/pnl.calculator.ts.
pub mod Balance
pub mod Scale
pub mod Engine
pub mod Marks
pub mod Outcomes
pub mod Posted
pub mod Books
pub mod Approvals
pub mod Withdrawals
pub mod Close
