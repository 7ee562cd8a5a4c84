-- ===== src/Margin.antt =====
-- risk-service/margin.controller.ts: the margin that a wallet holds locked.
pub mod Controller
pub mod Gate
pub mod Release
pub mod Books
pub mod Equity
