-- ===== src/Settlement.antt =====
-- settlement: closing positions, and repairing locked margin.
pub mod Rounding
pub mod Commission
pub mod Engine
pub mod Legs
pub mod Written
pub mod Outcomes
pub mod Books
pub mod Gap
pub mod Reconciled
