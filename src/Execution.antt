-- ===== src/Execution.antt =====
-- execution-service/execution.engine.ts, with the rows of trading-service/order.lifecycle.ts that it
-- writes and the limits of risk-service/ that it checks.
pub mod Rows
pub mod Lifecycle
pub mod Found
pub mod Named
pub mod Exposure
pub mod Registry
pub mod Limits
pub mod Setting
pub mod Transaction
pub mod Engine
pub mod Outcomes
pub mod Ways
pub mod Refused
pub mod Resting
pub mod Opened
pub mod Filled
pub mod Partial
pub mod Pending
pub mod Capped
pub mod Mirrored
pub mod Cancel
pub mod Overtaken
pub mod Charges
pub mod Books
pub mod Remainder
pub mod Drift
