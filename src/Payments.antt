-- ===== src/Payments.antt =====
-- payment-service: the deposit's state machine and the handler of the provider's webhooks.
pub mod Rows
pub mod Deposits
pub mod Service
pub mod Credit
pub mod Race
pub mod Books
