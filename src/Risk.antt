-- ===== src/Risk.antt =====
-- risk-service: the symbol circuit breaker and the broker's spread settings that it writes.
pub mod Maps
pub mod Breaker
pub mod Recovery
pub mod Overrides
pub mod Standing
pub mod Cooldown
pub mod KillSwitch
pub mod Halted
