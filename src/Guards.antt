-- ===== src/Guards.antt =====
-- trading-service/order.dedup.guard.ts: what stands before an order.
pub mod Dedup
pub mod Window
