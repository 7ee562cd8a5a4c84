-- ===== src/Orders.antt =====
-- trading-service/pending.order.book.ts and order.trigger.watcher.ts: orders that wait for a price.
pub mod Book
pub mod Operations
pub mod Trigger
pub mod Claims
pub mod Winners
pub mod Broadcasts
pub mod Placing
pub mod Trailing
