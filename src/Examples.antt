-- ===== src/Examples.antt =====
-- Concrete runs of every theorem that has hypotheses.
mod Money
mod Cards
mod Trading
mod Settling
mod Margins
mod Auditing
mod Leading
mod Filling
mod Parking
mod Halting
