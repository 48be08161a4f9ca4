-- ===== src/Tests.antt =====
-- Concrete runs of the theorems.
mod Data
mod Exact
mod Payments
mod Money
mod People
mod Web
mod Ai
mod Sms
mod Sequences
mod Consumers
mod Weekly
mod Scan
