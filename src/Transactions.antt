-- ===== src/Transactions.antt =====
-- backend/src/modules/transaction/transaction.service.ts.
pub mod Schema
pub mod Service
pub mod Ownership
pub mod Views
pub mod Refinement
pub mod Listing
pub mod Pages
pub mod Statistics
pub mod Totals
