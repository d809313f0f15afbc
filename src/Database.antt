-- ===== src/Database.antt =====
-- The package database: transactions, operations and filters.
pub mod Transaction
pub mod Operations
pub mod Filters
pub mod Columns
mod Tests
