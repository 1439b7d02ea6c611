-- ===== src/Sales.antt =====
-- ventas/services/sales.py, SaleService: the lines of a sale, its payments and the whole sale.
mod Tests
mod VoidTests
pub mod Samples
pub mod Lines
pub mod Payments
pub mod Create
pub mod Outcome
pub mod Highest
pub mod Discounts
pub mod Rows
pub mod Totals
pub mod Stocks
pub mod Shelves
pub mod Deliveries
pub mod Void
pub mod Reversal
pub mod Voided
pub mod Restored
