-- ===== src/Model.antt =====
-- The tables of one tenant's schema, as one record that the services read and write.
pub mod Inventory
pub mod Users
pub mod Sales
use fivuza_backend.Prelude.{ℕ, List, Option}
use Inventory.{
  ProductVariant, VolumePricingTier, Stock, InventoryMovement, ProductPriceHistory, PurchaseOrder,
}
use Users.{Code, RolePermission, UserPermission, SupervisorAuthorization, AuditLog}
use Sales.{
  CashSession, CashMovement, Promotion, Sale, SalePayment, SaleDetail, SaleReturn, SaleReturnDetail,
  LedgerEntry, ProductReservation,
}

pub record Db : Type 0 where
  pub variants : List ProductVariant
  pub pricing_tiers : List VolumePricingTier
  pub stocks : List Stock
  pub movements : List InventoryMovement
  pub price_history : List ProductPriceHistory
  pub purchase_orders : List PurchaseOrder
  pub role_permissions : List RolePermission
  pub user_permissions : List UserPermission
  pub permission_cache : ℕ → Option (List Code)
  pub authorizations : List SupervisorAuthorization
  pub audit_log : List AuditLog
  pub sessions : List CashSession
  pub cash_movements : List CashMovement
  pub promotions : List Promotion
  pub sales : List Sale
  pub payments : List SalePayment
  pub details : List SaleDetail
  pub returns : List SaleReturn
  pub return_details : List SaleReturnDetail
  pub debts : List LedgerEntry
  pub balances : List LedgerEntry
  pub reservations : List ProductReservation
