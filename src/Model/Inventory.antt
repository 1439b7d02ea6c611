-- ===== src/Model/Inventory.antt =====
-- Rows of inventario/models.py. Quantities, prices and costs have two decimals: they are integers
-- of hundredths.
use fivuza_backend.Prelude.{ℕ, ℤ, Bool, Option, List}

-- `Product` is read through its variant: the category is what the services use of it.
pub record ProductVariant : Type 0 where
  pub id : ℕ
  pub category : ℕ
  pub price : ℤ
  pub cost : ℤ

pub record VolumePricingTier : Type 0 where
  pub variant : ℕ
  pub min_quantity : ℤ
  pub unit_price : ℤ

pub record Stock : Type 0 where
  pub variant : ℕ
  pub warehouse : ℕ
  pub quantity : ℤ

pub data MovementType : Type 0 where
  incoming outgoing : MovementType

pub data Concept : Type 0 where
  purchase sale adjustment return transfer_out transfer_in : Concept

-- One line of the Kardex.
pub record InventoryMovement : Type 0 where
  pub id : ℕ
  pub variant : ℕ
  pub warehouse : ℕ
  pub user : ℕ
  pub type : MovementType
  pub quantity : ℤ
  pub concept : Concept
  pub reference_id : Option ℕ
  pub oversell_flag : Bool
  pub resulting_balance : ℤ

pub data OrderStatus : Type 0 where
  pending received canceled : OrderStatus

pub record PurchaseOrderDetail : Type 0 where
  pub variant_id : ℕ
  pub quantity : ℤ
  pub unit_cost : ℤ
  pub subtotal : ℤ

pub record PurchaseOrder : Type 0 where
  pub id : ℕ
  pub warehouse : ℕ
  pub status : OrderStatus
  pub received_at : Option ℕ
  pub details : List PurchaseOrderDetail

pub record ProductPriceHistory : Type 0 where
  pub variant : ℕ
  pub old_cost : ℤ
  pub new_cost : ℤ
  pub old_price : ℤ
  pub new_price : ℤ
  pub changed_by : ℕ
