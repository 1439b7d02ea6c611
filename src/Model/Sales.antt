-- ===== src/Model/Sales.antt =====
-- Rows of ventas/models.py. Amounts are integers of céntimos, quantities of hundredths.
use fivuza_backend.Prelude.{ℕ, ℤ, Bool, Option, List, String}

pub record CashRegister : Type 0 where
  pub id : ℕ
  pub warehouse : ℕ
  pub assigned_user : Option ℕ

pub data SessionStatus : Type 0 where
  open_ pending_approval closed : SessionStatus

-- The register is the row that the session's foreign key leads to.
pub record CashSession : Type 0 where
  pub id : ℕ
  pub cash_register : CashRegister
  pub user : ℕ
  pub opening_amount : ℤ
  pub expected_closing_amount : Option ℤ
  pub counted_closing_amount : Option ℤ
  pub difference : Option ℤ
  pub status : SessionStatus
  pub counted_at : Option ℕ
  pub closing_at : Option ℕ
  pub approved_by : Option ℕ

pub data Direction : Type 0 where
  inflow outflow : Direction

pub data CashConcept : Type 0 where
  retiro pago_proveedor_efectivo deposito_banco ajuste devolucion : CashConcept

pub record CashMovement : Type 0 where
  pub cash_session : ℕ
  pub type : Direction
  pub concept : CashConcept
  pub amount : ℤ
  pub user : ℕ

pub record Customer : Type 0 where
  pub id : ℕ
  pub credit_limit : Option ℤ
  pub is_walk_in : Bool

pub data PromotionType : Type 0 where
  percentage fixed_amount : PromotionType

-- Of a target, one of variant and category is filled.
pub record PromotionProduct : Type 0 where
  pub variant : Option ℕ
  pub category : Option ℕ

pub record Promotion : Type 0 where
  pub id : ℕ
  pub type : PromotionType
  pub value : ℤ
  pub start_date : ℕ
  pub end_date : ℕ
  pub is_active : Bool
  pub targets : List PromotionProduct

pub data PaymentStatus : Type 0 where
  paid partial unpaid : PaymentStatus

pub data SaleStatus : Type 0 where
  completed voided cancelled : SaleStatus

pub record Sale : Type 0 where
  pub id : ℕ
  pub customer : Customer
  pub user : ℕ
  pub warehouse : ℕ
  pub cash_session : Option ℕ
  pub subtotal : ℤ
  pub discount_total : ℤ
  pub total : ℤ
  pub payment_status : PaymentStatus
  pub credit_amount : ℤ
  pub credit_settled_amount : ℤ
  pub status : SaleStatus
  pub client_side_uuid : ℕ
  pub occurred_at : ℕ

pub data Method : Type 0 where
  cash card yape credit_ledger balance : Method

pub data PaymentState : Type 0 where
  approved rejected voided refunded : PaymentState

pub record SalePayment : Type 0 where
  pub sale : ℕ
  pub method : Method
  pub amount : ℤ
  pub provider : String
  pub operation_number : String
  pub status : PaymentState
  pub created_day : ℕ

pub record SaleDetail : Type 0 where
  pub id : ℕ
  pub sale : ℕ
  pub variant_id : ℕ
  pub quantity : ℤ
  pub unit_price : ℤ
  pub discount_amount : ℤ
  pub subtotal : ℤ

pub data RefundType : Type 0 where
  to_balance in_cash : RefundType

pub record SaleReturn : Type 0 where
  pub id : ℕ
  pub sale : ℕ
  pub user : ℕ
  pub total_refund_amount : ℤ
  pub refund_type : RefundType

pub record SaleReturnDetail : Type 0 where
  pub sale_return : ℕ
  pub sale_detail : ℕ
  pub quantity_returned : ℤ
  pub restock : Bool
  pub subtotal : ℤ

pub data EntryType : Type 0 where
  debit credit : EntryType

-- `CustomerDebtLedger` and `CustomerBalanceLedger` have the same columns.
pub record LedgerEntry : Type 0 where
  pub customer : ℕ
  pub sale : Option ℕ
  pub sale_return : Option ℕ
  pub type : EntryType
  pub amount : ℤ

pub data ReservationStatus : Type 0 where
  active converted expired cancelled : ReservationStatus

pub record ProductReservation : Type 0 where
  pub id : ℕ
  pub customer : Customer
  pub variant : ℕ
  pub warehouse : ℕ
  pub quantity : ℤ
  pub expires_at : ℕ
  pub status : ReservationStatus
  pub sale : Option ℕ
