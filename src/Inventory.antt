-- ===== src/Inventory.antt =====
-- inventario/services.py, StockService: the only way to change the stock of a variant in a
-- warehouse. Rows are listed newest first.
mod Tests
pub mod Kardex
pub mod Transfer
use fivuza_backend.Prelude.{
  ℕ, suc, ◌≡◌, ℤ, pos, negsuc, ◌+ℤ◌, ◌-ℤ◌, ltb_ℤ, leb_ℤ, eqb_ℤ, abs, Bool, true, false, ◌&&◌,
  Option, none, some, List, [], ◌∷◌, ◌++◌, ◌==◌, if◌then◌else◌, any, first, update_where, length,
}
use fivuza_backend.Result.{Result, ok, err, ◌>>=◌, ◌>>◌, raise_if, invalid}
use fivuza_backend.Model.{Db}
use fivuza_backend.Model.Inventory.{
  Stock, InventoryMovement, MovementType, incoming, outgoing, Concept, adjustment, transfer_out,
  transfer_in,
}
use fivuza_backend.Model.Users.{Action, AuditLog}

-- `filter(variant=…, warehouse=…)`: at most one row, by the unique constraint.
abbrev pub matches : ℕ → ℕ → Stock → Bool
matches v w s = (s.variant == v) && (s.warehouse == w)

-- `stock.quantity if stock else Decimal("0")`
abbrev pub quantity_in : List Stock → ℕ → ℕ → ℤ
quantity_in stocks v w = elim (first (matches v w) stocks) [ none ↦ pos 0 | some s ↦ s.quantity ]

-- `Stock.objects.get_or_create(variant=…, warehouse=…, defaults={"quantity": 0})`
unfoldable pub get_or_create : List Stock → ℕ → ℕ → List Stock
get_or_create stocks v w =
    if any (matches v w) stocks
    then stocks
    else record { variant = v; warehouse = w; quantity = pos 0 } ∷ stocks

abbrev pub set_quantity : ℤ → Stock → Stock
set_quantity q s = record s { quantity = q }

-- `AuditLogService.log_action`
abbrev pub logged : ℕ → Action → ℕ → List AuditLog → List AuditLog
logged user action entity_id log =
    record { user = user; action = action; entity_id = entity_id } ∷ log

-- The same behind the `audit` flag.
abbrev pub logged_if : Bool → ℕ → Action → ℕ → List AuditLog → List AuditLog
logged_if audit user action entity_id log = if audit then logged user action entity_id log else log

-- The keyword arguments of `adjust_stock`.
pub record Adjustment : Type 0 where
  pub variant : ℕ
  pub warehouse : ℕ
  pub counted_quantity : ℤ
  pub concept : Concept
  pub user : ℕ
  pub oversell_flag : Bool
  pub audit : Bool

-- The Kardex line of an adjustment that changes the stock by `delta`.
abbrev pub movement_of : ℕ → Adjustment → ℤ → InventoryMovement
movement_of id a delta = record {
  id = id;
  variant = a.variant;
  warehouse = a.warehouse;
  user = a.user;
  type = if ltb_ℤ (pos 0) delta then incoming else outgoing;
  quantity = abs delta;
  concept = a.concept;
  reference_id = none;
  oversell_flag = a.oversell_flag;
  resulting_balance = a.counted_quantity;
}

unfoldable pub adjust_stock : Adjustment → Db → Result (InventoryMovement × Db)
unfolding get_or_create
adjust_stock a db = do
  let stocks = get_or_create db.stocks a.variant a.warehouse
  let delta = a.counted_quantity -ℤ quantity_in stocks a.variant a.warehouse
  raise_if (eqb_ℤ delta (pos 0)) invalid
  let movement = movement_of (suc (length db.movements)) a delta
  let db' : Db = record db {
    movements = movement ∷ db.movements;
    stocks = update_where (matches a.variant a.warehouse) (set_quantity a.counted_quantity) stocks;
    audit_log = logged_if a.audit a.user Action.stock_adjusted a.variant db.audit_log;
  }
  ok (movement, db')

-- `movement.reference_id = …; movement.save(update_fields=["reference_id"])`
abbrev pub refer_to : ℕ → InventoryMovement → InventoryMovement
refer_to other m = record m { reference_id = some other }

abbrev pub has_id : ℕ → InventoryMovement → Bool
has_id i m = m.id == i

unfoldable pub transfer_stock :
    ℕ → ℕ → ℕ → ℤ → ℕ → Db → Result (InventoryMovement × InventoryMovement × Db)
transfer_stock variant from_warehouse to_warehouse quantity user db = do
  raise_if (from_warehouse == to_warehouse) invalid
  raise_if (leb_ℤ quantity (pos 0)) invalid
  let db₁ : Db = record db { stocks = get_or_create db.stocks variant from_warehouse }
  let origin = quantity_in db₁.stocks variant from_warehouse
  raise_if (ltb_ℤ origin quantity) invalid
  (out_movement, db₂) ←
      adjust_stock
        (record {
          variant = variant;
          warehouse = from_warehouse;
          counted_quantity = origin -ℤ quantity;
          concept = transfer_out;
          user = user;
          oversell_flag = false;
          audit = false;
        })
        db₁
  let db₃ : Db = record db₂ { stocks = get_or_create db₂.stocks variant to_warehouse }
  (in_movement, db₄) ←
      adjust_stock
        (record {
          variant = variant;
          warehouse = to_warehouse;
          counted_quantity = quantity_in db₃.stocks variant to_warehouse +ℤ quantity;
          concept = transfer_in;
          user = user;
          oversell_flag = false;
          audit = false;
        })
        db₃
  let linked =
      update_where (has_id in_movement.id) (refer_to out_movement.id)
        (update_where (has_id out_movement.id) (refer_to in_movement.id) db₄.movements)
  ok (
    refer_to in_movement.id out_movement,
    refer_to out_movement.id in_movement,
    record db₄ {
      movements = linked;
      audit_log = logged user Action.stock_transferred variant db₄.audit_log;
    },
  )
