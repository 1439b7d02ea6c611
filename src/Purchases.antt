-- ===== src/Purchases.antt =====
-- inventario/services.py, PurchaseService: an order that is received enters the stock and moves the
-- average cost of its variants.
mod Tests
pub mod Received
pub mod Costs
use fivuza_backend.Prelude.{
  ℕ, ℤ, pos, pos_part, ◌+ℤ◌, ◌*ℤ◌, leb_ℤ, eqb_ℤ, Bool, true, false, not, Option, none, some, List,
  [], ◌∷◌, ◌==◌, if◌then◌else◌, first, update_where,
}
use fivuza_backend.Result.{Result, ok, err, ◌>>=◌, ◌>>◌, raise_if, invalid, does_not_exist}
use fivuza_backend.Model.{Db}
use fivuza_backend.Model.Users.{Action}
use fivuza_backend.Model.Inventory.{
  ProductVariant, Stock, Concept, OrderStatus, pending, received, PurchaseOrder,
  PurchaseOrderDetail,
}
use fivuza_backend.Decimals.{round2}
use fivuza_backend.Inventory.{Adjustment, adjust_stock, quantity_in, logged}
use fivuza_backend.Authorization.{Env}

-- `Stock.objects.filter(variant=variant).aggregate(total=Sum("quantity"))["total"] or 0`
abbrev pub total_quantity : ℕ → List Stock → ℤ
total_quantity v [] = pos 0
total_quantity v (s ∷ ss) = (if s.variant == v then s.quantity else pos 0) +ℤ total_quantity v ss

abbrev pub with_key : ℕ → ProductVariant → Bool
with_key i v = v.id == i

abbrev pub with_cost : ℤ → ProductVariant → ProductVariant
with_cost cost v = record v { cost = cost }

-- `round2(((old_cost * total_before) + incoming_total) / total_after)`, for a positive sum.
abbrev pub average_cost : ℤ → ℤ → ℤ → ℤ → ℤ
average_cost old_cost before incoming_total after =
    round2 (old_cost *ℤ before +ℤ pos 100 *ℤ incoming_total) (pos_part after)

abbrev pub recosted : ProductVariant → ℤ → ℕ → Db → Db
recosted v new_cost user db = if eqb_ℤ new_cost v.cost then db else record db {
  price_history =
      record {
        variant = v.id;
        old_cost = v.cost;
        new_cost = new_cost;
        old_price = v.price;
        new_price = v.price;
        changed_by = user;
      }
      ∷ db.price_history;
  variants = update_where (with_key v.id) (with_cost new_cost) db.variants;
}

-- `_update_weighted_average_cost`
unfoldable pub update_weighted_average_cost : ProductVariant → ℤ → ℤ → ℕ → Db → Db
update_weighted_average_cost v incoming_quantity incoming_total user db =
    let before = total_quantity v.id db.stocks in
    let after = before +ℤ incoming_quantity in
    if leb_ℤ after (pos 0)
    then db
    else recosted v (average_cost v.cost before incoming_total after) user db

-- `ProductVariant.objects.get(id=…)`
abbrev pub got : Option ProductVariant → Result ProductVariant
got (some v) = ok v
got none = err does_not_exist

abbrev pub incoming_of : ℕ → ℕ → PurchaseOrderDetail → ℕ → ℤ → Adjustment
incoming_of variant warehouse d user current = record {
  variant = variant;
  warehouse = warehouse;
  counted_quantity = current +ℤ d.quantity;
  concept = Concept.purchase;
  user = user;
  oversell_flag = false;
  audit = false;
}

unfoldable pub receive_lines : ℕ → ℕ → List PurchaseOrderDetail → Db → Result Db
receive_lines warehouse user [] db = ok db
receive_lines warehouse user (d ∷ ds) db = do
  v ← got (first (with_key d.variant_id) db.variants)
  let current = quantity_in db.stocks v.id warehouse
  let db₁ = update_weighted_average_cost v d.quantity d.subtotal user db
  (movement, db₂) ← adjust_stock (incoming_of v.id warehouse d user current) db₁
  receive_lines warehouse user ds db₂

abbrev pub is_pending_order : OrderStatus → Bool
is_pending_order pending = true
is_pending_order _ = false

abbrev pub is_order : ℕ → PurchaseOrder → Bool
is_order i o = o.id == i

abbrev pub received_on : ℕ → PurchaseOrder → PurchaseOrder
received_on now o = record o { status = received; received_at = some now }

unfoldable pub receive_order : Env → PurchaseOrder → ℕ → Db → Result (PurchaseOrder × Db)
receive_order env order user db = do
  raise_if (not (is_pending_order order.status)) invalid
  db₁ ← receive_lines order.warehouse user order.details db
  ok (
    received_on env.now order,
    record db₁ {
      purchase_orders = update_where (is_order order.id) (received_on env.now) db₁.purchase_orders;
      audit_log = logged user Action.purchase_received order.id db₁.audit_log;
    },
  )
