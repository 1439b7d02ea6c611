-- ===== src/Returns.antt =====
-- ventas/services/returns.py, ReturnService: a customer brings back part of a sale.
pub mod Caps
pub mod Totals
pub mod Within
pub mod Permits
mod Tests
use fivuza_backend.Prelude.{
  ℕ, suc, ◌*◌, ℤ, pos, negsuc, ◌+ℤ◌, ◌-ℤ◌, ◌*ℤ◌, ltb_ℤ, eqb_ℤ, min_ℤ, Bool, true, false, not, ◌&&◌,
  ◌||◌, Option, none, some, List, [], ◌∷◌, ◌==◌, if◌then◌else◌, any, first, length,
}
use fivuza_backend.Result.{
  Result, ok, err, ◌>>=◌, ◌>>◌, raise_if, invalid_request, division_by_zero, sale_not_completed,
  no_cash_session, return_exceeds_sold,
}
use fivuza_backend.Model.{Db}
use fivuza_backend.Model.Users.{Code, User, Action, SupervisorAuthorization}
use fivuza_backend.Model.Sales.{
  CashSession, outflow, devolucion, Method, Sale, SalePayment, SaleDetail, RefundType, to_balance,
  in_cash, SaleReturn, SaleReturnDetail,
}
use fivuza_backend.Decimals.{round2}
use fivuza_backend.Inventory.{logged}
use fivuza_backend.Authorization.{Env, require}
use fivuza_backend.Cash.{is_open, add_movement}
use fivuza_backend.Credit.{register_balance_credit}
use fivuza_backend.Sales.Lines.{Given, rounded}
use fivuza_backend.Sales.Payments.{is_electronic, is_voided}
use fivuza_backend.Sales.Void.{is_completed, restock}

pub record ReturnItem : Type 0 where
  pub sale_detail_id : ℕ
  pub quantity_returned : Given
  pub restock : Bool

pub record PreparedItem : Type 0 where
  pub sale_detail : SaleDetail
  pub quantity_returned : ℤ
  pub restock : Bool
  pub subtotal : ℤ

-- `sale.payments.filter(method__in=["CARD", "YAPE"]).exclude(status="VOIDED")`
abbrev pub is_paid_electronically : ℕ → SalePayment → Bool
is_paid_electronically sale p =
    (p.sale == sale) && is_electronic p.method && not (is_voided p.status)

abbrev pub default_refund : Option RefundType → Bool → RefundType
default_refund (some t) _ = t
default_refund none electronic = if electronic then to_balance else in_cash

-- A walk-in customer has no balance.
abbrev pub refund_of : Sale → Option RefundType → Db → RefundType
refund_of s t db =
    if s.customer.is_walk_in
    then in_cash
    else default_refund t (any (is_paid_electronically s.id) db.payments)

abbrev pub is_detail : ℕ → ℕ → SaleDetail → Bool
is_detail i sale d = (d.id == i) && (d.sale == sale)

abbrev pub found_detail : Option SaleDetail → Result SaleDetail
found_detail (some d) = ok d
found_detail none = err invalid_request

-- The sums of what was returned of a detail before.
abbrev pub returned_of : ℕ → List SaleReturnDetail → ℤ
returned_of i [] = pos 0
returned_of i (r ∷ rs) =
    (if r.sale_detail == i then r.quantity_returned else pos 0) +ℤ returned_of i rs

abbrev pub refunded_of : ℕ → List SaleReturnDetail → ℤ
refunded_of i [] = pos 0
refunded_of i (r ∷ rs) = (if r.sale_detail == i then r.subtotal else pos 0) +ℤ refunded_of i rs

-- `round2(subtotal * quantity_returned / quantity)`
abbrev pub share : ℤ → ℤ → ℤ → Result ℤ
share subtotal q (pos n) = if n == 0 then err division_by_zero else ok (round2 (subtotal *ℤ q) n)
share subtotal q (negsuc n) = ok (round2 (pos 0 -ℤ (subtotal *ℤ q)) (suc n))

-- The refund of an item: what is left of the line when it completes it, its share else.
abbrev pub refund_for : Bool → SaleDetail → ℤ → ℤ → Result ℤ
refund_for true d q remaining = ok remaining
refund_for false d q remaining = share d.subtotal q d.quantity >>= λ x. ok (min_ℤ x remaining)

unfoldable pub prepare_item : ℕ → Db → ReturnItem → Result PreparedItem
prepare_item sale db item = do
  d ← found_detail (first (is_detail item.sale_detail_id sale) db.details)
  let available = d.quantity -ℤ returned_of d.id db.return_details
  let q = rounded item.quantity_returned
  raise_if (ltb_ℤ available q) return_exceeds_sold
  let remaining = round2 (d.subtotal -ℤ refunded_of d.id db.return_details) 1
  subtotal ← refund_for (eqb_ℤ q available) d q remaining
  ok (record {
    sale_detail = d;
    quantity_returned = q;
    restock = item.restock;
    subtotal = subtotal;
  })

unfoldable pub prepare_items : ℕ → Db → List ReturnItem → Result (List PreparedItem)
prepare_items sale db [] = ok []
prepare_items sale db (item ∷ items) = do
  p ← prepare_item sale db item
  ps ← prepare_items sale db items
  ok (p ∷ ps)

abbrev pub total_refund : List PreparedItem → ℤ
total_refund [] = pos 0
total_refund (p ∷ ps) = p.subtotal +ℤ total_refund ps

abbrev pub return_detail : ℕ → PreparedItem → SaleReturnDetail
return_detail i p = record {
  sale_return = i;
  sale_detail = p.sale_detail.id;
  quantity_returned = p.quantity_returned;
  restock = p.restock;
  subtotal = p.subtotal;
}

-- The detail with the quantity that comes back, which `restock` puts on the shelf.
abbrev pub brought : PreparedItem → SaleDetail
brought p = record p.sale_detail { quantity = p.quantity_returned }

unfoldable pub record_items : ℕ → ℕ → ℕ → List PreparedItem → Db → Result Db
record_items user warehouse i [] db = ok db
record_items user warehouse i (p ∷ ps) db = do
  let db₁ : Db = record db { return_details = return_detail i p ∷ db.return_details }
  db₂ ← (if p.restock then restock user warehouse (brought p) db₁ else ok db₁)
  record_items user warehouse i ps db₂

-- The session is asked for, and the second authorization, when the refund is in cash.
abbrev pub is_closed : Option CashSession → Bool
is_closed none = true
is_closed (some s) = not (is_open s.status)

unfoldable pub authorize_refund :
    Env → Sale → RefundType → User → Option CashSession → Option ℕ → Db → Result Db
authorize_refund env s to_balance user session token db = ok db
authorize_refund env s in_cash user session token db = do
  raise_if (is_closed session) no_cash_session
  (authorization, db₁) ← require env token user Code.sales_cash_refund (some s.id) db
  ok db₁

abbrev pub paid_out : RefundType → Option CashSession → Sale → ℕ → ℕ → ℤ → Db → Result Db
paid_out in_cash (some t) s i user amount db = add_movement t outflow devolucion amount user db
paid_out in_cash none s i user amount db = err no_cash_session
paid_out to_balance _ s i user amount db =
    ok (register_balance_credit s.customer.id s.id i amount db)

-- `SaleReturn.objects.create(…)`
abbrev pub return_of : Sale → RefundType → User → List PreparedItem → ℕ → SaleReturn
return_of s type user ps i = record {
  id = i;
  sale = s.id;
  user = user.id;
  total_refund_amount = total_refund ps;
  refund_type = type;
}

-- The second half: what is written for the prepared items.
unfoldable pub write_return :
    Sale
    → RefundType
    → User
    → Option CashSession
    → List PreparedItem
    → Db
    → Result (SaleReturn × Db)
write_return s type user session ps db = do
  let made = return_of s type user ps (suc (length db.returns))
  db₁ ← record_items user.id s.warehouse made.id ps (record db { returns = made ∷ db.returns })
  db₂ ← paid_out type session s made.id user.id (total_refund ps) db₁
  ok (made, record db₂ { audit_log = logged user.id Action.sale_returned made.id db₂.audit_log })

unfoldable pub create_return :
    Env
    → Sale
    → List ReturnItem
    → Option RefundType
    → User
    → Option CashSession
    → Option ℕ
    → Db
    → Result (SaleReturn × Db)
create_return env s items type user session token db = do
  (authorization, db₁) ← require env token user Code.sales_return (some s.id) db
  raise_if (not (is_completed s.status)) sale_not_completed
  let refund = refund_of s type db₁
  db₂ ← authorize_refund env s refund user session token db₁
  ps ← prepare_items s.id db₂ items
  write_return s refund user session ps db₂
