-- ===== src/Sales/Void.antt =====
-- `void_sale`: the stock goes back, and what the payments wrote is reversed.
use fivuza_backend.Prelude.{
  ℕ, ℤ, pos, ◌+ℤ◌, ltb_ℤ, Bool, true, false, not, ◌&&◌, Option, none, some, List, [], ◌∷◌, ◌==◌,
  if◌then◌else◌, any, first, update_where,
}
use fivuza_backend.Result.{
  Result, ok, ◌>>=◌, ◌>>◌, raise_if, sale_not_completed, sale_has_returns, cash_session_closed,
}
use fivuza_backend.Model.{Db}
use fivuza_backend.Model.Users.{Code, User, Action}
use fivuza_backend.Model.Inventory.{Concept}
use fivuza_backend.Model.Sales.{
  CashSession, outflow, devolucion, Method, Sale, SaleStatus, SalePayment, SaleDetail, SaleReturn,
}
use fivuza_backend.Inventory.{Adjustment, adjust_stock, quantity_in, logged}
use fivuza_backend.Authorization.{Env, require}
use fivuza_backend.Cash.{is_open, has_session_id, add_movement}
use fivuza_backend.Credit.{reverse_credit_sale, reverse_balance_use, has_sale_id}
use fivuza_backend.Sales.Lines.{is_variant}
use fivuza_backend.Sales.Payments.{method_eq}

abbrev pub is_completed : SaleStatus → Bool
is_completed SaleStatus.completed = true
is_completed _ = false

-- `sale.returns.exists()`
abbrev pub is_return_of : ℕ → SaleReturn → Bool
is_return_of i r = r.sale == i

-- The row that the foreign key of the sale leads to.
abbrev pub session_of : Option ℕ → List CashSession → Option CashSession
session_of none sessions = none
session_of (some i) sessions = first (has_session_id i) sessions

abbrev pub is_shut : Option CashSession → Bool
is_shut none = false
is_shut (some s) = not (is_open s.status)

abbrev pub restocked : ℕ → ℕ → ℤ → SaleDetail → Adjustment
restocked user warehouse current d = record {
  variant = d.variant_id;
  warehouse = warehouse;
  counted_quantity = current +ℤ d.quantity;
  concept = Concept.return;
  user = user;
  oversell_flag = false;
  audit = false;
}

-- One detail of the sale; a variant that is gone is passed over.
unfoldable pub restock : ℕ → ℕ → SaleDetail → Db → Result Db
restock user warehouse d db =
    if any (is_variant d.variant_id) db.variants
    then (adjust_stock (restocked user warehouse (quantity_in db.stocks d.variant_id warehouse) d)
          db
        >>= λ r. ok r.1)
    else ok db

-- The loop on `sale.details.all()`: the rows of the sale, in the order of the table.
unfoldable pub restock_all : ℕ → ℕ → ℕ → List SaleDetail → Db → Result Db
restock_all user sale warehouse [] db = ok db
restock_all user sale warehouse (d ∷ ds) db = do
  db₁ ← (if d.sale == sale then restock user warehouse d db else ok db)
  restock_all user sale warehouse ds db₁

-- `sale.payments.filter(method=…).aggregate(total=Sum("amount"))`
abbrev pub paid_by : Method → ℕ → List SalePayment → ℤ
paid_by m sale [] = pos 0
paid_by m sale (p ∷ ps) =
    (if method_eq p.method m && (p.sale == sale) then p.amount else pos 0) +ℤ paid_by m sale ps

-- The cash leaves the till of the sale.
abbrev pub refund_cash : Option CashSession → ℕ → ℤ → Db → Result Db
refund_cash none user amount db = ok db
refund_cash (some s) user amount db =
    if ltb_ℤ (pos 0) amount then add_movement s outflow devolucion amount user db else ok db

abbrev pub reversed_credit : ℕ → ℕ → ℤ → Db → Db
reversed_credit c sale amount db =
    if ltb_ℤ (pos 0) amount then reverse_credit_sale c sale amount db else db

abbrev pub reversed_balance : ℕ → ℕ → ℤ → Db → Db
reversed_balance c sale amount db =
    if ltb_ℤ (pos 0) amount then reverse_balance_use c sale amount db else db

abbrev pub voided_sale : Sale → Sale
voided_sale s = record s { status = SaleStatus.voided }

unfoldable pub void_sale : Env → Sale → User → Option ℕ → Db → Result (Sale × Db)
void_sale env s user token db = do
  (authorization, db₁) ← require env token user Code.sales_void (some s.id) db
  raise_if (not (is_completed s.status)) sale_not_completed
  raise_if (any (is_return_of s.id) db₁.returns) sale_has_returns
  let session = session_of s.cash_session db₁.sessions
  raise_if (is_shut session) cash_session_closed
  db₂ ← restock_all user.id s.id s.warehouse db₁.details db₁
  db₃ ← refund_cash session user.id (paid_by Method.cash s.id db₂.payments) db₂
  let db₄ = reversed_credit s.customer.id s.id (paid_by Method.credit_ledger s.id db₃.payments) db₃
  let db₅ = reversed_balance s.customer.id s.id (paid_by Method.balance s.id db₄.payments) db₄
  ok (
    voided_sale s,
    record db₅ {
      sales = update_where (has_sale_id s.id) voided_sale db₅.sales;
      audit_log = logged user.id Action.sale_voided s.id db₅.audit_log;
    },
  )
