-- ===== src/Sales/Create.antt =====
-- `create_sale`: the whole handler, over the loops on the lines and the payments.
use fivuza_backend.Prelude.{
  ℕ, suc, ℤ, ◌-ℤ◌, eqb_ℤ, Bool, true, false, not, ◌&&◌, Option, none, some, List, [], ◌∷◌, ◌==◌,
  if◌then◌else◌, any, length, pos,
}
use fivuza_backend.Result.{
  Result, ok, ◌>>=◌, ◌>>◌, raise_if, no_cash_session, payment_mismatch, integrity_error,
}
use fivuza_backend.Model.{Db}
use fivuza_backend.Model.Users.{Code, User, Action, AuditLog}
use fivuza_backend.Model.Inventory.{Concept}
use fivuza_backend.Model.Sales.{Customer, CashSession, Sale, SaleStatus, SaleDetail}
use fivuza_backend.Inventory.{Adjustment, adjust_stock, logged, logged_if}
use fivuza_backend.Authorization.{Env, consume}
use fivuza_backend.Cash.{is_open, assert_can_sell}
use fivuza_backend.Pricing.{exceeds_discount_limit}
use fivuza_backend.Sales.Lines.{SaleLine, PreparedLine, Cart, empty_cart, prepare_lines}
use fivuza_backend.Sales.Payments.{
  Payment, payments_total, check_payments, credit_part, status_of, record_payments,
}

pub data DiscountLimit : Type 0 where
  enforce flag skip : DiscountLimit

-- The arguments of the call.
pub record SaleRequest : Type 0 where
  pub customer : Customer
  pub cash_session : CashSession
  pub user : User
  pub lines : List SaleLine
  pub payments : List Payment
  pub client_side_uuid : Option ℕ
  pub allow_oversell : Bool
  pub at_time : Option ℕ
  pub authorization_token : Option ℕ
  pub discount_limit : DiscountLimit

abbrev pub given_or : Option ℕ → ℕ → ℕ
given_or (some n) _ = n
given_or none n = n

abbrev pub is_checked : DiscountLimit → Bool
is_checked DiscountLimit.skip = false
is_checked _ = true

abbrev pub is_enforced : DiscountLimit → Bool
is_enforced DiscountLimit.enforce = true
is_enforced _ = false

abbrev pub is_flagged : DiscountLimit → Bool
is_flagged DiscountLimit.flag = true
is_flagged _ = false

abbrev pub discount_over_limit : SaleRequest → Option ℤ → Db → Bool
discount_over_limit r percent db =
    is_checked r.discount_limit && exceeds_discount_limit r.user percent db

-- A discount over the limit spends the authorization of a supervisor; without a token, `consume`
-- refuses in the same way.
unfoldable pub authorize_discount : Env → SaleRequest → Option ℤ → Db → Result Db
authorize_discount env r percent db =
    if discount_over_limit r percent db && is_enforced r.discount_limit
    then (consume env r.authorization_token r.user Code.sales_discount none percent db >>= λ spent.
        ok spent.1)
    else ok db

abbrev pub has_uuid : ℕ → Sale → Bool
has_uuid i s = s.client_side_uuid == i

-- `Sale.objects.create(…)`
abbrev pub sale_of : Env → SaleRequest → Cart → ℕ → Sale
sale_of env r cart i =
    let total = cart.subtotal -ℤ cart.discount_total in
    let lent = credit_part r.payments in
    record {
      id = i;
      customer = r.customer;
      user = r.user.id;
      warehouse = r.cash_session.cash_register.warehouse;
      cash_session = some r.cash_session.id;
      subtotal = cart.subtotal;
      discount_total = cart.discount_total;
      total = total;
      payment_status = status_of lent total;
      credit_amount = lent;
      credit_settled_amount = pos 0;
      status = SaleStatus.completed;
      client_side_uuid = given_or r.client_side_uuid env.fresh;
      occurred_at = given_or r.at_time env.now;
    }

-- `SaleDetail.objects.create(…)`
abbrev pub detail_of : ℕ → ℕ → PreparedLine → SaleDetail
detail_of i sale p = record {
  id = i;
  sale = sale;
  variant_id = p.variant.id;
  quantity = p.quantity;
  unit_price = p.unit_price;
  discount_amount = p.discount_amount;
  subtotal = p.subtotal;
}

abbrev pub sold : ℕ → ℕ → PreparedLine → Adjustment
sold user warehouse p = record {
  variant = p.variant.id;
  warehouse = warehouse;
  counted_quantity = p.current_quantity -ℤ p.quantity;
  concept = Concept.sale;
  user = user;
  oversell_flag = p.oversold;
  audit = false;
}

unfoldable pub record_lines : ℕ → ℕ → ℕ → List PreparedLine → Db → Result Db
record_lines user sale warehouse [] db = ok db
record_lines user sale warehouse (p ∷ ps) db = do
  (movement, db₁) ←
      adjust_stock (sold user warehouse p)
        (record db { details = detail_of (suc (length db.details)) sale p ∷ db.details })
  record_lines user sale warehouse ps db₁

-- The sale is logged, and again if its discount was over the limit and let pass.
abbrev pub sale_logged : SaleRequest → Option ℤ → ℕ → Db → List AuditLog → List AuditLog
sale_logged r percent i db log =
    logged_if (discount_over_limit r percent db && is_flagged r.discount_limit) r.user.id
      Action.sale_discount_over_limit i (logged r.user.id Action.sale_created i log)

-- The second half of the handler: what it writes for a cart that was paid. The warnings are a
-- number: how many payments repeat an operation number of the day.
unfoldable pub write_sale : Env → SaleRequest → Cart → Db → Result (Sale × ℕ × Db)
write_sale env r cart db = do
  let percent = cart.manual_discount_percent
  db₁ ← authorize_discount env r percent db
  raise_if (any (has_uuid (given_or r.client_side_uuid env.fresh)) db₁.sales) integrity_error
  let sale = sale_of env r cart (suc (length db₁.sales))
  db₂ ←
      record_lines r.user.id sale.id r.cash_session.cash_register.warehouse cart.prepared_lines
        (record db₁ { sales = sale ∷ db₁.sales })
  (warnings, db₃) ←
      record_payments env r.customer sale.id (given_or r.at_time env.now) r.payments db₂
  ok (sale, warnings, record db₃ { audit_log = sale_logged r percent sale.id db db₃.audit_log })

unfoldable pub create_sale : Env → SaleRequest → Db → Result (Sale × ℕ × Db)
create_sale env r db = do
  raise_if (not (is_open r.cash_session.status)) no_cash_session
  assert_can_sell r.cash_session r.user
  cart ←
      prepare_lines r.cash_session.cash_register.warehouse r.allow_oversell
        (given_or r.at_time env.now) db r.lines empty_cart
  raise_if (not (eqb_ℤ (payments_total r.payments) (cart.subtotal -ℤ cart.discount_total)))
      payment_mismatch
  check_payments env r.payments
  write_sale env r cart db
