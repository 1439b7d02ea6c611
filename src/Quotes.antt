-- ===== src/Quotes.antt =====
-- ventas/services/quotes.py, QuoteService: prices that are frozen for a customer, and the sale that
-- they become.
mod Tests
pub mod Conversion
pub mod Frozen
use fivuza_backend.Prelude.{
  ℕ, suc, ℤ, pos, ◌+ℤ◌, ◌-ℤ◌, ◌*ℤ◌, Bool, true, false, not, Option, none, some, List, [], ◌∷◌, ◌++◌,
  ◌==◌, ltb, is_some, if◌then◌else◌, first, update_where, length,
}
use fivuza_backend.Result.{
  Result, ok, err, ◌>>=◌, ◌>>◌, raise_if, does_not_exist, quote_already_converted,
  quote_not_accepted, quote_expired,
}
use fivuza_backend.Model.{Db}
use fivuza_backend.Model.Users.{Code, User, Action}
use fivuza_backend.Model.Inventory.{ProductVariant}
use fivuza_backend.Model.Sales.{Customer, CashSession, Sale}
use fivuza_backend.Decimals.{round2}
use fivuza_backend.Inventory.{logged}
use fivuza_backend.Authorization.{Env, consume}
use fivuza_backend.Pricing.{
  resolve_unit_price, resolve_promotion_discount, discount_percent, exceeds_discount_limit,
}
use fivuza_backend.Sales.Lines.{Given, rounded, SaleLine, higher_percent, is_variant}
use fivuza_backend.Sales.Payments.{Payment}
use fivuza_backend.Sales.Create.{SaleRequest, DiscountLimit, given_or, create_sale}

pub data QuoteStatus : Type 0 where
  draft sent accepted expired rejected : QuoteStatus

-- The names of the product are text and are left out.
pub record QuoteDetail : Type 0 where
  pub variant_id : ℕ
  pub quantity : ℤ
  pub unit_price : ℤ
  pub discount_amount : ℤ
  pub subtotal : ℤ

-- `details` are the rows of the quote, in the order in which they were made.
pub record Quote : Type 0 where
  pub id : ℕ
  pub customer : Customer
  pub user : ℕ
  pub status : QuoteStatus
  pub valid_until : ℕ
  pub subtotal : ℤ
  pub discount_total : ℤ
  pub total : ℤ
  pub sale : Option ℕ
  pub details : List QuoteDetail

-- The tables, and the quotes beside them.
pub record Desk : Type 0 where
  pub db : Db
  pub quotes : List Quote

pub record QuoteLine : Type 0 where
  pub variant_id : ℕ
  pub quantity : Given
  pub discount_amount : Option Given

-- The variables of the loop.
pub record Basket : Type 0 where
  pub subtotal : ℤ
  pub discount_total : ℤ
  pub manual_discount_percent : Option ℤ
  pub prepared_lines : List QuoteDetail

abbrev pub empty_basket : Basket
empty_basket = record {
  subtotal = pos 0;
  discount_total = pos 0;
  manual_discount_percent = none;
  prepared_lines = [];
}

abbrev pub quoted_variant : Option ProductVariant → Result ProductVariant
quoted_variant (some v) = ok v
quoted_variant none = err does_not_exist

-- A manual discount is rounded as it is given, and goes before the promotion's.
abbrev pub quoted_discount : Option Given → ProductVariant → ℤ → ℤ → ℕ → Db → ℤ
quoted_discount (some d) v quantity unit_price at_time db = rounded d
quoted_discount none v quantity unit_price at_time db =
    resolve_promotion_discount v quantity unit_price at_time db

abbrev pub quoted_percent : Option Given → ℤ → ℤ → Option ℤ → Option ℤ
quoted_percent none discount line_subtotal highest = highest
quoted_percent (some _) discount line_subtotal highest =
    higher_percent highest (discount_percent discount line_subtotal)

-- `round2(unit_price * quantity)`
abbrev pub line_amount : ℤ → ℤ → ℤ
line_amount unit_price quantity = round2 (unit_price *ℤ quantity) 100

abbrev pub quoted : QuoteLine → ProductVariant → ℤ → ℤ → ℤ → Basket → Basket
quoted line v quantity unit_price discount basket =
    let line_subtotal = line_amount unit_price quantity in
    record {
      subtotal = basket.subtotal +ℤ line_subtotal;
      discount_total = basket.discount_total +ℤ discount;
      manual_discount_percent =
          quoted_percent line.discount_amount discount line_subtotal basket.manual_discount_percent;
      prepared_lines =
          basket.prepared_lines
          ++ (record {
            variant_id = v.id;
            quantity = quantity;
            unit_price = unit_price;
            discount_amount = discount;
            subtotal = line_subtotal -ℤ discount;
          }
              ∷ []);
    }

unfoldable pub quote_lines : ℕ → Db → List QuoteLine → Basket → Result Basket
quote_lines at_time db [] basket = ok basket
quote_lines at_time db (line ∷ lines) basket = do
  v ← quoted_variant (first (is_variant line.variant_id) db.variants)
  let quantity = rounded line.quantity
  let unit_price = resolve_unit_price v quantity db
  let discount = quoted_discount line.discount_amount v quantity unit_price at_time db
  quote_lines at_time db lines (quoted line v quantity unit_price discount basket)

-- A discount over the limit of the role spends a supervisor's token.
unfoldable pub authorize_quote : Env → Option ℕ → User → Option ℤ → Db → Result Db
authorize_quote env token user percent db =
    if exceeds_discount_limit user percent db
    then (consume env token user Code.sales_discount none percent db >>= λ spent. ok spent.1)
    else ok db

abbrev pub quote_of : ℕ → Customer → User → ℕ → Basket → Quote
quote_of i customer user valid_until basket = record {
  id = i;
  customer = customer;
  user = user.id;
  status = draft;
  valid_until = valid_until;
  subtotal = basket.subtotal;
  discount_total = basket.discount_total;
  total = basket.subtotal -ℤ basket.discount_total;
  sale = none;
  details = basket.prepared_lines;
}

unfoldable pub create_quote :
    Env → Customer → User → List QuoteLine → ℕ → Option ℕ → Option ℕ → Desk → Result (Quote × Desk)
create_quote env customer user lines valid_until at_time token desk = do
  basket ← quote_lines (given_or at_time env.now) desk.db lines empty_basket
  db₁ ← authorize_quote env token user basket.manual_discount_percent desk.db
  let quote = quote_of (suc (length desk.quotes)) customer user valid_until basket
  ok (
    quote,
    record {
      db = record db₁ { audit_log = logged user.id Action.quote_created quote.id db₁.audit_log };
      quotes = quote ∷ desk.quotes;
    },
  )

abbrev pub is_quote : ℕ → Quote → Bool
is_quote i q = q.id == i

-- `quote.status = …; quote.save(update_fields=["status"])`
abbrev pub marked : QuoteStatus → Quote → Quote
marked status q = record q { status = status }

abbrev pub mark : QuoteStatus → Quote → Desk → Quote × Desk
mark status q desk = (
  marked status q,
  record desk { quotes = update_where (is_quote q.id) (marked status) desk.quotes },
)

abbrev pub mark_sent : Quote → Desk → Quote × Desk
mark_sent q desk = mark sent q desk

abbrev pub mark_accepted : Quote → Desk → Quote × Desk
mark_accepted q desk = mark accepted q desk

abbrev pub mark_rejected : Quote → Desk → Quote × Desk
mark_rejected q desk = mark rejected q desk
