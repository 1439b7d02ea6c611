-- ===== src/Quotes/Conversion.antt =====
-- `convert_to_sale`: an accepted quote is sold once, at its own prices.
use fivuza_backend.Prelude.{
  ℕ, true, false, not, Bool, some, none, List, [], ◌∷◌, ltb, is_some, update_where,
}
use fivuza_backend.Result.{
  Result, ok, ◌>>=◌, ◌>>◌, raise_if, quote_already_converted, quote_not_accepted, quote_expired,
}
use fivuza_backend.Model.Users.{User, Action}
use fivuza_backend.Model.Sales.{CashSession, Sale}
use fivuza_backend.Inventory.{logged}
use fivuza_backend.Authorization.{Env}
use fivuza_backend.Sales.Lines.{SaleLine}
use fivuza_backend.Sales.Payments.{Payment}
use fivuza_backend.Sales.Create.{SaleRequest, DiscountLimit, create_sale}
use fivuza_backend.Quotes.{QuoteStatus, accepted, QuoteDetail, Quote, Desk, is_quote}

abbrev pub is_accepted : QuoteStatus → Bool
is_accepted accepted = true
is_accepted _ = false

-- The lines of the sale, with the prices and the discounts of the quote.
abbrev pub frozen_line : QuoteDetail → SaleLine
frozen_line d = record {
  variant_id = d.variant_id;
  quantity = record { hundredths = d.quantity; over = 1 };
  unit_price = some (record { hundredths = d.unit_price; over = 1 });
  discount_amount = some (record { hundredths = d.discount_amount; over = 1 });
}

abbrev pub frozen_lines : List QuoteDetail → List SaleLine
frozen_lines [] = []
frozen_lines (d ∷ ds) = frozen_line d ∷ frozen_lines ds

-- The arguments of the sale: the limit on discounts was checked when they were quoted.
abbrev pub quote_request : Quote → CashSession → User → List Payment → SaleRequest
quote_request q session user payments = record {
  customer = q.customer;
  cash_session = session;
  user = user;
  lines = frozen_lines q.details;
  payments = payments;
  client_side_uuid = none;
  allow_oversell = false;
  at_time = none;
  authorization_token = none;
  discount_limit = DiscountLimit.skip;
}

abbrev pub sold_by : ℕ → Quote → Quote
sold_by sale q = record q { sale = some sale }

unfoldable pub sell_quote :
    Env → Quote → CashSession → User → List Payment → Desk → Result (Sale × Desk)
sell_quote env q session user payments desk = do
  raise_if (is_some q.sale) quote_already_converted
  raise_if (not (is_accepted q.status)) quote_not_accepted
  raise_if (ltb q.valid_until env.now) quote_expired
  (sale, warnings, db₁) ← create_sale env (quote_request q session user payments) desk.db
  ok (
    sale,
    record {
      db = record db₁ { audit_log = logged user.id Action.quote_converted q.id db₁.audit_log };
      quotes = update_where (is_quote q.id) (sold_by sale.id) desk.quotes;
    },
  )
