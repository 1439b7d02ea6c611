-- ===== src/Sales/Samples.antt =====
-- Concrete requests, and the tables after a sale and after it was voided.
use fivuza_backend.Prelude.{true, ℤ, pos, false, none, some, [], ◌∷◌}
use fivuza_backend.Model.{Db}
use fivuza_backend.Model.Users.{Action, Code}
use fivuza_backend.Model.Inventory.{outgoing, Concept}
use fivuza_backend.Model.Sales.{Sale, Method, PaymentState, PaymentStatus, SaleStatus}
use fivuza_backend.Sales.Lines.{Given, SaleLine}
use fivuza_backend.Sales.Payments.{Payment}
use fivuza_backend.Sales.Create.{SaleRequest, DiscountLimit}
use fivuza_backend.Model.Inventory.{incoming}
use fivuza_backend.Model.Sales.{outflow, devolucion}
use fivuza_backend.Samples.{shop, cashier, regular, session}

abbrev pub units : ℤ → Given
units q = record { hundredths = q; over = 1 }

abbrev pub loaves : ℤ → SaleLine
loaves q = record { variant_id = 1; quantity = units q; unit_price = none; discount_amount = none }

abbrev pub cash : ℤ → Payment
cash x = record {
  method = Method.cash;
  amount = x;
  provider = none;
  operation_number = none;
  card_last4 = [];
}

abbrev pub request : SaleRequest
request = record {
  customer = regular;
  cash_session = session;
  user = cashier;
  lines = loaves (pos 300) ∷ [];
  payments = cash (pos 1350) ∷ [];
  client_side_uuid = none;
  allow_oversell = false;
  at_time = none;
  authorization_token = none;
  discount_limit = DiscountLimit.enforce;
}

-- Three loaves of 5.00, 0.50 off each.
abbrev pub made : Sale
made = record {
  id = 3;
  customer = regular;
  user = 7;
  warehouse = 1;
  cash_session = some 1;
  subtotal = pos 1500;
  discount_total = pos 150;
  total = pos 1350;
  payment_status = PaymentStatus.paid;
  credit_amount = pos 0;
  credit_settled_amount = pos 0;
  status = SaleStatus.completed;
  client_side_uuid = 900;
  occurred_at = 1000;
}

abbrev pub after : Db
after = record shop {
  sales = made ∷ shop.sales;
  details =
      record {
        id = 1;
        sale = 3;
        variant_id = 1;
        quantity = pos 300;
        unit_price = pos 500;
        discount_amount = pos 150;
        subtotal = pos 1350;
      }
      ∷ [];
  stocks = record { variant = 1; warehouse = 1; quantity = pos 1700 } ∷ [];
  movements =
      record {
        id = 2;
        variant = 1;
        warehouse = 1;
        user = 7;
        type = outgoing;
        quantity = pos 300;
        concept = Concept.sale;
        reference_id = none;
        oversell_flag = false;
        resulting_balance = pos 1700;
      }
      ∷ shop.movements;
  payments =
      record {
        sale = 3;
        method = Method.cash;
        amount = pos 1350;
        provider = "";
        operation_number = "";
        status = PaymentState.approved;
        created_day = 1000;
      }
      ∷ [];
  audit_log = record { user = 7; action = Action.sale_created; entity_id = 3 } ∷ [];
}

-- The supervisor may void; the cashier's sale of bread is given back.
abbrev pub granted : Db
granted = record after {
  user_permissions = record { id = 1; user = 8; code = Code.sales_void; is_granted = true } ∷ [];
}

abbrev pub undone : Db
undone = record granted {
  sales = record made { status = SaleStatus.voided } ∷ shop.sales;
  stocks = record { variant = 1; warehouse = 1; quantity = pos 2000 } ∷ [];
  movements =
      record {
        id = 3;
        variant = 1;
        warehouse = 1;
        user = 8;
        type = incoming;
        quantity = pos 300;
        concept = Concept.return;
        reference_id = none;
        oversell_flag = false;
        resulting_balance = pos 2000;
      }
      ∷ after.movements;
  cash_movements =
      record { cash_session = 1; type = outflow; concept = devolucion; amount = pos 1350; user = 8 }
      ∷ [];
  audit_log = record { user = 8; action = Action.sale_voided; entity_id = 3 } ∷ after.audit_log;
}
