-- ===== src/Samples.antt =====
-- Concrete rows for the tests: one warehouse with stock and its Kardex, customers, users and a till.
use fivuza_backend.Prelude.{ℕ, ℤ, pos, true, false, none, some, [], ◌∷◌, leb, ◌&&◌}
use fivuza_backend.Model.{Db}
use fivuza_backend.Model.Inventory.{ProductVariant, InventoryMovement, incoming, purchase}
use fivuza_backend.Model.Users.{Code, User, SupervisorAuthorization}
use fivuza_backend.Model.Sales.{
  Customer, CashRegister, CashSession, SessionStatus, Sale, PaymentStatus, SaleStatus, LedgerEntry,
  debit, Promotion, percentage, fixed_amount,
}
use fivuza_backend.Authorization.{Env}

abbrev pub env : Env
env = record {
  now = 1000;
  hash = λ t. t;
  local_day = λ t. t;
  is_digit = λ c. leb 48 c && leb c 57;
  fresh = 900;
}

-- A cashier, whose role gives no discount without a supervisor, and a supervisor.
abbrev pub cashier : User
cashier = record { id = 7; role = record { id = 2; max_discount_percent = pos 1000 } }

abbrev pub supervisor : User
supervisor = record { id = 8; role = record { id = 1; max_discount_percent = pos 0 } }

abbrev pub regular : Customer
regular = record { id = 4; credit_limit = some (pos 50000); is_walk_in = false }

abbrev pub register : CashRegister
register = record { id = 1; warehouse = 1; assigned_user = none }

abbrev pub session : CashSession
session = record {
  id = 1;
  cash_register = register;
  user = 7;
  opening_amount = pos 10000;
  expected_closing_amount = none;
  counted_closing_amount = none;
  difference = none;
  status = SessionStatus.open_;
  counted_at = none;
  closing_at = none;
  approved_by = none;
}

-- Twenty units of variant 1 in warehouse 1, as one purchase.
abbrev pub arrival : InventoryMovement
arrival = record {
  id = 1;
  variant = 1;
  warehouse = 1;
  user = 8;
  type = incoming;
  quantity = pos 2000;
  concept = purchase;
  reference_id = none;
  oversell_flag = false;
  resulting_balance = pos 2000;
}

abbrev pub old_sale : ℕ → ℕ → ℤ → Sale
old_sale i day fiado = record {
  id = i;
  customer = regular;
  user = 7;
  warehouse = 1;
  cash_session = some 1;
  subtotal = fiado;
  discount_total = pos 0;
  total = fiado;
  payment_status = PaymentStatus.unpaid;
  credit_amount = fiado;
  credit_settled_amount = pos 0;
  status = SaleStatus.completed;
  client_side_uuid = i;
  occurred_at = day;
}

abbrev pub debt : ℕ → ℤ → LedgerEntry
debt sale x = record {
  customer = 4;
  sale = some sale;
  sale_return = none;
  type = debit;
  amount = x;
}

abbrev pub token : SupervisorAuthorization
token = record {
  id = 1;
  token_hash = 99;
  permission = Code.sales_void;
  requested_by = 7;
  authorized_by = 8;
  target_id = some 1;
  discount_percent = none;
  expires_at = 1100;
  used_at = none;
}

-- 10% off the category 5, and 0.50 off each unit of the variant 1.
abbrev pub tenth : Promotion
tenth = record {
  id = 2;
  type = percentage;
  value = pos 1000;
  start_date = 100;
  end_date = 2000;
  is_active = true;
  targets = record { variant = none; category = some 5 } ∷ [];
}

abbrev pub half_sol : Promotion
half_sol = record {
  id = 1;
  type = fixed_amount;
  value = pos 50;
  start_date = 100;
  end_date = 2000;
  is_active = true;
  targets = record { variant = some 1; category = none } ∷ [];
}

-- Variants of the shop.
abbrev pub bread : ProductVariant
bread = record { id = 1; category = 5; price = pos 500; cost = pos 300 }

abbrev pub cheese : ProductVariant
cheese = record { id = 2; category = 5; price = pos 1999; cost = pos 1000 }

abbrev pub shop : Db
shop = record {
  variants = bread ∷ cheese ∷ [];
  pricing_tiers = record { variant = 1; min_quantity = pos 1200; unit_price = pos 450 } ∷ [];
  stocks = record { variant = 1; warehouse = 1; quantity = pos 2000 } ∷ [];
  movements = arrival ∷ [];
  price_history = [];
  purchase_orders = [];
  role_permissions =
      record { role = 2; code = Code.sales_manage }
      ∷ record { role = 1; code = Code.cash_manage }
      ∷ [];
  user_permissions = [];
  permission_cache = λ _. none;
  authorizations = token ∷ [];
  audit_log = [];
  sessions = session ∷ [];
  cash_movements = [];
  promotions = tenth ∷ half_sol ∷ [];
  sales = old_sale 2 20 (pos 3000) ∷ old_sale 1 10 (pos 1000) ∷ [];
  payments = [];
  details = [];
  returns = [];
  return_details = [];
  debts = debt 2 (pos 3000) ∷ debt 1 (pos 1000) ∷ [];
  balances = [];
  reservations = [];
}
