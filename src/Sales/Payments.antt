-- ===== src/Sales/Payments.antt =====
-- The payments of `create_sale`: what is checked before anything is written, and what is written.
use fivuza_backend.Prelude.{
  ℕ, suc, ℤ, pos, ◌+ℤ◌, leb_ℤ, eqb_ℤ, Bool, true, false, not, ◌&&◌, Option, none, some, List, [],
  ◌∷◌, ◌==◌, leb, if◌then◌else◌, any, all, length, String, str_eq,
}
use fivuza_backend.Result.{Result, ok, ◌>>=◌, ◌>>◌, raise_if, invalid_request}
use fivuza_backend.Model.{Db}
use fivuza_backend.Model.Sales.{Customer, Method, PaymentState, PaymentStatus, SalePayment}
use fivuza_backend.Authorization.{Env}
use fivuza_backend.Credit.{register_credit_sale, register_balance_use}

-- A payment of the request. The last digits of a card are a list of characters, each a code point.
pub record Payment : Type 0 where
  pub method : Method
  pub amount : ℤ
  pub provider : Option String
  pub operation_number : Option String
  pub card_last4 : List ℕ

abbrev pub payments_total : List Payment → ℤ
payments_total [] = pos 0
payments_total (p ∷ ps) = p.amount +ℤ payments_total ps

-- `p["method"] in ("CARD", "YAPE")`
abbrev pub is_electronic : Method → Bool
is_electronic Method.card = true
is_electronic Method.yape = true
is_electronic _ = false

-- `… or ""`
abbrev pub or_blank : Option String → String
or_blank none = ""
or_blank (some s) = s

abbrev pub is_blank : Option String → Bool
is_blank s = str_eq (or_blank s) ""

-- `not card_last4 or re.fullmatch(r"\d{1,4}", card_last4)`
abbrev pub is_last4 : Env → List ℕ → Bool
is_last4 env digits = leb (length digits) 4 && all env.is_digit digits

unfoldable pub check_payments : Env → List Payment → Result (Unit {0})
check_payments env [] = ok tt
check_payments env (p ∷ payments) = do
  raise_if (is_electronic p.method && is_blank p.operation_number) invalid_request
  raise_if (not (is_last4 env p.card_last4)) invalid_request
  check_payments env payments

abbrev pub is_credit : Method → Bool
is_credit Method.credit_ledger = true
is_credit _ = false

-- The part of the sale that is lent.
abbrev pub credit_part : List Payment → ℤ
credit_part [] = pos 0
credit_part (p ∷ ps) = (if is_credit p.method then p.amount else pos 0) +ℤ credit_part ps

abbrev pub status_of : ℤ → ℤ → PaymentStatus
status_of credit_amount total =
    if eqb_ℤ credit_amount (pos 0)
    then PaymentStatus.paid
    else if leb_ℤ total credit_amount
    then PaymentStatus.unpaid
    else PaymentStatus.partial

abbrev pub method_eq : Method → Method → Bool
method_eq Method.cash Method.cash = true
method_eq Method.card Method.card = true
method_eq Method.yape Method.yape = true
method_eq Method.credit_ledger Method.credit_ledger = true
method_eq Method.balance Method.balance = true
method_eq _ _ = false

abbrev pub is_voided : PaymentState → Bool
is_voided PaymentState.voided = true
is_voided _ = false

-- The same operation on the same day with the same provider, but for voided payments.
abbrev pub is_duplicate : Payment → ℕ → SalePayment → Bool
is_duplicate p day row =
    method_eq row.method p.method
    && str_eq row.provider (or_blank p.provider)
    && str_eq row.operation_number (or_blank p.operation_number)
    && (row.created_day == day)
    && not (is_voided row.status)

-- Whether the cashier is warned of a number used before.
abbrev pub is_warned : Env → ℕ → Payment → Db → Bool
is_warned env at_time p db =
    is_electronic p.method
    && not (is_blank p.operation_number)
    && any (is_duplicate p (env.local_day at_time)) db.payments

-- `SalePayment.objects.create(…)`, dated by the clock.
abbrev pub payment_of : Env → ℕ → Payment → SalePayment
payment_of env sale p = record {
  sale = sale;
  method = p.method;
  amount = p.amount;
  provider = or_blank p.provider;
  operation_number = or_blank p.operation_number;
  status = PaymentState.approved;
  created_day = env.local_day env.now;
}

-- What a payment writes in the customer's books.
abbrev pub book : Method → Customer → ℕ → ℤ → Db → Result Db
book Method.credit_ledger c sale amount db = register_credit_sale c sale amount db
book Method.balance c sale amount db = register_balance_use c sale amount db
book _ c sale amount db = ok db

unfoldable pub record_payment : Env → Customer → ℕ → Payment → Db → Result Db
record_payment env c sale p db =
    book p.method c sale p.amount (record db { payments = payment_of env sale p ∷ db.payments })

-- One warning for each number that was used before.
abbrev pub warned : Bool → ℕ → ℕ
warned b n = if b then suc n else n

unfoldable pub record_payments : Env → Customer → ℕ → ℕ → List Payment → Db → Result (ℕ × Db)
record_payments env c sale at_time [] db = ok (0, db)
record_payments env c sale at_time (p ∷ payments) db = do
  db₁ ← record_payment env c sale p db
  (warnings, db₂) ← record_payments env c sale at_time payments db₁
  ok (warned (is_warned env at_time p db) warnings, db₂)
