-- ===== src/Credit.antt =====
-- ventas/services/credit.py, CreditLedgerService: the books of what customers owe (fiado) and of
-- what they have in their favour. Entries are listed newest first.
mod Tests
pub mod Limits
pub mod Settling
pub mod Rows
pub mod Owed
pub mod Saved
pub mod Payments
use fivuza_backend.Prelude.{
  ℕ, ◌≡◌, ℤ, pos, ◌+ℤ◌, ◌-ℤ◌, ltb_ℤ, leb_ℤ, eqb_ℤ, min_ℤ, Bool, true, false, ◌&&◌, Option, none,
  some, List, [], ◌∷◌, ◌==◌, if◌then◌else◌, leb, select, update_where,
}
use fivuza_backend.Result.{
  Result, ok, err, ◌>>=◌, ◌>>◌, raise_if, walk_in_credit_not_allowed, walk_in_balance_not_allowed,
  credit_limit_exceeded, insufficient_balance,
}
use fivuza_backend.Model.{Db}
use fivuza_backend.Model.Sales.{
  Customer, Sale, LedgerEntry, EntryType, debit, credit, PaymentStatus, paid, partial,
}

abbrev pub same_type : EntryType → EntryType → Bool
same_type debit debit = true
same_type credit credit = true
same_type _ _ = false

-- `aggregate(Sum("amount", filter=Q(type=…)))` over one customer's entries
abbrev pub total_of : EntryType → ℕ → List LedgerEntry → ℤ
total_of t c [] = pos 0
total_of t c (e ∷ es) =
    (if (e.customer == c) && same_type e.type t then e.amount else pos 0) +ℤ total_of t c es

unfoldable pub get_debt : ℕ → Db → ℤ
get_debt c db = total_of debit c db.debts -ℤ total_of credit c db.debts

unfoldable pub get_balance : ℕ → Db → ℤ
get_balance c db = total_of credit c db.balances -ℤ total_of debit c db.balances

-- `customer.credit_limit is not None and … > customer.credit_limit`
abbrev pub over_limit : Option ℤ → ℤ → Bool
over_limit none debt = false
over_limit (some limit) debt = ltb_ℤ limit debt

abbrev pub entry : ℕ → Option ℕ → Option ℕ → EntryType → ℤ → LedgerEntry
entry c sale sale_return type amount = record {
  customer = c;
  sale = sale;
  sale_return = sale_return;
  type = type;
  amount = amount;
}

unfoldable pub register_credit_sale : Customer → ℕ → ℤ → Db → Result Db
register_credit_sale c sale amount db = do
  raise_if c.is_walk_in walk_in_credit_not_allowed
  raise_if (over_limit c.credit_limit (get_debt c.id db +ℤ amount)) credit_limit_exceeded
  ok (record db { debts = entry c.id (some sale) none debit amount ∷ db.debts })

unfoldable pub register_balance_use : Customer → ℕ → ℤ → Db → Result Db
register_balance_use c sale amount db = do
  raise_if c.is_walk_in walk_in_balance_not_allowed
  raise_if (ltb_ℤ (get_balance c.id db) amount) insufficient_balance
  ok (record db { balances = entry c.id (some sale) none debit amount ∷ db.balances })

abbrev pub reverse_credit_sale : ℕ → ℕ → ℤ → Db → Db
reverse_credit_sale c sale amount db = record db {
  debts = entry c (some sale) none credit amount ∷ db.debts;
}

abbrev pub reverse_balance_use : ℕ → ℕ → ℤ → Db → Db
reverse_balance_use c sale amount db = record db {
  balances = entry c (some sale) none credit amount ∷ db.balances;
}

abbrev pub register_balance_credit : ℕ → ℕ → ℕ → ℤ → Db → Db
register_balance_credit c sale sale_return amount db = record db {
  balances = entry c (some sale) (some sale_return) credit amount ∷ db.balances;
}

-- `order_by("occurred_at")`
abbrev pub insert_by_date : Sale → List Sale → List Sale
insert_by_date s [] = s ∷ []
insert_by_date s (t ∷ ts) =
    if leb s.occurred_at t.occurred_at then s ∷ t ∷ ts else t ∷ insert_by_date s ts

abbrev pub sort_by_date : List Sale → List Sale
sort_by_date [] = []
sort_by_date (s ∷ ss) = insert_by_date s (sort_by_date ss)

-- `filter(customer=…, credit_amount__gt=F("credit_settled_amount"))`
abbrev pub is_pending : ℕ → Sale → Bool
is_pending c s = (s.customer.id == c) && ltb_ℤ s.credit_settled_amount s.credit_amount

abbrev pub outstanding : Sale → ℤ
outstanding s = s.credit_amount -ℤ s.credit_settled_amount

-- The sale with `applied` more settled, and its new payment status.
abbrev pub settled_by : ℤ → Sale → Sale
settled_by applied s =
    let settled = s.credit_settled_amount +ℤ applied in
    record s {
      credit_settled_amount = settled;
      payment_status = if leb_ℤ s.credit_amount settled then paid else partial;
    }

-- The loop over the pending sales: the rows that it saves.
unfoldable pub settle : ℤ → List Sale → List Sale
settle remaining [] = []
settle remaining (s ∷ pending) =
    let applied = min_ℤ remaining (outstanding s) in
    let rest = settle (remaining -ℤ applied) pending in
    if leb_ℤ remaining (pos 0) then [] else settled_by applied s ∷ rest

abbrev pub has_sale_id : ℕ → Sale → Bool
has_sale_id i s = s.id == i

-- `sale.save(update_fields=…)` of each of the rows
abbrev pub save_sales : List Sale → List Sale → List Sale
save_sales [] table = table
save_sales (s ∷ saved) table = save_sales saved (update_where (has_sale_id s.id) (λ _. s) table)

abbrev pub pending_sales : ℕ → List Sale → List Sale
pending_sales c sales = sort_by_date (select (is_pending c) sales)

unfoldable pub register_payment : ℕ → ℤ → Db → Db
register_payment c amount db = record db {
  debts = entry c none none credit amount ∷ db.debts;
  sales = save_sales (settle amount (pending_sales c db.sales)) db.sales;
}
