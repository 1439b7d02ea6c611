-- ===== src/Cash/Till.antt =====
-- What a till is expected to hold, counted row by row.
use fivuza_backend.Prelude.{
  ℕ, ◌≡◌, refl, ℤ, pos, ◌+ℤ◌, ◌-ℤ◌, Bool, true, false, ◌&&◌, Option, none, some, List, [], ◌∷◌,
  ◌==◌, if◌then◌else◌, first, int_laws, inl, inr, Bool-cases,
}
use fivuza_backend.Model.{Db}
use fivuza_backend.Model.Sales.{
  CashSession, CashMovement, Direction, inflow, outflow, Sale, SalePayment, Method,
}
use fivuza_backend.Credit.{has_sale_id}
use fivuza_backend.Cash.{
  is_cash, is_inflow, same, in_session, sold_in, cash_sales, movements_sum,
  calculate_expected_closing_amount,
}

-- A payment counts if it is in cash and its sale was made in the shift.
abbrev pub is_of_shift : ℕ → Option Sale → Bool
is_of_shift i none = false
is_of_shift i (some sale) = elim sale.cash_session [ some k ↦ k == i | none ↦ false ]

abbrev pub cash_amount : Method → ℤ → ℤ
cash_amount Method.cash x = x
cash_amount Method.card x = pos 0
cash_amount Method.yape x = pos 0
cash_amount Method.credit_ledger x = pos 0
cash_amount Method.balance x = pos 0

abbrev pub takings : ℕ → List Sale → List SalePayment → ℤ
takings i sales [] = pos 0
takings i sales (p ∷ ps) =
    (if is_of_shift i (first (has_sale_id p.sale) sales)
      then cash_amount p.method p.amount
      else pos 0)
    +ℤ takings i sales ps

abbrev pub signed : Direction → ℤ → ℤ
signed inflow x = x
signed outflow x = pos 0 -ℤ x

abbrev pub put_in : ℕ → List CashMovement → ℤ
put_in i [] = pos 0
put_in i (m ∷ ms) = (if m.cash_session == i then signed m.type m.amount else pos 0) +ℤ put_in i ms

-- The opening amount, the takings and what was put in less what was taken out.
abbrev pub in_till : CashSession → Db → ℤ
in_till s db =
    (s.opening_amount +ℤ takings s.id db.sales db.payments) +ℤ put_in s.id db.cash_movements

in_session-elim :
    (i : ℕ) (o : Option ℕ)
    → in_session i o ≡ elim o as (λ _. Bool) [ some k ↦ k == i | none ↦ false ]
in_session-elim i none = refl
in_session-elim i (some k) = refl

sold_in-first :
    (i k : ℕ) (sales : List Sale) → sold_in i sales k ≡ is_of_shift i (first (has_sale_id k) sales)
sold_in-first i k [] = refl
sold_in-first i k (s ∷ sales) = elim (Bool-cases (s.id == k)) [
  | inl e ↦ rw e (in_session-elim i s.cash_session)
  | inr e ↦ rw e (sold_in-first i k sales)
]

cash_part :
    (m : Method) (b : Bool) (x : ℤ)
    → (if is_cash m && b then x else pos 0) ≡ (if b then cash_amount m x else pos 0)
cash_part Method.cash b x = refl
cash_part Method.card b x = elim (Bool-cases b) [ inl e ↦ rw e refl | inr e ↦ rw e refl ]
cash_part Method.yape b x = elim (Bool-cases b) [ inl e ↦ rw e refl | inr e ↦ rw e refl ]
cash_part Method.credit_ledger b x = elim (Bool-cases b) [ inl e ↦ rw e refl | inr e ↦ rw e refl ]
cash_part Method.balance b x = elim (Bool-cases b) [ inl e ↦ rw e refl | inr e ↦ rw e refl ]

cash_sales-takings :
    (i : ℕ) (sales : List Sale) (ps : List SalePayment) → cash_sales i sales ps ≡ takings i sales ps
cash_sales-takings i sales [] = refl
cash_sales-takings i sales (p ∷ ps) =
    rw
      (
        cash_part p.method (sold_in i sales p.sale) p.amount,
        sold_in-first i p.sale sales,
        cash_sales-takings i sales ps,
      )
      refl

movements_sum-put_in :
    (i : ℕ) (ms : List CashMovement)
    → movements_sum true i ms ≡ put_in i ms +ℤ movements_sum false i ms
movements_sum-put_in i [] = omega int_laws
movements_sum-put_in i (m ∷ ms) = elim (Bool-cases (m.cash_session == i)) [
  | inl e ↦ rw (e, movements_sum-put_in i ms) (by_type m.type)
  | inr e ↦ rw (e, movements_sum-put_in i ms) (omega int_laws)
]
  where
    by_type :
        (type : Direction)
        → (if true && same true (is_inflow type) then m.amount else pos 0)
            +ℤ (put_in i ms +ℤ movements_sum false i ms)
          ≡ (signed type m.amount +ℤ put_in i ms)
            +ℤ ((if true && same false (is_inflow type) then m.amount else pos 0)
                +ℤ movements_sum false i ms)
    by_type inflow = omega int_laws
    by_type outflow = omega int_laws

pub expected-in_till :
    (s : CashSession) (db : Db) → calculate_expected_closing_amount s db ≡ in_till s db
unfolding calculate_expected_closing_amount
expected-in_till s db =
    rw (cash_sales-takings s.id db.sales db.payments, movements_sum-put_in s.id db.cash_movements)
      (omega int_laws)
