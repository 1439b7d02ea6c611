-- ===== src/Reservations/Sold.antt =====
-- A sale leaves the reservations as they are.
use fivuza_backend.Prelude.{ℕ, suc, ◌≡◌, refl, ap, ◌∙◌, ℤ, List, [], ◌∷◌, length}
use fivuza_backend.Result.{ok, >>=-eq-ok, ok-injective}
use fivuza_backend.Model.{Db}
use fivuza_backend.Model.Sales.{Customer, Sale, Method}
use fivuza_backend.Inventory.Kardex.{adjust_stock-ok}
use fivuza_backend.Authorization.{Env}
use fivuza_backend.Credit.{register_credit_sale, register_balance_use}
use fivuza_backend.Sales.Lines.{PreparedLine}
use fivuza_backend.Sales.Payments.{Payment, book, payment_of, record_payment, record_payments}
use fivuza_backend.Sales.Create.{
  SaleRequest, record_lines, detail_of, sold, create_sale, sale_of, given_or,
}
use fivuza_backend.Sales.Outcome.{create_sale-Accepted}
use fivuza_backend.Sales.Discounts.{authorize_discount-ok}

record_lines-reservations :
    (user sale w : ℕ) (ps : List PreparedLine) (db : Db) {db' : Db}
    → record_lines user sale w ps db ≡ ok db'
    → db'.reservations ≡ db.reservations
unfolding record_lines
record_lines-reservations user sale w [] db h = rw (← ok-injective h) refl
record_lines-reservations user sale w (p ∷ ps) db h =
    let db₀ : Db = record db {
      details = detail_of (suc (length db.details)) sale p ∷ db.details;
    } in
    let ((m, db₁), e₁, h₁) = >>=-eq-ok _ _ h in
    let (_, _, e) = adjust_stock-ok (sold user w p) db₀ e₁ in
    record_lines-reservations user sale w ps db₁ h₁ ∙ ap (λ (x : Db). x.reservations) e

book-reservations :
    (m : Method) (c : Customer) (sale : ℕ) (x : ℤ) (db : Db) {db' : Db}
    → book m c sale x db ≡ ok db'
    → db'.reservations ≡ db.reservations
unfolding register_credit_sale register_balance_use
book-reservations Method.cash c sale x db h = rw (← ok-injective h) refl
book-reservations Method.card c sale x db h = rw (← ok-injective h) refl
book-reservations Method.yape c sale x db h = rw (← ok-injective h) refl
book-reservations Method.credit_ledger c sale x db h =
    let (_, _, h₁) = >>=-eq-ok _ _ h in
    let (_, _, h₂) = >>=-eq-ok _ _ h₁ in rw (← ok-injective h₂) refl
book-reservations Method.balance c sale x db h =
    let (_, _, h₁) = >>=-eq-ok _ _ h in
    let (_, _, h₂) = >>=-eq-ok _ _ h₁ in rw (← ok-injective h₂) refl

record_payments-reservations :
    (env : Env) (c : Customer) (sale at_time : ℕ) (ps : List Payment) (db : Db) {n : ℕ} {db' : Db}
    → record_payments env c sale at_time ps db ≡ ok (n, db')
    → db'.reservations ≡ db.reservations
unfolding record_payments record_payment
record_payments-reservations env c sale at_time [] db h = rw (← ap (λ r. r.1) (ok-injective h)) refl
record_payments-reservations env c sale at_time (p ∷ ps) db h =
    let db₀ : Db = record db { payments = payment_of env sale p ∷ db.payments } in
    let (db₁, e₁, h₁) = >>=-eq-ok _ _ h in
    let ((n₂, db₂), e₂, h₂) = >>=-eq-ok _ _ h₁ in
    rw (← ap (λ r. r.1) (ok-injective h₂)) (
      record_payments-reservations env c sale at_time ps db₁ e₂
      ∙ book-reservations p.method c sale p.amount db₀ e₁)

pub create_sale-reservations :
    (env : Env) (r : SaleRequest) (db : Db) {sale : Sale} {n : ℕ} {db' : Db}
    → create_sale env r db ≡ ok (sale, n, db')
    → db'.reservations ≡ db.reservations
create_sale-reservations env r db {sale} {n} {db'} h =
    let (cart, a, w) = create_sale-Accepted env r db h in
    let (_, e) = authorize_discount-ok env r cart.manual_discount_percent db w.authorized in
    let i = suc (length w.spent.sales) in
    let db₁ : Db = record w.spent { sales = sale_of env r cart i ∷ w.spent.sales } in
    ap (λ (x : Db). x.reservations) w.ends
    ∙ record_payments-reservations env r.customer i (given_or r.at_time env.now) r.payments
        w.delivered w.payments_done
    ∙ record_lines-reservations r.user.id i r.cash_session.cash_register.warehouse
        cart.prepared_lines db₁ w.lines_done
    ∙ ap (λ (x : Db). x.reservations) e
