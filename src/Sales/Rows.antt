-- ===== src/Sales/Rows.antt =====
-- The rows that the loops of a sale write, and the sums over them.
use fivuza_backend.Prelude.{
  ℕ, suc, ◌≡◌, refl, ap, ◌∙◌, ℤ, pos, ◌+ℤ◌, ◌-ℤ◌, Bool, List, [], ◌∷◌, ◌++◌, ◌==◌, if◌then◌else◌,
  Bool-cases, inl, inr, int_laws, length,
}
use fivuza_backend.Result.{ok, >>=-eq-ok, ok-injective}
use fivuza_backend.Model.{Db}
use fivuza_backend.Model.Sales.{Customer, Method, SaleDetail, SalePayment}
use fivuza_backend.Inventory.Kardex.{adjust_stock-ok}
use fivuza_backend.Authorization.{Env}
use fivuza_backend.Credit.{register_credit_sale, register_balance_use}
use fivuza_backend.Sales.Lines.{SaleLine, PreparedLine, Cart, add_line, prepare_line, prepare_lines}
use fivuza_backend.Sales.Payments.{
  Payment, payments_total, payment_of, book, record_payment, record_payments,
}
use fivuza_backend.Sales.Create.{record_lines, detail_of, sold}

-- The sums of the rows of one sale.
abbrev pub details_total : ℕ → List SaleDetail → ℤ
details_total i [] = pos 0
details_total i (d ∷ ds) = (if d.sale == i then d.subtotal else pos 0) +ℤ details_total i ds

abbrev pub paid_in : ℕ → List SalePayment → ℤ
paid_in i [] = pos 0
paid_in i (p ∷ ps) = (if p.sale == i then p.amount else pos 0) +ℤ paid_in i ps

abbrev pub lines_total : List PreparedLine → ℤ
lines_total [] = pos 0
lines_total (p ∷ ps) = p.subtotal +ℤ lines_total ps

lines_total-append :
    (ps qs : List PreparedLine) → lines_total (ps ++ qs) ≡ lines_total ps +ℤ lines_total qs
lines_total-append [] qs = omega int_laws
lines_total-append (p ∷ ps) qs = rw (lines_total-append ps qs) (omega int_laws)

prepare_line-subtotal :
    (w : ℕ) (allow : Bool) (at_time : ℕ) (db : Db) (line : SaleLine) {p : PreparedLine} {s : ℤ}
    → prepare_line w allow at_time db line ≡ ok (p, s)
    → p.subtotal ≡ s -ℤ p.discount_amount
unfolding prepare_line
prepare_line-subtotal w allow at_time db line h =
    let (v, _, h₁) = >>=-eq-ok _ _ h in
    let (_, _, h₂) = >>=-eq-ok _ _ h₁ in
    let e = ok-injective h₂ in rw (← ap (λ r. r.0) e, ← ap (λ r. r.1) e) refl

add_line-balanced :
    (line : SaleLine) (p : PreparedLine) (s : ℤ) (cart : Cart)
    → p.subtotal ≡ s -ℤ p.discount_amount
    → cart.subtotal -ℤ cart.discount_total ≡ lines_total cart.prepared_lines
    → (add_line line p s cart).subtotal -ℤ (add_line line p s cart).discount_total
      ≡ lines_total (add_line line p s cart).prepared_lines
add_line-balanced line p s cart e h =
    rw (lines_total-append cart.prepared_lines (p ∷ []), ← h, e) (omega int_laws)

-- What the lines come to less their discounts is the sum of their subtotals.
pub prepare_lines-balanced :
    (w : ℕ) (allow : Bool) (at_time : ℕ) (db : Db) (lines : List SaleLine) (cart : Cart)
    {cart' : Cart}
    → cart.subtotal -ℤ cart.discount_total ≡ lines_total cart.prepared_lines
    → prepare_lines w allow at_time db lines cart ≡ ok cart'
    → cart'.subtotal -ℤ cart'.discount_total ≡ lines_total cart'.prepared_lines
unfolding prepare_lines
prepare_lines-balanced w allow at_time db [] cart e h = rw (← ok-injective h) e
prepare_lines-balanced w allow at_time db (line ∷ lines) cart e h =
    let ((p, s), e₁, h₁) = >>=-eq-ok _ _ h in
    prepare_lines-balanced w allow at_time db lines (add_line line p s cart)
      (add_line-balanced line p s cart (prepare_line-subtotal w allow at_time db line e₁) e) h₁

-- What the loop on the lines writes.
pub record_lines-rows :
    (user sale w : ℕ) (ps : List PreparedLine) (db : Db) {db' : Db}
    → record_lines user sale w ps db ≡ ok db'
    → (db'.payments ≡ db.payments)
      × (db'.sales ≡ db.sales)
      × ((i : ℕ)
          → details_total i db'.details
            ≡ (if sale == i then lines_total ps else pos 0) +ℤ details_total i db.details)
unfolding record_lines
record_lines-rows user sale w [] db h = rw (← ok-injective h) (
  refl,
  refl,
  λ i. elim (Bool-cases (sale == i)) [
    | inl e ↦ rw e (omega int_laws)
    | inr e ↦ rw e (omega int_laws)
  ],
)
record_lines-rows user sale w (p ∷ ps) db h =
    let db₀ : Db = record db {
      details = detail_of (suc (length db.details)) sale p ∷ db.details;
    } in
    let ((m, db₁), e₁, h₁) = >>=-eq-ok _ _ h in
    let (_, _, e) = adjust_stock-ok (sold user w p) db₀ e₁ in
    let (a, b, c) = record_lines-rows user sale w ps db₁ h₁ in
    (
      a ∙ ap (λ d. d.payments) e,
      b ∙ ap (λ d. d.sales) e,
      λ i.
          c i
          ∙ ap
              (λ (d : Db).
                (if sale == i then lines_total ps else pos 0) +ℤ details_total i d.details)
              e
          ∙ elim (Bool-cases (sale == i)) [
            | inl k ↦ rw k (omega int_laws)
            | inr k ↦ rw k (omega int_laws)
          ],
    )

-- The customer's books change nothing else.
book-rows :
    (m : Method) (c : Customer) (sale : ℕ) (x : ℤ) (db : Db) {db' : Db}
    → book m c sale x db ≡ ok db'
    → (db'.payments ≡ db.payments)
      × (db'.details ≡ db.details)
      × (db'.sales ≡ db.sales)
      × (db'.stocks ≡ db.stocks)
      × (db'.movements ≡ db.movements)
unfolding register_credit_sale register_balance_use
book-rows Method.cash c sale x db h = rw (← ok-injective h) (refl, refl, refl, refl, refl)
book-rows Method.card c sale x db h = rw (← ok-injective h) (refl, refl, refl, refl, refl)
book-rows Method.yape c sale x db h = rw (← ok-injective h) (refl, refl, refl, refl, refl)
book-rows Method.credit_ledger c sale x db h =
    let (_, _, h₁) = >>=-eq-ok _ _ h in
    let (_, _, h₂) = >>=-eq-ok _ _ h₁ in rw (← ok-injective h₂) (refl, refl, refl, refl, refl)
book-rows Method.balance c sale x db h =
    let (_, _, h₁) = >>=-eq-ok _ _ h in
    let (_, _, h₂) = >>=-eq-ok _ _ h₁ in rw (← ok-injective h₂) (refl, refl, refl, refl, refl)

-- What the loop on the payments writes.
pub record_payments-rows :
    (env : Env) (c : Customer) (sale at_time : ℕ) (ps : List Payment) (db : Db) {n : ℕ} {db' : Db}
    → record_payments env c sale at_time ps db ≡ ok (n, db')
    → (db'.details ≡ db.details)
      × (db'.sales ≡ db.sales)
      × (db'.stocks ≡ db.stocks)
      × (db'.movements ≡ db.movements)
      × ((i : ℕ)
          → paid_in i db'.payments
            ≡ (if sale == i then payments_total ps else pos 0) +ℤ paid_in i db.payments)
unfolding record_payments record_payment
record_payments-rows env c sale at_time [] db h =
    let e = ap (λ r. r.1) (ok-injective h) in
    rw (← e) (
      refl,
      refl,
      refl,
      refl,
      λ i. elim (Bool-cases (sale == i)) [
        | inl k ↦ rw k (omega int_laws)
        | inr k ↦ rw k (omega int_laws)
      ],
    )
record_payments-rows env c sale at_time (p ∷ ps) db h =
    let db₀ : Db = record db { payments = payment_of env sale p ∷ db.payments } in
    let (db₁, e₁, h₁) = >>=-eq-ok _ _ h in
    let ((n₂, db₂), e₂, h₂) = >>=-eq-ok _ _ h₁ in
    let (x, y, z, u, v) = book-rows p.method c sale p.amount db₀ e₁ in
    let (a, b, f, g, t) = record_payments-rows env c sale at_time ps db₁ e₂ in
    rw (← ap (λ r. r.1) (ok-injective h₂)) (
      a ∙ y,
      b ∙ z,
      f ∙ u,
      g ∙ v,
      λ i.
          t i
          ∙ ap (λ rows. (if sale == i then payments_total ps else pos 0) +ℤ paid_in i rows) x
          ∙ elim (Bool-cases (sale == i)) [
            | inl k ↦ rw k (omega int_laws)
            | inr k ↦ rw k (omega int_laws)
          ],
    )
