-- ===== src/Sales/Stocks.antt =====
-- The stock after a sale.
use fivuza_backend.Prelude.{
  ℕ, suc, ◌≡◌, refl, ap, ◌∙◌, ℤ, pos, ◌-ℤ◌, ◌≤ℤ◌, ltb_ℤ, Bool, true, false, ◌&&◌, List, [], ◌∷◌,
  ◌==◌, Bool-cases, inl, inr, arith, int_laws, length, All, All-append,
}
use fivuza_backend.Result.{ok, >>=-eq-ok, raise_if-ok, ok-injective}
use fivuza_backend.Model.{Db}
use fivuza_backend.Model.Sales.{Sale}
use fivuza_backend.Inventory.{quantity_in}
use fivuza_backend.Inventory.Kardex.{IsLedger, IsLedger-same, adjust_stock-IsLedger}
use fivuza_backend.Authorization.{Env}
use fivuza_backend.Sales.Lines.{
  SaleLine, PreparedLine, Cart, empty_cart, add_line, prepare_line, prepare_lines,
}
use fivuza_backend.Sales.Create.{
  SaleRequest, record_lines, detail_of, sold, create_sale, sale_of, given_or,
}
use fivuza_backend.Sales.Outcome.{create_sale-Accepted}
use fivuza_backend.Sales.Discounts.{authorize_discount-ok}
use fivuza_backend.Sales.Rows.{record_payments-rows}

-- No stock is below zero.
abbrev pub InStock : Db → Type 0
InStock db = (v w : ℕ) → pos 0 ≤ℤ quantity_in db.stocks v w

-- A line that leaves a stock that is not below zero.
abbrev pub Leaves : PreparedLine → Type 0
Leaves p = pos 0 ≤ℤ (p.current_quantity -ℤ p.quantity)

-- The loop keeps the Kardex, and keeps the stocks above zero if each line does.
record_lines-IsLedger :
    (user sale w : ℕ) (ps : List PreparedLine) (db : Db) {db' : Db}
    → IsLedger db
    → record_lines user sale w ps db ≡ ok db'
    → IsLedger db' × (All Leaves ps → InStock db → InStock db')
unfolding record_lines
record_lines-IsLedger user sale w [] db l h = rw (← ok-injective h) (l, λ _ s. s)
record_lines-IsLedger user sale w (p ∷ ps) db l h =
    let db₀ : Db = record db {
      details = detail_of (suc (length db.details)) sale p ∷ db.details;
    } in
    let ((m, db₁), e₁, h₁) = >>=-eq-ok _ _ h in
    let (l₁, now) =
      adjust_stock-IsLedger (sold user w p) db₀ (IsLedger-same db db₀ refl refl l) e₁ in
    let (l₂, stays) = record_lines-IsLedger user sale w ps db₁ l₁ h₁ in
    (
      l₂,
      λ leaves s. stays leaves.1 (λ v k.
          rw (now v k) (elim (Bool-cases ((p.variant.id == v) && (w == k))) [
            | inl b ↦ rw b leaves.0
            | inr b ↦ rw b (s v k)
          ])),
    )

covers_line : (a b : ℤ) → (ltb_ℤ a b && true) ≡ false → pos 0 ≤ℤ (a -ℤ b)
covers_line a b h = elim (Bool-cases (ltb_ℤ a b)) [
  | inl e ↦ absurd (ground (arith, e, h))
  | inr e ↦ let le : b ≤ℤ a = ground arith in omega (int_laws, le)
]

prepare_line-Leaves :
    (w : ℕ) (at_time : ℕ) (db : Db) (line : SaleLine) {p : PreparedLine} {s : ℤ}
    → prepare_line w false at_time db line ≡ ok (p, s)
    → Leaves p
unfolding prepare_line
prepare_line-Leaves w at_time db line h =
    let (v, _, h₁) = >>=-eq-ok _ _ h in
    let (_, e, h₂) = >>=-eq-ok _ _ h₁ in
    let covered = raise_if-ok _ _ e in
    rw (← ap (λ r. r.0) (ok-injective h₂)) (covers_line (quantity_in db.stocks v.id w) _ covered)

prepare_lines-Leaves :
    (w : ℕ) (at_time : ℕ) (db : Db) (lines : List SaleLine) (cart : Cart) {cart' : Cart}
    → All Leaves cart.prepared_lines
    → prepare_lines w false at_time db lines cart ≡ ok cart'
    → All Leaves cart'.prepared_lines
unfolding prepare_lines
prepare_lines-Leaves w at_time db [] cart l h = rw (← ok-injective h) l
prepare_lines-Leaves w at_time db (line ∷ lines) cart l h =
    let ((p, s), e₁, h₁) = >>=-eq-ok _ _ h in
    prepare_lines-Leaves w at_time db lines (add_line line p s cart)
      (All-append Leaves cart.prepared_lines (p ∷ []) l
        (prepare_line-Leaves w at_time db line e₁, tt))
      h₁

strict_lines :
    (w : ℕ) (allow : Bool) (at_time : ℕ) (db : Db) (lines : List SaleLine) {cart : Cart}
    → allow ≡ false
    → prepare_lines w allow at_time db lines empty_cart ≡ ok cart
    → All Leaves cart.prepared_lines
strict_lines w allow at_time db lines strict h =
    prepare_lines-Leaves w at_time db lines empty_cart tt (rw strict at h)

InStock-same : (db db' : Db) → db'.stocks ≡ db.stocks → InStock db → InStock db'
InStock-same db db' e s = λ v w. rw e (s v w)

-- A sale that is not refused keeps the Kardex: each stock is the sum of its lines. If it may not
-- oversell and no stock was below zero, then no stock is below zero after it.
pub create_sale-IsLedger :
    (env : Env) (r : SaleRequest) (db : Db) {sale : Sale} {n : ℕ} {db' : Db}
    → IsLedger db
    → create_sale env r db ≡ ok (sale, n, db')
    → IsLedger db' × (r.allow_oversell ≡ false → InStock db → InStock db')
create_sale-IsLedger env r db {sale} {n} {db'} l h =
    let (cart, a, w) = create_sale-Accepted env r db h in
    let (_, e) = authorize_discount-ok env r cart.manual_discount_percent db w.authorized in
    let k = suc (length w.spent.sales) in
    let db₁ : Db = record w.spent { sales = sale_of env r cart k ∷ w.spent.sales } in
    let (l₂, stays) =
      record_lines-IsLedger r.user.id k r.cash_session.cash_register.warehouse cart.prepared_lines
        db₁ (IsLedger-same db db₁ (ap (λ x. x.stocks) e) (ap (λ x. x.movements) e) l)
        w.lines_done in
    let (_, _, stocks, movements, _) =
      record_payments-rows env r.customer k (given_or r.at_time env.now) r.payments w.delivered
        w.payments_done in
    let stocks' : db'.stocks ≡ w.delivered.stocks = ap (λ x. x.stocks) w.ends ∙ stocks in
    let movements' : db'.movements ≡ w.delivered.movements =
      ap (λ x. x.movements) w.ends ∙ movements in
    (
      IsLedger-same w.delivered db' stocks' movements' l₂,
      λ strict s. InStock-same w.delivered db' stocks' (
          stays
            (strict_lines r.cash_session.cash_register.warehouse r.allow_oversell
              (given_or r.at_time env.now) db r.lines strict a.prepared)
            (InStock-same db db₁ (ap (λ x. x.stocks) e) s)),
    )
