-- ===== src/Sales/Outcome.antt =====
-- A sale that was not refused, taken apart into the steps of the handler.
use fivuza_backend.Prelude.{
  ℕ, suc, ◌≡◌, sym, ap, ℤ, ◌-ℤ◌, eqb_ℤ, true, false, List, ◌∷◌, ◌==◌, any, length, int_laws,
  true_of-not,
}
use fivuza_backend.Result.{ok, >>=-eq-ok, raise_if-ok, ok-injective}
use fivuza_backend.Model.{Db}
use fivuza_backend.Model.Users.{AuditLog}
use fivuza_backend.Model.Sales.{Sale}
use fivuza_backend.Authorization.{Env}
use fivuza_backend.Cash.{is_open, owner_id, assert_can_sell}
use fivuza_backend.Sales.Lines.{Cart, empty_cart, prepare_lines}
use fivuza_backend.Sales.Payments.{payments_total, check_payments, record_payments}
use fivuza_backend.Sales.Create.{
  SaleRequest, given_or, authorize_discount, has_uuid, sale_of, record_lines, create_sale,
  write_sale,
}

eq_of-eqb_ℤ : (a b : ℤ) → eqb_ℤ a b ≡ true → a ≡ b
eq_of-eqb_ℤ a b h = grind int_laws

-- What was written for a cart, step by step.
pub record Written (env : Env) (r : SaleRequest) (cart : Cart) (db : Db) (sale : Sale)
    (warnings : ℕ) (db' : Db) : Type 0 where
  pub spent : Db
  pub delivered : Db
  pub rest : Db
  pub log : List AuditLog
  pub authorized : authorize_discount env r cart.manual_discount_percent db ≡ ok spent
  pub unseen : any (has_uuid (given_or r.client_side_uuid env.fresh)) spent.sales ≡ false
  pub is_sale : sale ≡ sale_of env r cart (suc (length spent.sales))
  pub lines_done :
      record_lines r.user.id
        (suc (length spent.sales))
        r.cash_session.cash_register.warehouse
        cart.prepared_lines
        (record spent { sales = sale_of env r cart (suc (length spent.sales)) ∷ spent.sales })
      ≡ ok delivered
  pub counted : ℕ
  pub payments_done :
      record_payments env r.customer
        (suc (length spent.sales))
        (given_or r.at_time env.now)
        r.payments
        delivered
      ≡ ok (counted, rest)
  pub ends : db' ≡ record rest { audit_log = log }

-- The cart that the lines made, which was paid.
pub record Accepted (env : Env) (r : SaleRequest) (db : Db) (cart : Cart) : Type 0 where
  pub opened : is_open r.cash_session.status ≡ true
  pub owned : (owner_id r.cash_session == r.user.id) ≡ true
  pub prepared :
      prepare_lines r.cash_session.cash_register.warehouse r.allow_oversell
        (given_or r.at_time env.now)
        db
        r.lines
        empty_cart
      ≡ ok cart
  pub matched : payments_total r.payments ≡ cart.subtotal -ℤ cart.discount_total
  pub checked : check_payments env r.payments ≡ ok tt

pub write_sale-Written :
    (env : Env) (r : SaleRequest) (cart : Cart) (db : Db) {sale : Sale} {n : ℕ} {db' : Db}
    → write_sale env r cart db ≡ ok (sale, n, db')
    → Written env r cart db sale n db'
unfolding write_sale
write_sale-Written env r cart db h =
    let (spent, e₆, h₆) = >>=-eq-ok _ _ h in
    let (_, e₇, h₇) = >>=-eq-ok _ _ h₆ in
    let (delivered, e₈, h₈) = >>=-eq-ok _ _ h₇ in
    let ((n', rest), e₉, h₉) = >>=-eq-ok _ _ h₈ in
    let e = ok-injective h₉ in
    record {
      spent = spent;
      delivered = delivered;
      rest = rest;
      log = _;
      authorized = e₆;
      unseen = raise_if-ok _ _ e₇;
      is_sale = sym (ap (λ x. x.0) e);
      lines_done = e₈;
      counted = n';
      payments_done = e₉;
      ends = sym (ap (λ x. x.2) e);
    }

pub create_sale-Accepted :
    (env : Env) (r : SaleRequest) (db : Db) {sale : Sale} {n : ℕ} {db' : Db}
    → create_sale env r db ≡ ok (sale, n, db')
    → (cart : Cart) × Accepted env r db cart × Written env r cart db sale n db'
unfolding create_sale assert_can_sell
create_sale-Accepted env r db h =
    let (_, e₁, h₁) = >>=-eq-ok _ _ h in
    let (_, e₂, h₂) = >>=-eq-ok _ _ h₁ in
    let (cart, e₃, h₃) = >>=-eq-ok _ _ h₂ in
    let (_, e₄, h₄) = >>=-eq-ok _ _ h₃ in
    let (_, e₅, h₅) = >>=-eq-ok _ _ h₄ in
    (
      cart,
      record {
        opened = true_of-not _ (raise_if-ok _ _ e₁);
        owned = true_of-not _ (raise_if-ok _ _ e₂);
        prepared = e₃;
        matched = eq_of-eqb_ℤ _ _ (true_of-not _ (raise_if-ok _ _ e₄));
        checked = e₅;
      },
      write_sale-Written env r cart db h₅,
    )
