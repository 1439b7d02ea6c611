-- ===== src/Sales/Voided.antt =====
-- A voided sale: who may void it, and that its stock, its debt and its balance are given back.
use fivuza_backend.Prelude.{
  ℕ, ◌≡◌, refl, sym, ap, ℤ, pos, ltb_ℤ, Bool, true, false, Option, none, some, List, if◌then◌else◌,
  inl, inr, any, update_where, true_of-not, ◌⊎◌, first,
}
use fivuza_backend.Result.{ok, ◌>>=◌, >>=-eq-ok, raise_if-ok, ok-injective}
use fivuza_backend.Model.{Db}
use fivuza_backend.Model.Users.{Code, User, SupervisorAuthorization, AuditLog}
use fivuza_backend.Model.Sales.{CashSession, outflow, devolucion, Method, Sale}
use fivuza_backend.Permissions.{check_permission}
use fivuza_backend.Authorization.{Env, require, consume, spent_for, has_hash}
use fivuza_backend.Authorization.Tokens.{consume_sound, IsGood}
use fivuza_backend.Cash.{add_movement}
use fivuza_backend.Credit.{has_sale_id}
use fivuza_backend.Sales.Void.{
  is_completed, is_return_of, session_of, is_shut, restock_all, paid_by, refund_cash,
  reversed_credit, reversed_balance, voided_sale, void_sale,
}

-- Who voids has the permission, or a supervisor's token for this sale.
abbrev pub MayVoid : Env → User → Option ℕ → Sale → Db → Type 0
MayVoid env user raw s db =
    (check_permission user Code.sales_void db ≡ true)
    ⊎ ((token : ℕ) × (b : SupervisorAuthorization) × (raw ≡ some token)
        × (first (has_hash (env.hash token)) db.authorizations ≡ some b)
        × IsGood env user Code.sales_void (some s.id) none b)

required_by :
    (b : Bool) (env : Env) (raw : Option ℕ) (user : User) (s : Sale) (db : Db)
    {o : Option SupervisorAuthorization} {db' : Db}
    → (if b
        then ok (none, db)
        else (consume env raw user Code.sales_void (some s.id) none db >>= λ r. ok (spent_for r)))
      ≡ ok (o, db')
    → ((b ≡ true)
        ⊎ ((token : ℕ) × (a : SupervisorAuthorization) × (raw ≡ some token)
            × (first (has_hash (env.hash token)) db.authorizations ≡ some a)
            × IsGood env user Code.sales_void (some s.id) none a))
      × (db' ≡ record db { authorizations = db'.authorizations })
required_by true env raw user s db h = (inl refl, rw (← ap (λ r. r.1) (ok-injective h)) refl)
required_by false env raw user s db h =
    let ((a, db₁), e₁, h₁) = >>=-eq-ok _ _ h in
    let (token, b, given, stored, good, _, e) =
      consume_sound env raw user Code.sales_void (some s.id) none db e₁ in
    (inr (token, b, given, stored, good), rw (← ap (λ r. r.1) (ok-injective h₁)) (rw e refl))

require-MayVoid :
    (env : Env) (raw : Option ℕ) (user : User) (s : Sale) (db : Db)
    {o : Option SupervisorAuthorization} {db' : Db}
    → require env raw user Code.sales_void (some s.id) db ≡ ok (o, db')
    → MayVoid env user raw s db × (db' ≡ record db { authorizations = db'.authorizations })
unfolding require
require-MayVoid env raw user s db h = required_by _ env raw user s db h

refunded_by :
    (b : Bool) (t : CashSession) (user : ℕ) (x : ℤ) (db : Db) {db' : Db}
    → (if b then add_movement t outflow devolucion x user db else ok db) ≡ ok db'
    → db' ≡ record db { cash_movements = db'.cash_movements }
unfolding add_movement
refunded_by true t user x db h = let (_, _, h₁) = >>=-eq-ok _ _ h in rw (← ok-injective h₁) refl
refunded_by false t user x db h = rw (← ok-injective h) refl

refund_cash-rows :
    (o : Option CashSession) (user : ℕ) (x : ℤ) (db : Db) {db' : Db}
    → refund_cash o user x db ≡ ok db'
    → db' ≡ record db { cash_movements = db'.cash_movements }
refund_cash-rows none user x db h = rw (← ok-injective h) refl
refund_cash-rows (some t) user x db h = refunded_by (ltb_ℤ (pos 0) x) t user x db h

-- The steps of a void that was not refused.
pub record Voids (env : Env) (s : Sale) (user : User) (raw : Option ℕ) (db : Db) (s' : Sale)
    (db' : Db) : Type 0 where
  pub spent : Db
  pub shelved : Db
  pub refunded : Db
  pub log : List AuditLog
  pub granted : MayVoid env user raw s db
  pub spends : spent ≡ record db { authorizations = spent.authorizations }
  pub completed : is_completed s.status ≡ true
  pub unreturned : any (is_return_of s.id) spent.returns ≡ false
  pub unshut : is_shut (session_of s.cash_session spent.sessions) ≡ false
  pub shelves : restock_all user.id s.id s.warehouse spent.details spent ≡ ok shelved
  pub refunds : refunded ≡ record shelved { cash_movements = refunded.cash_movements }
  pub is_voided : s' ≡ voided_sale s
  pub credited : Db
  pub is_credited :
      credited
      ≡ reversed_credit s.customer.id s.id
          (paid_by Method.credit_ledger s.id refunded.payments)
          refunded
  pub balanced : Db
  pub is_balanced :
      balanced
      ≡ reversed_balance s.customer.id s.id (paid_by Method.balance s.id credited.payments) credited
  pub ends : db' ≡ record balanced {
    sales = update_where (has_sale_id s.id) voided_sale balanced.sales;
    audit_log = log;
  }

pub void_sale-Voids :
    (env : Env) (s : Sale) (user : User) (raw : Option ℕ) (db : Db) {s' : Sale} {db' : Db}
    → void_sale env s user raw db ≡ ok (s', db')
    → Voids env s user raw db s' db'
unfolding void_sale
void_sale-Voids env s user raw db h =
    let ((o, spent), e₁, h₁) = >>=-eq-ok _ _ h in
    let (_, e₂, h₂) = >>=-eq-ok _ _ h₁ in
    let (_, e₃, h₃) = >>=-eq-ok _ _ h₂ in
    let (_, e₄, h₄) = >>=-eq-ok _ _ h₃ in
    let (shelved, e₅, h₅) = >>=-eq-ok _ _ h₄ in
    let (refunded, e₆, h₆) = >>=-eq-ok _ _ h₅ in
    let (may, spends) = require-MayVoid env raw user s db e₁ in
    let e = ok-injective h₆ in
    record {
      spent = spent;
      shelved = shelved;
      refunded = refunded;
      log = _;
      granted = may;
      spends = spends;
      completed = true_of-not _ (raise_if-ok _ _ e₂);
      unreturned = raise_if-ok _ _ e₃;
      unshut = raise_if-ok _ _ e₄;
      shelves = e₅;
      refunds =
          refund_cash-rows (session_of s.cash_session spent.sessions) user.id
            (paid_by Method.cash s.id shelved.payments) shelved e₆;
      is_voided = sym (ap (λ x. x.0) e);
      credited = _;
      is_credited = refl;
      balanced = _;
      is_balanced = refl;
      ends = sym (ap (λ x. x.1) e);
    }
