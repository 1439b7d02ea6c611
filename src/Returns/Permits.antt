-- ===== src/Returns/Permits.antt =====
-- One token does not stand in for two permissions.
use fivuza_backend.Prelude.{
  ℕ, ◌≡◌, refl, sym, ap, ◌∙◌, Bool, true, false, Option, none, some, List, if◌then◌else◌, inl, inr,
  ◌⊎◌, Option-cases,
}
use fivuza_backend.Result.{Result, Error, ok, err, ◌>>=◌, >>=-eq-ok, ok-injective}
use fivuza_backend.Model.{Db}
use fivuza_backend.Model.Users.{Code, User, SupervisorAuthorization}
use fivuza_backend.Model.Sales.{CashSession, Sale, SaleReturn, RefundType, to_balance, in_cash}
use fivuza_backend.Permissions.{
  check_permission, get_permission_codes, resolve_codes, found, contains,
}
use fivuza_backend.Authorization.{Env, consume, require, spent_for}
use fivuza_backend.Authorization.Tokens.{consume_once, consume_sound}
use fivuza_backend.Returns.{ReturnItem, refund_of, authorize_refund, create_return}

err_not_ok : {A : Type 0} {e : Error} {a : A} → err e ≡ ok a → ⊥
err_not_ok h = cc

-- Who was let through has the permission, or spent the token.
spent_by :
    (b : Bool) (call : Result (SupervisorAuthorization × Db)) (db : Db)
    {o : Option SupervisorAuthorization} {db' : Db}
    → (if b then ok (none, db) else (call >>= λ r. ok (spent_for r))) ≡ ok (o, db')
    → ((b ≡ true) × (db' ≡ db)) ⊎ ((a : SupervisorAuthorization) × (call ≡ ok (a, db')))
spent_by true call db h = inl (refl, sym (ap (λ r. r.1) (ok-injective h)))
spent_by false call db h =
    let ((a, db₁), e, h₁) = >>=-eq-ok _ _ h in
    inr (a, e ∙ ap (λ d. ok (a, d)) (ap (λ r. r.1) (ok-injective h₁)))

pub require-spends :
    (env : Env) (raw : Option ℕ) (user : User) (c : Code) (target : Option ℕ) (db : Db)
    {o : Option SupervisorAuthorization} {db' : Db}
    → require env raw user c target db ≡ ok (o, db')
    → ((check_permission user c db ≡ true) × (db' ≡ db))
      ⊎ ((a : SupervisorAuthorization) × (consume env raw user c target none db ≡ ok (a, db')))
unfolding require
require-spends env raw user c target db h = spent_by _ _ db h

-- Spending a token changes nobody's permissions.
own_codes :
    (user : User) (db : Db)
    → (get_permission_codes user db).0 ≡ found (db.permission_cache user.id) (resolve_codes user db)
unfolding get_permission_codes
own_codes user db = elim (Option-cases (db.permission_cache user.id)) [
  | inl e ↦ rw (e, get_permission_codes) refl
  | inr (codes, e) ↦ rw (e, get_permission_codes) refl
]

resolve_codes-tokens :
    (user : User) (db : Db) (tokens : List SupervisorAuthorization)
    → resolve_codes user (record db { authorizations = tokens }) ≡ resolve_codes user db
unfolding resolve_codes
resolve_codes-tokens user db tokens = refl

check_permission-tokens :
    (user : User) (c : Code) (db : Db) (tokens : List SupervisorAuthorization)
    → check_permission user c (record db { authorizations = tokens }) ≡ check_permission user c db
unfolding check_permission
check_permission-tokens user c db tokens = ap (contains c) (
    own_codes user (record db { authorizations = tokens })
    ∙ ap (found (db.permission_cache user.id)) (resolve_codes-tokens user db tokens)
    ∙ sym (own_codes user db))

-- A cash refund of who let the return through with the token needs the permission for it.
cash_authorized :
    (env : Env) (s : Sale) (type : RefundType) (user : User) (session : Option CashSession)
    (raw : Option ℕ) (db : Db) {a : SupervisorAuthorization} {db₁ db₂ : Db}
    → type ≡ in_cash
    → consume env raw user Code.sales_return (some s.id) none db ≡ ok (a, db₁)
    → authorize_refund env s type user session raw db₁ ≡ ok db₂
    → check_permission user Code.sales_cash_refund db₁ ≡ true
unfolding authorize_refund
cash_authorized env s to_balance user session raw db e c h = absurd (cc)
cash_authorized env s in_cash user session raw db {a} {db₁} e c h =
    let (_, _, h₁) = >>=-eq-ok _ _ h in
    let ((o, db₃), e₂, _) = >>=-eq-ok _ _ h₁ in
    let refused =
      consume_once env env raw user user Code.sales_return Code.sales_cash_refund (some s.id)
        (some s.id) none none db refl c in
    elim (require-spends env raw user Code.sales_cash_refund (some s.id) db₁ e₂) [
      | inl (own, _) ↦ own
      | inr (b, spent) ↦ absurd (err_not_ok (sym refused ∙ spent))
    ]

-- A return that is not refused and is paid in cash was asked for by someone who may return sales or
-- may refund cash: a supervisor's token stands in for one of the two permissions only.
pub create_return_permits :
    (env : Env) (s : Sale) (items : List ReturnItem) (type : Option RefundType) (user : User)
    (session : Option CashSession) (raw : Option ℕ) (db : Db) {r : SaleReturn} {db' : Db}
    → refund_of s type db ≡ in_cash
    → create_return env s items type user session raw db ≡ ok (r, db')
    → (check_permission user Code.sales_return db ≡ true)
      ⊎ (check_permission user Code.sales_cash_refund db ≡ true)
unfolding create_return
create_return_permits env s items type user session raw db cash h =
    let ((o, db₁), e₁, h₁) = >>=-eq-ok _ _ h in
    let (_, _, h₂) = >>=-eq-ok _ _ h₁ in
    let (db₂, e₂, _) = >>=-eq-ok _ _ h₂ in
    elim (require-spends env raw user Code.sales_return (some s.id) db e₁) [
      | inl (own, _) ↦ inl own
      | inr (a, spent) ↦
          let (token, b, _, _, _, _, e) =
            consume_sound env raw user Code.sales_return (some s.id) none db spent in
          let paid : refund_of s type db₁ ≡ in_cash = ap (λ x. refund_of s type x) e ∙ cash in
          inr (
            sym (
              ap (λ x. check_permission user Code.sales_cash_refund x) e
              ∙ check_permission-tokens user Code.sales_cash_refund db _)
            ∙ cash_authorized env s (refund_of s type db₁) user session raw db paid spent e₂)
    ]
