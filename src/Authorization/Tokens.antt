-- ===== src/Authorization/Tokens.antt =====
-- What a spent token was good for, and that it is spent once.
use fivuza_backend.Prelude.{
  ℕ, ◌≡◌, refl, ◌<◌, ℤ, true, false, not, ◌&&◌, Option, none, some, List, [], ◌∷◌, first,
  update_where, arith, ap, sym,
}
use fivuza_backend.Result.{
  ok, err, ◌>>=◌, >>=-eq-ok, raise_if-ok, ok-injective, supervisor_authorization_invalid,
}
use fivuza_backend.Model.{Db}
use fivuza_backend.Model.Users.{Code, code_eq, User, SupervisorAuthorization}
use fivuza_backend.Authorization.{
  Env, opt_eq, is_targeted, has_hash, has_authorization_id, is_unusable, beyond, found_token,
  given_token, spend, consume,
}

-- What makes a token good for a request.
pub record IsGood (env : Env) (user : User) (permission : Code) (target : Option ℕ)
    (percent : Option ℤ) (a : SupervisorAuthorization) : Type 0 where
  pub unused : a.used_at ≡ none
  pub in_time : env.now < a.expires_at
  pub own : a.requested_by ≡ user.id
  pub permits : code_eq a.permission permission ≡ true
  pub on_target : is_targeted permission ≡ true → opt_eq a.target_id target ≡ true
  pub within :
      code_eq permission Code.sales_discount ≡ true → beyond percent a.discount_percent ≡ false

usable-IsGood :
    (env : Env) (user : User) (permission : Code) (target : Option ℕ) (percent : Option ℤ)
    (a : SupervisorAuthorization)
    → is_unusable env user permission a ≡ false
    → (is_targeted permission && not (opt_eq a.target_id target)) ≡ false
    → (code_eq permission Code.sales_discount && beyond percent a.discount_percent) ≡ false
    → IsGood env user permission target percent a
usable-IsGood env user permission target percent a h₁ h₂ h₃ = record {
  unused = ground arith;
  in_time = ground arith;
  own = ground arith;
  permits = ground arith;
  on_target = ground arith;
  within = ground arith;
}

found_token-ok :
    (o : Option SupervisorAuthorization) {a : SupervisorAuthorization}
    → found_token o ≡ ok a
    → o ≡ some a
found_token-ok (some a) h = cc
found_token-ok none h = cc

given_token-ok : (o : Option ℕ) {t : ℕ} → given_token o ≡ ok t → o ≡ some t
given_token-ok (some a) h = cc
given_token-ok none h = cc

-- A consumed token is one of the table that was good for this request, and the table has it as used
-- now, whatever else stands there.
pub consume_sound :
    (env : Env) (raw : Option ℕ) (user : User) (permission : Code) (target : Option ℕ)
    (percent : Option ℤ) (db : Db) {a : SupervisorAuthorization} {db' : Db}
    → consume env raw user permission target percent db ≡ ok (a, db')
    → (token : ℕ) × (b : SupervisorAuthorization) × (raw ≡ some token)
      × (first (has_hash (env.hash token)) db.authorizations ≡ some b)
      × IsGood env user permission target percent b
      × (a ≡ spend env.now b)
      × (db' ≡ record db {
        authorizations = update_where (has_authorization_id b.id) (spend env.now) db.authorizations;
      })
unfolding consume
consume_sound env raw user permission target percent db h =
    let (token, e₁, h₁) = >>=-eq-ok _ _ h in
    let (b, e₂, h₂) = >>=-eq-ok _ _ h₁ in
    let (_, e₃, h₃) = >>=-eq-ok _ _ h₂ in
    let (_, e₄, h₄) = >>=-eq-ok _ _ h₃ in
    let (_, e₅, h₅) = >>=-eq-ok _ _ h₄ in
    (
      token,
      b,
      given_token-ok raw e₁,
      found_token-ok _ e₂,
      usable-IsGood env user permission target percent b (raise_if-ok _ _ e₃) (raise_if-ok _ _ e₄)
          (raise_if-ok _ _ e₅),
      ap (λ p. p.0) (sym (ok-injective h₅)),
      ap (λ p. p.1) (sym (ok-injective h₅)),
    )

first-spent :
    (h i now : ℕ) (b : SupervisorAuthorization) (table : List SupervisorAuthorization)
    → first (has_hash h) table ≡ some b
    → b.id ≡ i
    → first (has_hash h) (update_where (has_authorization_id i) (spend now) table)
      ≡ some (spend now b)
first-spent h i now b [] e s = cc
first-spent h i now b (a ∷ table) e s = ground (arith, first-spent h i now b table)

-- A token is spent once: after it was consumed, nobody can consume it again, for whatever operation
-- and at whatever time.
pub consume_once :
    (env env' : Env) (raw : Option ℕ) (user user' : User) (permission permission' : Code)
    (target target' : Option ℕ) (percent percent' : Option ℤ) (db : Db)
    {a : SupervisorAuthorization} {db' : Db}
    → env'.hash ≡ env.hash
    → consume env raw user permission target percent db ≡ ok (a, db')
    → consume env' raw user' permission' target' percent' db' ≡ err supervisor_authorization_invalid
unfolding consume ◌>>=◌
consume_once env env' raw user user' permission permission' target target' percent percent' db same
      h =
    let (token, b, e₁, e₂, _, _, e₃) = consume_sound env raw user permission target percent db h in
    let used = first-spent (env.hash token) b.id env.now b db.authorizations e₂ refl in
    rw (e₁, e₃, same, used)
