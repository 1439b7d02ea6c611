-- ===== src/Authorization/Granted.antt =====
-- Who gives a token, and that the cashier can spend it.
use fivuza_backend.Prelude.{
  ℕ, suc, ◌+◌, ◌<◌, ◌≡◌, refl, sym, ap, ◌∙◌, ℤ, Bool, true, false, not, ◌&&◌, Option, none, some,
  List, ◌==◌, if◌then◌else◌, first, length, is_some, arith, update_where, ==-self,
}
use fivuza_backend.Result.{ok, ◌>>=◌}
use fivuza_backend.Model.{Db}
use fivuza_backend.Model.Users.{Code, code_eq, User, SupervisorAuthorization}
use fivuza_backend.Permissions.{check_permission}
use fivuza_backend.Authorization.{
  Env, consume, is_targeted, is_unusable, beyond, opt_eq, spend, has_authorization_id,
}
use fivuza_backend.Authorization.Grant.{
  authorization_ttl, Account, LoginAttempt, Door, Outcome, granted, denied, collided, is_account,
  deny, invalid_credentials, self_authorization_not_allowed, supervisor_lacks_permission, token_of,
  with_token, grant_by, grant,
}

-- What the account that answered is, when a token was given.
abbrev pub Vouches :
    Env
    → Door
    → User
    → ℕ
    → Code
    → Option ℕ
    → Option ℤ
    → Db
    → Account
    → SupervisorAuthorization
    → Db
    → Type 0
Vouches env door requested_by typed permission target percent db s a db' =
    (door.check_password typed s.password ≡ true)
    × ((s.user.id == requested_by.id) ≡ false)
    × (check_permission s.user permission db ≡ true)
    × (a
        ≡ token_of env door requested_by s.user permission target percent
            (suc (length db.authorizations)))
    × (db' ≡ with_token s.user a db)

-- The parts of an outcome.
abbrev token_in : Outcome → SupervisorAuthorization → SupervisorAuthorization
token_in (granted a db) _ = a
token_in (denied _ _ _) t = t
token_in collided t = t

abbrev tables_in : Outcome → Db → Db
tables_in (granted a db) _ = db
tables_in (denied _ _ _) d = d
tables_in collided d = d

decided :
    (b₁ b₂ b₃ b₄ : Bool) (u v : User) (attempts : List LoginAttempt) (db : Db)
    (t : SupervisorAuthorization) {a : SupervisorAuthorization} {db' : Db}
    → (if not b₁
        then deny invalid_credentials u v attempts db
        else if b₂
        then deny self_authorization_not_allowed u v attempts db
        else if not b₃
        then deny supervisor_lacks_permission u v attempts db
        else if b₄
        then collided
        else granted t (with_token v t db))
      ≡ granted a db'
    → (b₁ ≡ true) × (b₂ ≡ false) × (b₃ ≡ true) × (a ≡ t) × (db' ≡ with_token v a db)
decided false b₂ b₃ b₄ u v attempts db t h = cc
decided true true b₃ b₄ u v attempts db t h = cc
decided true false false b₄ u v attempts db t h = cc
decided true false true true u v attempts db t h = cc
decided true false true false u v attempts db t h =
    let is = ap (λ o. token_in o t) (sym h) in
    (refl, refl, refl, is, ap (λ o. tables_in o db) (sym h) ∙ ap (λ x. with_token v x db) (sym is))

grant_by-Vouches :
    (env : Env) (door : Door) (requested_by : User) (o : Option Account) (email typed : ℕ)
    (permission : Code) (target : Option ℕ) (percent : Option ℤ) (attempts : List LoginAttempt)
    (db : Db) {a : SupervisorAuthorization} {db' : Db}
    → grant_by env door requested_by o email typed permission target percent attempts db
      ≡ granted a db'
    → (s : Account) × (o ≡ some s)
      × Vouches env door requested_by typed permission target percent db s a db'
unfolding grant_by
grant_by-Vouches env door requested_by none email typed permission target percent attempts db h = cc
grant_by-Vouches env door requested_by (some s) email typed permission target percent attempts db
      h =
    (s, refl, decided _ _ _ _ requested_by s.user attempts db _ h)

-- A new token passes each test of `consume`.
good_target :
    (b : Bool) (target : Option ℕ) → (b && not (opt_eq (if b then target else none) target)) ≡ false
good_target false target = refl
good_target true none = refl
good_target true (some t) = rw (==-self t) refl

good_percent :
    (b : Bool) (percent : Option ℤ)
    → (b ≡ true → is_some percent ≡ true)
    → (b && beyond percent (if b then percent else none)) ≡ false
good_percent false percent h = refl
good_percent true none h = absurd (let e = h refl in cc)
good_percent true (some p) h = ground arith

fresh_token :
    (env env' : Env) (door : Door) (user v : User) (permission : Code) (target : Option ℕ)
    (percent : Option ℤ) (i : ℕ)
    → env'.now < env.now + authorization_ttl
    → is_unusable env' user permission (token_of env door user v permission target percent i)
      ≡ false
fresh_token env env' door user v permission target percent i h = ground arith

spends_new :
    (env env' : Env) (door : Door) (user v : User) (permission : Code) (target : Option ℕ)
    (percent : Option ℤ) (db : Db) (i : ℕ)
    → env'.hash ≡ env.hash
    → env'.now < env.now + authorization_ttl
    → (code_eq permission Code.sales_discount ≡ true → is_some percent ≡ true)
    → (db₂ : Db) × (consume env'
          (some door.raw_token)
          user
          permission
          target
          percent
          (with_token v (token_of env door user v permission target percent i) db)
        ≡ ok (spend env'.now (token_of env door user v permission target percent i), db₂))
unfolding consume ◌>>=◌
spends_new env env' door user v permission target percent db i same soon asked =
    let a = token_of env door user v permission target percent i in
    let db₁ = with_token v a db in
    (
      record db₁ {
        authorizations =
            update_where (has_authorization_id a.id) (spend env'.now) db₁.authorizations;
      },
      rw
          (
            same,
            ==-self (env.hash door.raw_token),
            fresh_token env env' door user v permission target percent i soon,
            good_target (is_targeted permission) target,
            good_percent (code_eq permission Code.sales_discount) percent asked,
          )
          refl,
    )

-- A token is given only by an active account of the e-mail, with its password, that is not the
-- cashier's own and has the permission. Until it expires, the cashier can then spend it for what it
-- was given for, a discount with its percentage included.
pub grant_spendable :
    (env env' : Env) (door : Door) (accounts : List Account) (user : User) (email typed : ℕ)
    (permission : Code) (target : Option ℕ) (percent : Option ℤ) (attempts : List LoginAttempt)
    (db : Db) {a : SupervisorAuthorization} {db' : Db}
    → env'.hash ≡ env.hash
    → env'.now < env.now + authorization_ttl
    → (code_eq permission Code.sales_discount ≡ true → is_some percent ≡ true)
    → grant env door accounts user email typed permission target percent attempts db ≡ granted a db'
    → (s : Account) × (first (is_account email) accounts ≡ some s)
      × Vouches env door user typed permission target percent db s a db'
      × ((db₂ : Db) × (consume env' (some door.raw_token) user permission target percent db'
            ≡ ok (spend env'.now a, db₂)))
unfolding grant
grant_spendable env env' door accounts user email typed permission target percent attempts db same
      soon asked h =
    let (s, found, vouched) =
      grant_by-Vouches env door user (first (is_account email) accounts) email typed permission
        target percent attempts db h in
    let (_, _, _, is, now) = vouched in
    let i = suc (length db.authorizations) in
    let (db₂, spent) =
      spends_new env env' door user s.user permission target percent db i same soon asked in
    (s, found, vouched, (db₂, rw (now, is) spent))
