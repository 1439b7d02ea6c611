-- ===== src/Authorization/Grant.antt =====
-- `SupervisorAuthorizationService.grant`: a supervisor types e-mail and password on the cashier's
-- device, and the cashier gets a token.
use fivuza_backend.Prelude.{
  ℕ, suc, ◌+◌, ℤ, Bool, not, ◌&&◌, Option, none, some, List, ◌∷◌, ◌==◌, leb, if◌then◌else◌, first,
  any, length, count_where,
}
use fivuza_backend.Model.{Db}
use fivuza_backend.Model.Users.{Code, code_eq, User, SupervisorAuthorization, Action}
use fivuza_backend.Inventory.{logged}
use fivuza_backend.Permissions.{check_permission}
use fivuza_backend.Authorization.{Env, is_targeted, has_hash}

-- A row of `User` with what signing in reads. The e-mail and the password are numbers.
pub record Account : Type 0 where
  pub user : User
  pub email : ℕ
  pub is_active : Bool
  pub password : ℕ

-- `LoginAttempt`: an e-mail that nobody has.
pub record LoginAttempt : Type 0 where
  pub email : ℕ
  pub created_at : ℕ

pub data Denial : Type 0 where
  invalid_credentials self_authorization_not_allowed supervisor_lacks_permission : Denial

-- What is left behind: a denial is logged too, and a token whose hash is taken raises.
pub data Outcome : Type 0 where
  granted : SupervisorAuthorization → Db → Outcome
  denied : Denial → List LoginAttempt → Db → Outcome
  collided : Outcome

-- What comes from outside: the start of the day of a time, whether a typed password is the one of
-- a stored hash, and the random token.
pub record Door : Type 0 where
  pub day_start : ℕ → ℕ
  pub check_password : ℕ → ℕ → Bool
  pub raw_token : ℕ

-- `AUTHORIZATION_TTL`, two minutes in seconds.
abbrev pub authorization_ttl : ℕ
authorization_ttl = 120

abbrev pub is_account : ℕ → Account → Bool
is_account email a = (a.email == email) && a.is_active

abbrev pub is_since : ℕ → LoginAttempt → Bool
is_since t l = leb t l.created_at

-- At most 5000 rows a day.
unfoldable pub record_unknown_email : Env → Door → ℕ → List LoginAttempt → List LoginAttempt
record_unknown_email env door email attempts =
    if leb 5000 (count_where (is_since (door.day_start env.now)) attempts)
    then attempts
    else record { email = email; created_at = env.now } ∷ attempts

abbrev pub deny : Denial → User → User → List LoginAttempt → Db → Outcome
deny reason requested_by supervisor attempts db = denied reason attempts (record db {
  audit_log =
      logged requested_by.id Action.supervisor_authorization_failed supervisor.id db.audit_log;
})

abbrev pub target_for : Code → Option ℕ → Option ℕ
target_for permission target = if is_targeted permission then target else none

abbrev pub percent_for : Code → Option ℤ → Option ℤ
percent_for permission percent = if code_eq permission Code.sales_discount then percent else none

-- `SupervisorAuthorization.objects.create(…)`
abbrev pub token_of :
    Env → Door → User → User → Code → Option ℕ → Option ℤ → ℕ → SupervisorAuthorization
token_of env door requested_by supervisor permission target percent i = record {
  id = i;
  token_hash = env.hash door.raw_token;
  permission = permission;
  requested_by = requested_by.id;
  authorized_by = supervisor.id;
  target_id = target_for permission target;
  discount_percent = percent_for permission percent;
  expires_at = env.now + authorization_ttl;
  used_at = none;
}

abbrev pub with_token : User → SupervisorAuthorization → Db → Db
with_token supervisor a db = record db {
  authorizations = a ∷ db.authorizations;
  audit_log = logged supervisor.id Action.supervisor_authorization_granted a.id db.audit_log;
}

unfoldable pub grant_by :
    Env
    → Door
    → User
    → Option Account
    → ℕ
    → ℕ
    → Code
    → Option ℕ
    → Option ℤ
    → List LoginAttempt
    → Db
    → Outcome
grant_by env door requested_by none email typed permission target percent attempts db =
    denied invalid_credentials (record_unknown_email env door email attempts) db
grant_by env door requested_by (some s) email typed permission target percent attempts db =
    let a =
      token_of env door requested_by s.user permission target percent
        (suc (length db.authorizations)) in
    if not (door.check_password typed s.password)
    then deny invalid_credentials requested_by s.user attempts db
    else if s.user.id == requested_by.id
    then deny self_authorization_not_allowed requested_by s.user attempts db
    else if not (check_permission s.user permission db)
    then deny supervisor_lacks_permission requested_by s.user attempts db
    else if any (has_hash a.token_hash) db.authorizations
    then collided
    else granted a (with_token s.user a db)

unfoldable pub grant :
    Env
    → Door
    → List Account
    → User
    → ℕ
    → ℕ
    → Code
    → Option ℕ
    → Option ℤ
    → List LoginAttempt
    → Db
    → Outcome
grant env door accounts requested_by email typed permission target percent attempts db =
    grant_by env door requested_by (first (is_account email) accounts) email typed permission target
      percent attempts db
