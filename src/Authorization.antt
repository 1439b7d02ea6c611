-- ===== src/Authorization.antt =====
-- usuarios/authorization.py, SupervisorAuthorizationService: a token that a supervisor gave for one
-- operation of one cashier is spent at most once.
mod Tests
mod GrantTests
pub mod Tokens
pub mod Grant
pub mod Granted
use fivuza_backend.Prelude.{
  ℕ, ℤ, ltb_ℤ, Bool, true, false, not, ◌&&◌, ◌||◌, Option, none, some, List, ◌==◌, leb,
  if◌then◌else◌, first, update_where, is_some,
}
use fivuza_backend.Result.{
  Result, ok, err, ◌>>=◌, ◌>>◌, raise_if, supervisor_authorization_required,
  supervisor_authorization_invalid,
}
use fivuza_backend.Model.{Db}
use fivuza_backend.Model.Users.{Code, code_eq, User, SupervisorAuthorization}
use fivuza_backend.Permissions.{check_permission}

-- What a service takes from outside the tables: the clock, the hash of a token, the local day of a
-- time, the characters that are digits, and a fresh identifier.
pub record Env : Type 0 where
  pub now : ℕ
  pub hash : ℕ → ℕ
  pub local_day : ℕ → ℕ
  pub is_digit : ℕ → Bool
  pub fresh : ℕ

abbrev pub opt_eq : Option ℕ → Option ℕ → Bool
opt_eq none none = true
opt_eq (some a) (some b) = a == b
opt_eq _ _ = false

-- `_TARGETED_PERMISSIONS`
abbrev pub is_targeted : Code → Bool
is_targeted Code.sales_void = true
is_targeted Code.sales_return = true
is_targeted Code.sales_cash_refund = true
is_targeted _ = false

abbrev pub has_hash : ℕ → SupervisorAuthorization → Bool
has_hash h a = a.token_hash == h

abbrev pub has_authorization_id : ℕ → SupervisorAuthorization → Bool
has_authorization_id i a = a.id == i

-- The conditions of the first refusal, but for the missing row.
abbrev pub is_unusable : Env → User → Code → SupervisorAuthorization → Bool
is_unusable env user permission a =
    is_some a.used_at
    || leb a.expires_at env.now
    || not (a.requested_by == user.id)
    || not (code_eq a.permission permission)

-- `discount_percent is None or authorization.discount_percent is None or discount_percent > …`
abbrev pub beyond : Option ℤ → Option ℤ → Bool
beyond (some asked) (some granted) = ltb_ℤ granted asked
beyond _ _ = true

abbrev pub found_token : Option SupervisorAuthorization → Result SupervisorAuthorization
found_token (some a) = ok a
found_token none = err supervisor_authorization_invalid

abbrev pub given_token : Option ℕ → Result ℕ
given_token (some t) = ok t
given_token none = err supervisor_authorization_required

-- `authorization.used_at = timezone.now(); authorization.save(…)`
abbrev pub spend : ℕ → SupervisorAuthorization → SupervisorAuthorization
spend now a = record a { used_at = some now }

unfoldable pub consume :
    Env → Option ℕ → User → Code → Option ℕ → Option ℤ → Db → Result (SupervisorAuthorization × Db)
consume env raw_token user permission target percent db = do
  token ← given_token raw_token
  a ← found_token (first (has_hash (env.hash token)) db.authorizations)
  raise_if (is_unusable env user permission a) supervisor_authorization_invalid
  raise_if (is_targeted permission && not (opt_eq a.target_id target))
      supervisor_authorization_invalid
  raise_if (code_eq permission Code.sales_discount && beyond percent a.discount_percent)
      supervisor_authorization_invalid
  ok (
    spend env.now a,
    record db {
      authorizations = update_where (has_authorization_id a.id) (spend env.now) db.authorizations;
    },
  )

abbrev pub spent_for : SupervisorAuthorization × Db → Option SupervisorAuthorization × Db
spent_for (a, db) = (some a, db)

-- `require`: nothing to spend for who has the permission.
unfoldable pub require :
    Env → Option ℕ → User → Code → Option ℕ → Db → Result (Option SupervisorAuthorization × Db)
require env raw_token user permission target db =
    if check_permission user permission db
    then ok (none, db)
    else (consume env raw_token user permission target none db >>= λ r. ok (spent_for r))
