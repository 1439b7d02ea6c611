-- ===== src/Authorization/GrantTests.antt =====
-- A token that a supervisor gives, and denials.
use fivuza_backend.Prelude.{◌≡◌, refl, ◌==◌, true, none, some, [], ◌∷◌, first, arith}
use fivuza_backend.Result.{ok}
use fivuza_backend.Model.{Db}
use fivuza_backend.Model.Users.{Code, Action, SupervisorAuthorization}
use fivuza_backend.Permissions.{check_permission, get_permission_codes, resolve_codes, closure}
use fivuza_backend.Authorization.{consume, spend}
use fivuza_backend.Authorization.Grant.{
  Account, Door, granted, denied, invalid_credentials, is_account, token_of, with_token,
  record_unknown_email, grant_by, grant,
}
use fivuza_backend.Authorization.Granted.{Vouches, grant_spendable}
use fivuza_backend.Samples.{shop, cashier, supervisor, env}

abbrev office : Db
office = record shop {
  user_permissions = record { id = 1; user = 8; code = Code.sales_void; is_granted = true } ∷ [];
}

abbrev chief : Account
chief = record { user = supervisor; email = 80; is_active = true; password = 81 }

abbrev door : Door
door = record {
  day_start = λ t. 0;
  check_password = λ typed stored. typed == stored;
  raw_token = 77;
}

abbrev given : SupervisorAuthorization
given = token_of env door cashier supervisor Code.sales_void (some 1) none 2

handed_over :
    grant env door (chief ∷ []) cashier 80 81 Code.sales_void (some 1) none [] office
    ≡ granted given (with_token supervisor given office)
unfolding grant grant_by check_permission get_permission_codes resolve_codes closure
handed_over = refl

wrong_password :
    grant env door (chief ∷ []) cashier 80 82 Code.sales_void (some 1) none [] office
    ≡ denied invalid_credentials [] (record office {
      audit_log =
          record { user = 7; action = Action.supervisor_authorization_failed; entity_id = 8 } ∷ [];
    })
unfolding grant grant_by
wrong_password = refl

unknown :
    grant env door (chief ∷ []) cashier 70 81 Code.sales_void (some 1) none [] office
    ≡ denied invalid_credentials (record { email = 70; created_at = 1000 } ∷ []) office
unfolding grant grant_by record_unknown_email
unknown = refl

grant_spendable_example :
    (s : Account) × (first (is_account 80) (chief ∷ []) ≡ some s)
    × Vouches env door cashier 81 Code.sales_void
        (some 1)
        none
        office
        s
        given
        (with_token supervisor given office)
    × ((db₂ : Db) × (consume env
            (some 77)
            cashier
            Code.sales_void
            (some 1)
            none
            (with_token supervisor given office)
          ≡ ok (spend 1000 given, db₂)))
grant_spendable_example =
    grant_spendable env env door (chief ∷ []) cashier 80 81 Code.sales_void (some 1) none [] office
      refl (omega arith) (λ e. absurd (cc)) handed_over
