-- ===== src/Permissions/Tests.antt =====
-- A user's codes, worked out.
use fivuza_backend.Prelude.{
  sym, ◌∙◌, inl, inr, Bool, Option, none, some, ◌||◌, ◌&&◌, ◌≡◌, refl, true, false, [], ◌∷◌,
}
use fivuza_backend.Model.{Db}
use fivuza_backend.Permissions.{
  contains, check_permission, get_permission_codes, resolve_codes, closure,
}
use fivuza_backend.Permissions.Closure.{implied_by, resolve_codes_lem}
use fivuza_backend.Permissions.Switches.{
  TenantSettings, cashier_switch_codes, get_effective_permission_codes, check_effective_permission,
  check_effective_permission_lem,
}
use fivuza_backend.Model.Users.{Code, User, UserPermission}
use fivuza_backend.Permissions.Roles.{
  Staff, revoke_permission, invalidate_role_cache, invalidate_user_cache,
}
use fivuza_backend.Permissions.Overrides.{create_override, update_override}
use fivuza_backend.Permissions.Invalidation.{Coherent}
use fivuza_backend.Permissions.Cache.{Distinct, here, next, Step, check_permission-refines}
use fivuza_backend.Result.{Result, ok, err}
use fivuza_backend.Samples.{shop, supervisor, cashier}

resolve_codes_lem_example :
    contains Code.cash_submit_count (resolve_codes supervisor shop)
    ≡ implied_by Code.cash_submit_count (Code.cash_manage ∷ [])
resolve_codes_lem_example = resolve_codes_lem supervisor shop Code.cash_submit_count

supervisor_closes : check_permission supervisor Code.cash_close shop ≡ true
unfolding check_permission get_permission_codes resolve_codes closure
supervisor_closes = refl

cashier_does_not : check_permission cashier Code.cash_close shop ≡ false
unfolding check_permission get_permission_codes resolve_codes closure
cashier_does_not = refl

abbrev both_on : TenantSettings
both_on = record { cashier_can_open_session = true; cashier_can_close_session = true }

cashier_opens : check_effective_permission cashier Code.cash_open none (some both_on) shop ≡ true
unfolding check_effective_permission get_effective_permission_codes cashier_switch_codes
    get_permission_codes resolve_codes closure
cashier_opens = refl

abbrev opens_only : TenantSettings
opens_only = record { cashier_can_open_session = true; cashier_can_close_session = false }

check_effective_permission_lem_example :
    (check_effective_permission cashier Code.cash_open none (some opens_only) shop
      ≡ check_permission cashier Code.cash_open shop
        || (check_permission cashier Code.sales_manage shop && (true || false)))
    × (check_effective_permission cashier Code.cash_open none none shop
        ≡ check_permission cashier Code.cash_open shop)
    × ((later : Option TenantSettings)
        → check_effective_permission cashier Code.cash_open
            (cashier_switch_codes none (some opens_only)).1
            later
            shop
          ≡ check_effective_permission cashier Code.cash_open none (some opens_only) shop)
    × (check_effective_permission cashier Code.cash_close none (some opens_only) shop
        ≡ check_permission cashier Code.cash_close shop)
check_effective_permission_lem_example =
    check_effective_permission_lem cashier opens_only Code.cash_open shop

-- A cashier is asked about, then the role loses the right to sell.
abbrev staff : Staff
staff = record { users = cashier ∷ []; roles = []; history = [] }

abbrev asked : Db
asked = (get_permission_codes cashier shop).1

abbrev revoked_ : Db
revoked_ = (revoke_permission 2 Code.sales_manage 8 staff asked).1

one-Distinct : Distinct (cashier ∷ [])
one-Distinct u v (inl a) (inl b) same = a ∙ sym b
one-Distinct u v (inr never) mine same = absurd never
one-Distinct u v (inl a) (inr never) same = absurd never

shop-Coherent : Coherent (cashier ∷ []) shop
shop-Coherent u codes mine h = cc

check_permission-refines_example :
    check_permission cashier Code.sales_manage revoked_
    ≡ contains Code.sales_manage (resolve_codes cashier revoked_)
check_permission-refines_example =
    check_permission-refines (cashier ∷ []) shop revoked_ cashier Code.sales_manage one-Distinct
      shop-Coherent
      (next (next here (Step.checks cashier (inl refl)))
        (Step.revokes 2 Code.sales_manage 8 staff refl))
      (inl refl)

does_not_sell : check_permission cashier Code.sales_manage revoked_ ≡ false
unfolding check_permission get_permission_codes resolve_codes closure revoke_permission
    invalidate_role_cache invalidate_user_cache
does_not_sell = refl

-- An override is moved from one user to another: the set of the first is still cached.
abbrev override_of : User → UserPermission
override_of u = record { id = 1; user = u.id; code = Code.cash_close; is_granted = true }

abbrev overridden_ : Db
overridden_ = (get_permission_codes cashier (create_override (override_of cashier) shop)).1

-- What a check answers and what the tables say.
abbrev answers : Result Db → Bool × Bool
answers (ok db) = (
  check_permission cashier Code.cash_close db,
  contains Code.cash_close (resolve_codes cashier db),
)
answers (err _) = (false, false)

moved : answers (update_override (override_of supervisor) overridden_) ≡ (true, false)
unfolding check_permission get_permission_codes resolve_codes closure create_override
    update_override invalidate_user_cache
moved = refl
