-- ===== src/Permissions/Switches.antt =====
-- The tenant's switches for cashiers: permissions that a business gives to whoever sells.
use fivuza_backend.Prelude.{
  ◌≡◌, refl, Bool, true, false, ◌&&◌, ◌||◌, Option, none, some, List, [], ◌∷◌, ◌++◌, if◌then◌else◌,
  arith, ◌∙◌,
}
use fivuza_backend.Model.{Db}
use fivuza_backend.Model.Users.{Code, code_eq, User}
use fivuza_backend.Permissions.{contains, get_permission_codes, check_permission}
use fivuza_backend.Permissions.Closure.{contains-append}

-- The switches of `core.models.TenantSettings`, a row of the public schema.
pub record TenantSettings : Type 0 where
  pub cashier_can_open_session : Bool
  pub cashier_can_close_session : Bool

-- The codes of the switches that are on, in the order of `_CASHIER_SWITCH_PERMISSIONS`.
abbrev pub switched_on : Option TenantSettings → List Code
switched_on none = []
switched_on (some s) =
    (if s.cashier_can_open_session then Code.cash_open ∷ [] else [])
    ++ (if s.cashier_can_close_session then Code.cash_submit_count ∷ [] else [])

-- With the entry of the cache: what it holds is used, and a miss is stored.
unfoldable pub cashier_switch_codes :
    Option (List Code) → Option TenantSettings → List Code × Option (List Code)
cashier_switch_codes (some codes) settings = (codes, some codes)
cashier_switch_codes none settings = (switched_on settings, some (switched_on settings))

-- Own codes, and the switches' for whoever may sell.
unfoldable pub get_effective_permission_codes :
    User → Option (List Code) → Option TenantSettings → Db → List Code
get_effective_permission_codes user cached settings db =
    let codes = (get_permission_codes user db).0 in
    if contains Code.sales_manage codes
    then codes ++ (cashier_switch_codes cached settings).0
    else codes

unfoldable pub check_effective_permission :
    User → Code → Option (List Code) → Option TenantSettings → Db → Bool
check_effective_permission user code cached settings db =
    contains code (get_effective_permission_codes user cached settings db)

effective_by :
    (b : Bool) (c : Code) (codes extra : List Code)
    → contains c (if b then codes ++ extra else codes) ≡ contains c codes || (b && contains c extra)
effective_by true c codes extra = contains-append c codes extra
effective_by false c codes extra = ground arith

-- What the switches give, code by code.
switched_on-contains :
    (s : TenantSettings) (c : Code)
    → contains c (switched_on (some s))
      ≡ (code_eq Code.cash_open c && s.cashier_can_open_session)
        || (code_eq Code.cash_submit_count c && s.cashier_can_close_session)
switched_on-contains s c = by_switches s.cashier_can_open_session s.cashier_can_close_session
  where
    by_switches :
        (opens closes : Bool)
        → contains c (
            (if opens then Code.cash_open ∷ [] else [])
            ++ (if closes then Code.cash_submit_count ∷ [] else []))
          ≡ (code_eq Code.cash_open c && opens) || (code_eq Code.cash_submit_count c && closes)
    by_switches true true = ground arith
    by_switches true false = ground arith
    by_switches false true = ground arith
    by_switches false false = ground arith

or_never : (a b : Bool) → a || (b && false) ≡ a
or_never a b = ground arith

-- With an empty cache of the switches, a user effectively has a code exactly when it is his own, or
-- when he may sell and either it is the right to open shifts and the switch for opening is on, or it is
-- the right to hand in a count and the switch for closing is on; without the tenant's settings he has
-- his own codes only. What such a call leaves in the cache gives the next one the same answer. The right
-- to close shifts is never given by a switch.
pub check_effective_permission_lem :
    (user : User) (s : TenantSettings) (c : Code) (db : Db)
    → (check_effective_permission user c none (some s) db
        ≡ check_permission user c db
          || (check_permission user Code.sales_manage db
              && ((code_eq Code.cash_open c && s.cashier_can_open_session)
                  || (code_eq Code.cash_submit_count c && s.cashier_can_close_session))))
      × (check_effective_permission user c none none db ≡ check_permission user c db)
      × ((later : Option TenantSettings)
          → check_effective_permission user c (cashier_switch_codes none (some s)).1 later db
            ≡ check_effective_permission user c none (some s) db)
      × (check_effective_permission user Code.cash_close none (some s) db
          ≡ check_permission user Code.cash_close db)
unfolding check_effective_permission get_effective_permission_codes check_permission
    cashier_switch_codes
check_effective_permission_lem user s c db =
    let codes = (get_permission_codes user db).0 in
    let sells = contains Code.sales_manage codes in
    (
      effective_by sells c codes (switched_on (some s)) ∙ rw (switched_on-contains s c) refl,
      effective_by sells c codes [] ∙ or_never (contains c codes) sells,
      λ later. refl,
      effective_by sells Code.cash_close codes (switched_on (some s))
          ∙ rw (switched_on-contains s Code.cash_close)
              (or_never (contains Code.cash_close codes) sells),
    )
