-- ===== src/Permissions.antt =====
-- usuarios/services.py, PermissionService: what a user may do, from the role, the overrides and the
-- permissions that others imply.
mod Tests
pub mod Roles
pub mod Overrides
pub mod Invalidation
pub mod Cache
pub mod Closure
pub mod Switches
use fivuza_backend.Prelude.{
  ℕ, zero, suc, Bool, true, false, not, ◌&&◌, ◌||◌, Option, none, some, List, [], ◌∷◌, ◌++◌, ◌==◌,
  if◌then◌else◌,
}
use fivuza_backend.Model.{Db}
use fivuza_backend.Model.Users.{Code, code_eq, User, RolePermission, UserPermission}

-- `code in codes`
abbrev pub contains : Code → List Code → Bool
contains c [] = false
contains c (d ∷ codes) = code_eq d c || contains c codes

abbrev pub discard : Code → List Code → List Code
discard c [] = []
discard c (d ∷ codes) = if code_eq d c then discard c codes else d ∷ discard c codes

-- `Permission.objects.filter(role_permissions__role_id=…)`
abbrev pub role_codes : ℕ → List RolePermission → List Code
role_codes r [] = []
role_codes r (p ∷ ps) = if p.role == r then p.code ∷ role_codes r ps else role_codes r ps

-- The overrides of one user, in order: each adds or takes away.
abbrev pub override : ℕ → List UserPermission → List Code → List Code
override u [] codes = codes
override u (o ∷ os) codes =
    override u os (
      if o.user == u
      then (if o.is_granted then o.code ∷ codes else discard o.code codes)
      else codes)

-- `if code in expanded: expanded |= implied`, for the two entries of `_IMPLIED_PERMISSIONS`. The
-- first has been applied when the second is looked up.
abbrev pub imply : Code → List Code → List Code → List Code
imply c implied codes = if contains c codes then implied ++ codes else codes

abbrev pub expand : List Code → List Code
expand codes =
    imply Code.cash_close (Code.cash_submit_count ∷ [])
      (imply Code.cash_manage (Code.cash_open ∷ Code.cash_close ∷ []) codes)

-- `a ⊆ b`; sets are equal when each is in the other, and a set is in its expansion.
abbrev pub subset : List Code → List Code → Bool
subset [] b = true
subset (c ∷ a) b = contains c b && subset a b

-- `while True: … if expanded == role_codes: return role_codes`, on fuel.
unfoldable pub closure : ℕ → List Code → Option (List Code)
closure zero codes = none
closure (suc fuel) codes =
    let rest = closure fuel (expand codes) in
    if subset (expand codes) codes then some codes else rest

abbrev pub found : Option (List Code) → List Code → List Code
found (some codes) _ = codes
found none own = own

-- Four rounds are enough: see Permissions/Closure.
unfoldable pub resolve_codes : User → Db → List Code
resolve_codes u db =
    let own = override u.id db.user_permissions (role_codes u.role.id db.role_permissions) in
    found (closure 4 own) own

-- A cached set is used as it is; a miss resolves the codes and stores them.
unfoldable pub get_permission_codes : User → Db → List Code × Db
get_permission_codes u db = elim (db.permission_cache u.id) [
  | some codes ↦ (codes, db)
  | none ↦
      let codes = resolve_codes u db in
      (
        codes,
        record db {
          permission_cache = λ i. if i == u.id then some codes else db.permission_cache i;
        },
      )
]

unfoldable pub check_permission : User → Code → Db → Bool
check_permission u code db = contains code (get_permission_codes u db).0
