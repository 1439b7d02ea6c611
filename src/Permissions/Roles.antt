-- ===== src/Permissions/Roles.antt =====
-- usuarios/services.py, RoleService: the permissions of a role, and the cached sets that they change.
use fivuza_backend.Prelude.{
  ℕ, Bool, ◌&&◌, Option, none, some, List, [], ◌∷◌, ◌==◌, any, update_where, if◌then◌else◌,
}
use fivuza_backend.Result.{Result, ok, ◌>>◌, raise_if, cannot_delete_system_role, role_in_use}
use fivuza_backend.Model.{Db}
use fivuza_backend.Model.Users.{Code, code_eq, User, RolePermission}

-- A role with the columns that its deletion reads and writes.
pub record RoleRow : Type 0 where
  pub id : ℕ
  pub is_system_default : Bool
  pub deleted_at : Option ℕ
  pub deleted_by : Option ℕ

pub data HistoryAction : Type 0 where
  granted revoked : HistoryAction

pub record RolePermissionsHistory : Type 0 where
  pub role : ℕ
  pub permission : Code
  pub action : HistoryAction
  pub changed_by : ℕ

-- The tables that these calls read and write beside `Db`; `users` are those that are not deleted.
pub record Staff : Type 0 where
  pub users : List User
  pub roles : List RoleRow
  pub history : List RolePermissionsHistory

abbrev pub Cache : Type 0
Cache = ℕ → Option (List Code)

-- `cache.delete(…)`
unfoldable pub invalidate_user_cache : ℕ → Cache → Cache
invalidate_user_cache i cache = λ j. if j == i then none else cache j

abbrev pub has_role : ℕ → User → Bool
has_role r u = u.role.id == r

unfoldable pub invalidate_role_cache : ℕ → List User → Cache → Cache
invalidate_role_cache r [] cache = cache
invalidate_role_cache r (u ∷ us) cache =
    invalidate_role_cache r us (if has_role r u then invalidate_user_cache u.id cache else cache)

abbrev pub is_of : ℕ → Code → RolePermission → Bool
is_of r code p = (p.role == r) && code_eq p.code code

-- `filter(…).delete()`
abbrev pub without : ℕ → Code → List RolePermission → List RolePermission
without r code [] = []
without r code (p ∷ ps) = if is_of r code p then without r code ps else p ∷ without r code ps

abbrev pub history_of : ℕ → Code → HistoryAction → ℕ → RolePermissionsHistory
history_of r code action changed_by = record {
  role = r;
  permission = code;
  action = action;
  changed_by = changed_by;
}

abbrev pub remembered : ℕ → Code → HistoryAction → ℕ → Staff → Staff
remembered r code action changed_by staff = record staff {
  history = history_of r code action changed_by ∷ staff.history;
}

unfoldable pub grant_permission : ℕ → Code → ℕ → Staff → Db → Staff × Db
grant_permission r code changed_by staff db =
    if any (is_of r code) db.role_permissions then (staff, db) else (
      remembered r code granted changed_by staff,
      record db {
        role_permissions = record { role = r; code = code } ∷ db.role_permissions;
        permission_cache = invalidate_role_cache r staff.users db.permission_cache;
      },
    )

unfoldable pub revoke_permission : ℕ → Code → ℕ → Staff → Db → Staff × Db
revoke_permission r code changed_by staff db =
    if any (is_of r code) db.role_permissions
    then (
      remembered r code revoked changed_by staff,
      record db {
        role_permissions = without r code db.role_permissions;
        permission_cache = invalidate_role_cache r staff.users db.permission_cache;
      },
    )
    else (staff, db)

abbrev pub is_role : ℕ → RoleRow → Bool
is_role i r = r.id == i

abbrev pub retired : ℕ → ℕ → RoleRow → RoleRow
retired now by r = record r { deleted_at = some now; deleted_by = some by }

unfoldable pub delete_role : ℕ → RoleRow → ℕ → Staff → Result Staff
delete_role now r by staff = do
  raise_if r.is_system_default cannot_delete_system_role
  raise_if (any (has_role r.id) staff.users) role_in_use
  ok (record staff { roles = update_where (is_role r.id) (retired now by) staff.roles })
