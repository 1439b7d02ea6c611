-- ===== src/Permissions/Overrides.antt =====
-- usuarios/views.py, UserPermissionViewSet: the overrides of a user, and the cached set that they
-- change. A row that is not there is answered with "not found".
use fivuza_backend.Prelude.{ℕ, List, [], ◌∷◌, ◌++◌, ◌==◌, Option, none, some, if◌then◌else◌}
use fivuza_backend.Result.{Result, ok, err, does_not_exist}
use fivuza_backend.Model.{Db}
use fivuza_backend.Model.Users.{UserPermission}
use fivuza_backend.Permissions.Roles.{invalidate_user_cache}

-- The row with a key is taken out of the table, or written in its place.
abbrev pub override_at : ℕ → List UserPermission → Option UserPermission
override_at i [] = none
override_at i (o ∷ os) = if o.id == i then some o else override_at i os

abbrev pub override_deleted : ℕ → List UserPermission → List UserPermission
override_deleted i [] = []
override_deleted i (o ∷ os) = if o.id == i then os else o ∷ override_deleted i os

abbrev pub override_written : UserPermission → List UserPermission → List UserPermission
override_written row [] = []
override_written row (o ∷ os) = if o.id == row.id then row ∷ os else o ∷ override_written row os

-- The overrides are what they are now, and one user's set is not cached any more.
abbrev pub overridden : ℕ → List UserPermission → Db → Db
overridden user rows db = record db {
  user_permissions = rows;
  permission_cache = invalidate_user_cache user db.permission_cache;
}

unfoldable pub create_override : UserPermission → Db → Db
create_override row db = overridden row.user (db.user_permissions ++ (row ∷ [])) db

-- The set that is deleted is that of the row's user after the update.
unfoldable pub update_override : UserPermission → Db → Result Db
update_override row db = elim (override_at row.id db.user_permissions) [
  | some _ ↦ ok (overridden row.user (override_written row db.user_permissions) db)
  | none ↦ err does_not_exist
]

unfoldable pub destroy_override : ℕ → Db → Result Db
destroy_override i db = elim (override_at i db.user_permissions) [
  | some o ↦ ok (overridden o.user (override_deleted i db.user_permissions) db)
  | none ↦ err does_not_exist
]
