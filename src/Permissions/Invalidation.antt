-- ===== src/Permissions/Invalidation.antt =====
-- Changes of the permissions, and the cached sets that they delete: what is left agrees with the tables.
use fivuza_backend.Prelude.{
  ℕ, ◌≡◌, refl, sym, ap, ◌∙◌, Bool, true, false, none, some, List, [], ◌∷◌, ◌++◌, ◌==◌, ==-self, In,
  if◌then◌else◌, Bool-cases, inl, inr, arith,
}
use fivuza_backend.Model.{Db}
use fivuza_backend.Model.Users.{Code, User, RolePermission, UserPermission}
use fivuza_backend.Permissions.{role_codes, override, closure, found, resolve_codes}
use fivuza_backend.Permissions.Roles.{
  Cache, invalidate_user_cache, has_role, invalidate_role_cache, is_of, without,
}
use fivuza_backend.Permissions.Overrides.{
  override_at, override_deleted, override_written, overridden,
}

-- What is deleted from the cache is not there, whatever else is deleted,
invalidate_role_cache-none :
    (r j : ℕ) (us : List User) (cache : Cache)
    → cache j ≡ none
    → invalidate_role_cache r us cache j ≡ none
unfolding invalidate_role_cache invalidate_user_cache
invalidate_role_cache-none r j [] cache h = h
invalidate_role_cache-none r j (u ∷ us) cache h =
    invalidate_role_cache-none r j us _ (dropped (has_role r u))
  where
    dropped :
        (b : Bool) → (if b then (λ k. if k == u.id then none else cache k) else cache) j ≡ none
    dropped true = elim (Bool-cases (j == u.id)) [ inl e ↦ rw e refl | inr e ↦ rw e h ]
    dropped false = h

-- nothing is put there,
invalidate_role_cache-some :
    (r j : ℕ) (us : List User) (cache : Cache) (codes : List Code)
    → invalidate_role_cache r us cache j ≡ some codes
    → cache j ≡ some codes
unfolding invalidate_role_cache invalidate_user_cache
invalidate_role_cache-some r j [] cache codes h = h
invalidate_role_cache-some r j (u ∷ us) cache codes h =
    was (has_role r u) (invalidate_role_cache-some r j us _ codes h)
  where
    was :
        (b : Bool)
        → (if b then (λ k. if k == u.id then none else cache k) else cache) j ≡ some codes
        → cache j ≡ some codes
    was true e = elim (Bool-cases (j == u.id)) [
      | inl same ↦ let gone : none ≡ some codes = rw same at e in cc
      | inr other ↦ rw other at e
    ]
    was false e = e

-- and every user of the role is deleted.
invalidate_role_cache-clears :
    (r : ℕ) (v : User) (us : List User) (cache : Cache)
    → In v us
    → has_role r v ≡ true
    → invalidate_role_cache r us cache v.id ≡ none
unfolding invalidate_role_cache invalidate_user_cache
invalidate_role_cache-clears r v [] cache mine h = absurd mine
invalidate_role_cache-clears r v (u ∷ us) cache (inl same) h =
    invalidate_role_cache-none r v.id us _ (rw (← same, h, ==-self v.id) refl)
invalidate_role_cache-clears r v (u ∷ us) cache (inr there) h =
    invalidate_role_cache-clears r v us _ there h

pub role_codes-cons :
    (r k : ℕ) (code : Code) (ps : List RolePermission)
    → (r == k) ≡ false
    → role_codes k (record { role = r; code = code } ∷ ps) ≡ role_codes k ps
role_codes-cons r k code ps h = rw h refl

pub role_codes-without :
    (r k : ℕ) (code : Code) (ps : List RolePermission)
    → (r == k) ≡ false
    → role_codes k (without r code ps) ≡ role_codes k ps
role_codes-without r k code [] h = refl
role_codes-without r k code (p ∷ ps) h = elim (Bool-cases (is_of r code p)) [
  | inl e ↦
      let other : (p.role == k) ≡ false = ground (arith, e, h) in
      rw (e, other) (role_codes-without r k code ps h)
  | inr e ↦ rw (e, role_codes-without r k code ps h) refl
]

-- The own codes of a role decide, with the overrides.
pub resolve_codes-same :
    (u : User) (db db' : Db)
    → db'.user_permissions ≡ db.user_permissions
    → role_codes u.role.id db'.role_permissions ≡ role_codes u.role.id db.role_permissions
    → resolve_codes u db' ≡ resolve_codes u db
unfolding resolve_codes
resolve_codes-same u db db' e f = rw (e, f) refl

-- Every cached set of a user is the one that the tables give.
abbrev pub Coherent : List User → Db → Type 0
Coherent us db =
    (u : User) (codes : List Code)
    → In u us
    → db.permission_cache u.id ≡ some codes
    → codes ≡ resolve_codes u db

-- The permissions of one role are changed, and the sets of its users are deleted.
pub changed-Coherent :
    (r : ℕ) (us : List User) (db : Db) (ps : List RolePermission)
    → ((k : ℕ) → (r == k) ≡ false → role_codes k ps ≡ role_codes k db.role_permissions)
    → Coherent us db
    → Coherent us (record db {
      role_permissions = ps;
      permission_cache = invalidate_role_cache r us db.permission_cache;
    })
changed-Coherent r us db ps same h u codes mine cached = elim (Bool-cases (has_role r u)) [
  | inl e ↦
      let gone : none ≡ some codes =
        sym (invalidate_role_cache-clears r u us db.permission_cache mine e) ∙ cached in
      cc
  | inr e ↦
      let apart : (r == u.role.id) ≡ false = ground (arith, e) in
      h u codes mine (invalidate_role_cache-some r u.id us db.permission_cache codes cached)
      ∙ sym (resolve_codes-same u db _ refl (same u.role.id apart))
]

-- The overrides of the other users are read as before.
override-skips :
    (row : UserPermission) (k : ℕ) (os : List UserPermission) (codes : List Code)
    → (row.user == k) ≡ false
    → override k (row ∷ os) codes ≡ override k os codes
override-skips row k os codes h = rw h refl

pub override-created :
    (row : UserPermission) (k : ℕ) (os : List UserPermission) (codes : List Code)
    → (row.user == k) ≡ false
    → override k (os ++ (row ∷ [])) codes ≡ override k os codes
override-created row k [] codes h = override-skips row k [] codes h
override-created row k (o ∷ os) codes h = override-created row k os _ h

pub override-deleted :
    (i k : ℕ) (row : UserPermission) (os : List UserPermission) (codes : List Code)
    → override_at i os ≡ some row
    → (row.user == k) ≡ false
    → override k (override_deleted i os) codes ≡ override k os codes
override-deleted i k row [] codes e h = refl
override-deleted i k row (o ∷ os) codes e h = elim (Bool-cases (o.id == i)) [
  | inl same ↦
      let it : some o ≡ some row = rw same at e in
      let that : o ≡ row = cc in rw (same, that, h) refl
  | inr other ↦ rw other (override-deleted i k row os _ (rw other at e) h)
]

pub override-written :
    (row was : UserPermission) (k : ℕ) (os : List UserPermission) (codes : List Code)
    → override_at row.id os ≡ some was
    → (was.user == k) ≡ false
    → (row.user == k) ≡ false
    → override k (override_written row os) codes ≡ override k os codes
override-written row was k [] codes e h h' = refl
override-written row was k (o ∷ os) codes e h h' = elim (Bool-cases (o.id == row.id)) [
  | inl same ↦
      let it : some o ≡ some was = rw same at e in
      let that : o ≡ was = cc in
      let apart : (o.user == k) ≡ false = rw that h in
      rw same (override-skips row k os codes h' ∙ sym (override-skips o k os codes apart))
  | inr other ↦ rw other (override-written row was k os _ (rw other at e) h h')
]

-- The overrides of one user are changed, and his set is deleted.
pub overridden-Coherent :
    (i : ℕ) (us : List User) (db : Db) (os : List UserPermission)
    → ((k : ℕ) (codes : List Code)
        → (i == k) ≡ false
        → override k os codes ≡ override k db.user_permissions codes)
    → Coherent us db
    → Coherent us (overridden i os db)
unfolding invalidate_user_cache resolve_codes
overridden-Coherent i us db os same h u codes mine cached = elim (Bool-cases (u.id == i)) [
  | inl e ↦ let gone : none ≡ some codes = rw e at cached in cc
  | inr e ↦
      let apart : (i == u.id) ≡ false = ground (arith, e) in
      h u codes mine (rw e at cached)
      ∙ sym (ap (λ own. found (closure 4 own) own) (same u.id _ apart))
]
