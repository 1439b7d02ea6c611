-- ===== src/Permissions/Cache.antt =====
-- What a check of a permission answers from the cache is what the tables say.
use fivuza_backend.Prelude.{
  ℕ, ◌≡◌, refl, sym, ap, ◌∙◌, Option, none, some, List, ◌∷◌, ◌==◌, In, any, if◌then◌else◌,
  Bool-cases, Option-cases, inl, inr, arith,
}
use fivuza_backend.Model.{Db}
use fivuza_backend.Model.Users.{Code, User, UserPermission}
use fivuza_backend.Permissions.{contains, resolve_codes, get_permission_codes, check_permission}
use fivuza_backend.Permissions.Roles.{
  Staff, invalidate_user_cache, is_of, without, grant_permission, revoke_permission,
}
use fivuza_backend.Permissions.Overrides.{
  override_at, override_deleted, override_written, overridden, create_override, update_override,
  destroy_override,
}
use fivuza_backend.Result.{ok, err, does_not_exist, ok-injective}
use fivuza_backend.Permissions.Invalidation.{
  Coherent, changed-Coherent, resolve_codes-same, role_codes-cons, role_codes-without,
  override-created, override-deleted, override-written, overridden-Coherent,
}

-- What happens to the cache and to what it is made of: a check, a change of a role or
-- of a user's overrides, the end of an entry's time. An override that is updated keeps its user.
pub data Step (us : List User) : Db → Db → Type 0 where
  checks : {db : Db} (u : User) → In u us → Step us db (get_permission_codes u db).1
  grants :
      {db : Db} (r : ℕ) (code : Code) (by : ℕ) (staff : Staff)
      → staff.users ≡ us
      → Step us db (grant_permission r code by staff db).1
  revokes :
      {db : Db} (r : ℕ) (code : Code) (by : ℕ) (staff : Staff)
      → staff.users ≡ us
      → Step us db (revoke_permission r code by staff db).1
  creates : {db : Db} (row : UserPermission) → Step us db (create_override row db)
  updates :
      {db db' : Db} (row was : UserPermission)
      → override_at row.id db.user_permissions ≡ some was
      → was.user ≡ row.user
      → update_override row db ≡ ok db'
      → Step us db db'
  destroys : {db db' : Db} (i : ℕ) → destroy_override i db ≡ ok db' → Step us db db'
  lapses :
      {db : Db} (i : ℕ)
      → Step us db (record db { permission_cache = invalidate_user_cache i db.permission_cache })

pub data Reach (us : List User) (db : Db) : Db → Type 0 where
  here : Reach us db db
  next : {db₁ db₂ : Db} → Reach us db db₁ → Step us db₁ db₂ → Reach us db db₂

-- No two users have one key.
abbrev pub Distinct : List User → Type 0
Distinct us = (u v : User) → In u us → In v us → u.id ≡ v.id → u ≡ v

checks-Coherent :
    (us : List User) (db : Db) (u : User)
    → Distinct us
    → In u us
    → Coherent us db
    → Coherent us (get_permission_codes u db).1
unfolding get_permission_codes
checks-Coherent us db u apart mine h = by_cache (db.permission_cache u.id) refl
  where
    by_cache :
        (entry : Option (List Code))
        → db.permission_cache u.id ≡ entry
        → Coherent us
            (elim entry as (λ _. List Code × Db) [
              | some codes ↦ (codes, db)
              | none ↦ (
                resolve_codes u db,
                record db {
                  permission_cache =
                      λ i. if i == u.id then some (resolve_codes u db) else db.permission_cache i;
                },
              )
            ]).1
    by_cache (some _) e v codes there cached = h v codes there cached
    by_cache none e v codes there cached = elim (Bool-cases (v.id == u.id)) [
      | inl same ↦
          let stored : some (resolve_codes u db) ≡ some codes = rw same at cached in
          let it : resolve_codes u db ≡ codes = cc in
          let who : v ≡ u = apart v u there mine (ground (arith, same)) in
          sym it
          ∙ ap (λ w. resolve_codes w db) (sym who)
          ∙ sym (resolve_codes-same v db _ refl refl)
      | inr other ↦ h v codes there (rw other at cached) ∙ sym (resolve_codes-same v db _ refl refl)
    ]

updated-Coherent :
    (us : List User) (db db' : Db) (row was : UserPermission)
    → override_at row.id db.user_permissions ≡ some was
    → was.user ≡ row.user
    → Coherent us db
    → update_override row db ≡ ok db'
    → Coherent us db'
unfolding update_override
updated-Coherent us db db' row was old same h done =
    let it : overridden row.user (override_written row db.user_permissions) db ≡ db' =
      ok-injective (rw (update_override, old) at done) in
    rw (← it) (
      overridden-Coherent row.user us db _
        (λ k codes e. override-written row was k db.user_permissions codes old (rw same e) e) h)

destroyed-Coherent :
    (us : List User) (db db' : Db) (i : ℕ)
    → Coherent us db
    → destroy_override i db ≡ ok db'
    → Coherent us db'
unfolding destroy_override
destroyed-Coherent us db db' i h done = elim (Option-cases (override_at i db.user_permissions)) [
  | inl e ↦ let no : err does_not_exist ≡ ok db' = rw (destroy_override, e) at done in cc
  | inr (row, e) ↦
      let it : overridden row.user (override_deleted i db.user_permissions) db ≡ db' =
        ok-injective (rw (destroy_override, e) at done) in
      rw (← it) (
        overridden-Coherent row.user us db _
          (λ k codes. override-deleted i k row db.user_permissions codes e) h)
]

Step-Coherent :
    (us : List User) (db db' : Db) → Distinct us → Coherent us db → Step us db db' → Coherent us db'
unfolding grant_permission revoke_permission invalidate_user_cache create_override
Step-Coherent us db _ apart h (checks u mine) = checks-Coherent us db u apart mine h
Step-Coherent us db _ apart h (grants r code by staff same) =
    elim (Bool-cases (any (is_of r code) db.role_permissions)) [
      | inl e ↦ rw e h
      | inr e ↦
          rw (e, same)
            (changed-Coherent r us db (record { role = r; code = code } ∷ db.role_permissions)
              (λ k. role_codes-cons r k code db.role_permissions) h)
    ]
Step-Coherent us db _ apart h (revokes r code by staff same) =
    elim (Bool-cases (any (is_of r code) db.role_permissions)) [
      | inl e ↦
          rw (e, same)
            (changed-Coherent r us db (without r code db.role_permissions)
              (λ k. role_codes-without r k code db.role_permissions) h)
      | inr e ↦ rw e h
    ]
Step-Coherent us db _ apart h (creates row) =
    overridden-Coherent row.user us db _
      (λ k codes. override-created row k db.user_permissions codes) h
Step-Coherent us db db' apart h (updates row was found_ same done) =
    updated-Coherent us db db' row was found_ same h done
Step-Coherent us db db' apart h (destroys i done) = destroyed-Coherent us db db' i h done
Step-Coherent us db _ apart h (lapses i) = λ v codes mine cached. elim (Bool-cases (v.id == i)) [
  | inl e ↦ let gone : none ≡ some codes = rw e at cached in cc
  | inr e ↦ h v codes mine (rw e at cached) ∙ sym (resolve_codes-same v db _ refl refl)
]

Reach-Coherent :
    (us : List User) (db db' : Db)
    → Distinct us
    → Coherent us db
    → Reach us db db'
    → Coherent us db'
Reach-Coherent us db db' apart h here = h
Reach-Coherent us db db' apart h (next {db₁ = db₁} reach step) =
    Step-Coherent us db₁ db' apart (Reach-Coherent us db db₁ apart h reach) step

-- The cache is not seen: whatever is checked, granted to roles, revoked from them, and overridden for
-- users (an override that is updated keeps its user), in whatever order, and whenever entries lapse, from an empty cache or one that agrees with the tables, a check
-- of a user's permission answers what the tables say at that moment.
pub check_permission-refines :
    (us : List User) (db db' : Db) (u : User) (code : Code)
    → Distinct us
    → Coherent us db
    → Reach us db db'
    → In u us
    → check_permission u code db' ≡ contains code (resolve_codes u db')
unfolding check_permission get_permission_codes
check_permission-refines us db db' u code apart h reach mine =
    by_cache (db'.permission_cache u.id) refl
  where
    by_cache :
        (entry : Option (List Code))
        → db'.permission_cache u.id ≡ entry
        → contains code
            (elim entry as (λ _. List Code × Db) [
              | some codes ↦ (codes, db')
              | none ↦ (
                resolve_codes u db',
                record db' {
                  permission_cache =
                      λ i. if i == u.id then some (resolve_codes u db') else db'.permission_cache i;
                },
              )
            ]).0
          ≡ contains code (resolve_codes u db')
    by_cache (some codes) e =
        ap (contains code) (Reach-Coherent us db db' apart h reach u codes mine e)
    by_cache none e = refl
