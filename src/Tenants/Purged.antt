-- ===== src/Tenants/Purged.antt =====
-- Which tenants a nightly run removes.
use fivuza_backend.Prelude.{
  ℕ, ◌≡◌, refl, ap, ◌∙◌, Bool, not, Option, none, some, List, [], ◌∷◌, ◌==◌, any, select,
  if◌then◌else◌, Bool-cases, inl, inr,
}
use fivuza_backend.Result.{Error, protected_error}
use fivuza_backend.Tenants.{Tenant, Platform, is_canceled, before_deadline, is_within_grace_period}
use fivuza_backend.Tenants.Retention.{
  Purge, purge_tenants, purge_expired_tenants, is_protected, without_settings, without_tenant,
  other_tenant, canceled_one,
}

abbrev pub is_over : ℕ → Tenant → Bool
is_over now t = not (is_within_grace_period now t)

-- The tenants before the first that is protected.
abbrev pub until_protected : Platform → List Tenant → List Tenant
until_protected db [] = []
until_protected db (t ∷ ts) = if is_protected db t then [] else t ∷ until_protected db ts

abbrev pub has_key_of : Tenant → Tenant → Bool
has_key_of t u = t.id == u.id

abbrev pub is_spared : List Tenant → Tenant → Bool
is_spared gone t = not (any (has_key_of t) gone)

abbrev pub error_of : Bool → Option Error
error_of blocked = if blocked then some protected_error else none

spared_all : (ts : List Tenant) → ts ≡ select (is_spared []) ts
spared_all [] = refl
spared_all (t ∷ ts) = ap (λ us. t ∷ us) (spared_all ts)

spared_cons :
    (t : Tenant) (gone ts : List Tenant)
    → select (is_spared gone) (select (other_tenant t.id) ts) ≡ select (is_spared (t ∷ gone)) ts
spared_cons t gone [] = refl
spared_cons t gone (u ∷ ts) = elim (Bool-cases (u.id == t.id)) [
  | inl e ↦ rw e (spared_cons t gone ts)
  | inr e ↦ elim (Bool-cases (any (has_key_of u) gone)) [
    | inl f ↦ rw (e, f) (spared_cons t gone ts)
    | inr f ↦ rw (e, f, spared_cons t gone ts) refl
  ]
]

-- A tenant who is not canceled is within the grace period.
over-select :
    (now : ℕ) (ts : List Tenant)
    → select (is_over now) (select canceled_one ts) ≡ select (is_over now) ts
unfolding is_within_grace_period
over-select now [] = refl
over-select now (t ∷ ts) = elim (Bool-cases (is_canceled t.status)) [
  | inl e ↦ elim (Bool-cases (before_deadline now t.canceled_at)) [
    | inl f ↦ rw (f, e, f, e) (over-select now ts)
    | inr f ↦ rw (f, e, f, e, over-select now ts) refl
  ]
  | inr e ↦ rw e (over-select now ts)
]

-- What a run does, from the tenants that it goes through.
abbrev Purged : Platform → List Tenant → Purge → Type 0
Purged db over run =
    (run.purged ≡ until_protected db over)
    × (run.platform.tenants ≡ select (is_spared run.purged) db.tenants)
    × (run.raised ≡ error_of (any (is_protected db) over))

purge_tenants-Purged :
    (now : ℕ) (ts : List Tenant) (db : Platform)
    → Purged db (select (is_over now) ts) (purge_tenants now ts db)
unfolding purge_tenants
purge_tenants-Purged now [] db = (refl, spared_all db.tenants, refl)
purge_tenants-Purged now (t ∷ ts) db = elim (Bool-cases (is_within_grace_period now t)) [
  | inl e ↦ rw e (purge_tenants-Purged now ts db)
  | inr e ↦ elim (Bool-cases (is_protected db t)) [
    | inl f ↦ rw (e, f) (refl, spared_all db.tenants, refl)
    | inr f ↦
        let (gone, kept, raises) =
          purge_tenants-Purged now ts (without_tenant t.id (without_settings t.id db)) in
        rw (e, f) (ap (λ us. t ∷ us) gone, kept ∙ spared_cons t _ db.tenants, raises)
  ]
]

-- A run removes the tenants that were canceled more than thirty days ago, up to the first of them that
-- has a subscription or a support session, and no other; it ends by an error exactly when there is such
-- a one. So it removes none that has a subscription.
pub purge_expired_tenants_lem :
    (now : ℕ) (db : Platform)
    → ((purge_expired_tenants now db).purged ≡ until_protected db (select (is_over now) db.tenants))
      × ((purge_expired_tenants now db).platform.tenants
          ≡ select (is_spared (purge_expired_tenants now db).purged) db.tenants)
      × ((purge_expired_tenants now db).raised
          ≡ error_of (any (is_protected db) (select (is_over now) db.tenants)))
unfolding purge_expired_tenants
purge_expired_tenants_lem now db =
    let (gone, kept, raises) = purge_tenants-Purged now (select canceled_one db.tenants) db in
    (
      gone ∙ ap (until_protected db) (over-select now db.tenants),
      kept,
      raises ∙ ap (λ us. error_of (any (is_protected db) us)) (over-select now db.tenants),
    )
