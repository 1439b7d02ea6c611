-- ===== src/Tenants/Retention.antt =====
-- core/services/retention.py, TenantDataRetentionService: the nightly removal of the tenants that were
-- canceled long enough ago.
use fivuza_backend.Prelude.{
  ℕ, Bool, not, ◌||◌, Option, none, some, List, [], ◌∷◌, ◌==◌, any, select, if◌then◌else◌,
}
use fivuza_backend.Result.{Error, protected_error}
use fivuza_backend.Tenants.{Tenant, Platform, Subscription, is_canceled, is_within_grace_period}

-- What a run leaves, the tenants that it removed, and the error that ended it.
pub record Purge : Type 0 where
  pub platform : Platform
  pub purged : List Tenant
  pub raised : Option Error

abbrev pub is_not : ℕ → ℕ → Bool
is_not i j = not (j == i)

abbrev pub other_tenant : ℕ → Tenant → Bool
other_tenant i t = is_not i t.id

abbrev pub subscribed : ℕ → Subscription → Bool
subscribed i s = s.tenant == i

abbrev pub same_key : ℕ → ℕ → Bool
same_key i j = j == i

-- A foreign key that protects its row: `on_delete=PROTECT` of a subscription and of a support session.
abbrev pub is_protected : Platform → Tenant → Bool
is_protected db t =
    any (subscribed t.id) db.subscriptions || any (same_key t.id) db.impersonation_sessions

-- `TenantSettings.objects.filter(tenant=tenant).delete()`
abbrev pub without_settings : ℕ → Platform → Platform
without_settings i db = record db { settings = select (is_not i) db.settings }

-- `tenant.delete(…)`
abbrev pub without_tenant : ℕ → Platform → Platform
without_tenant i db = record db { tenants = select (other_tenant i) db.tenants }

-- The loop, outside of a transaction: what was written before an error stays.
unfoldable pub purge_tenants : ℕ → List Tenant → Platform → Purge
purge_tenants now [] db = record { platform = db; purged = []; raised = none }
purge_tenants now (t ∷ ts) db =
    let skipped = purge_tenants now ts db in
    let cleared = without_settings t.id db in
    let later = purge_tenants now ts (without_tenant t.id cleared) in
    if is_within_grace_period now t
    then skipped
    else (if is_protected cleared t
        then record { platform = cleared; purged = []; raised = some protected_error }
        else record later { purged = t ∷ later.purged })

abbrev pub canceled_one : Tenant → Bool
canceled_one t = is_canceled t.status

unfoldable pub purge_expired_tenants : ℕ → Platform → Purge
purge_expired_tenants now db = purge_tenants now (select canceled_one db.tenants) db
