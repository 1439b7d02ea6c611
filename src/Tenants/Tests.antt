-- ===== src/Tenants/Tests.antt =====
-- Tenants who leave, and one who comes back.
use fivuza_backend.Prelude.{ℕ, ◌≡◌, refl, pos, true, none, some, [], ◌∷◌, any, select}
use fivuza_backend.Result.{ok, ◌>>=◌, protected_error}
use fivuza_backend.Tenants.{
  Tenant, TenantStatus, Platform, BillingCycle, register_tenant, suspend_tenant, reactivate_tenant,
  cancel_tenant, is_within_grace_period,
}
use fivuza_backend.Tenants.Retention.{is_protected, purge_tenants, purge_expired_tenants}
use fivuza_backend.Tenants.Purged.{
  is_over, until_protected, is_spared, error_of, purge_expired_tenants_lem,
}

abbrev gone : ℕ → Tenant
gone i = record {
  id = i;
  status = TenantStatus.canceled;
  suspended_at = none;
  canceled_at = some 5;
}

abbrev bodega : Platform
bodega = record {
  plans =
      record {
        code = 1;
        is_active = true;
        price_monthly = pos 4990;
        price_semiannual = pos 26900;
        price_annual = pos 49900;
      }
      ∷ [];
  tenants =
      gone 2
      ∷ record { id = 1; status = TenantStatus.active; suspended_at = none; canceled_at = none }
      ∷ [];
  settings = 2 ∷ 1 ∷ [];
  impersonation_sessions = [];
  subscriptions = [];
  payments = [];
  discounts = [];
}

purge_expired_tenants_lem_example :
    ((purge_expired_tenants 2592006 bodega).purged
      ≡ until_protected bodega (select (is_over 2592006) bodega.tenants))
    × ((purge_expired_tenants 2592006 bodega).platform.tenants
        ≡ select (is_spared (purge_expired_tenants 2592006 bodega).purged) bodega.tenants)
    × ((purge_expired_tenants 2592006 bodega).raised
        ≡ error_of (any (is_protected bodega) (select (is_over 2592006) bodega.tenants)))
purge_expired_tenants_lem_example = purge_expired_tenants_lem 2592006 bodega

one_goes : (purge_expired_tenants 2592006 bodega).purged ≡ gone 2 ∷ []
unfolding purge_expired_tenants purge_tenants is_within_grace_period
one_goes = refl

-- A tenant who registered has a subscription: the run cannot remove it, when it has been canceled.
abbrev left_ : Platform → Platform
left_ db = record db { tenants = gone 7 ∷ [] }

stays :
    (register_tenant 0 7 1 1 BillingCycle.monthly true bodega >>= λ db.
    ok (purge_expired_tenants 2592006 (left_ db)).raised)
    ≡ ok (some protected_error)
unfolding purge_expired_tenants purge_tenants is_within_grace_period register_tenant ◌>>=◌
stays = refl

-- A tenant who was canceled is active again.
revived :
    (cancel_tenant 5
        (record { id = 2; status = TenantStatus.active; suspended_at = none; canceled_at = none })
      >>= λ t. reactivate_tenant (suspend_tenant 6 t))
    ≡ ok
        (record { id = 2; status = TenantStatus.active; suspended_at = none; canceled_at = some 5 })
unfolding cancel_tenant suspend_tenant reactivate_tenant ◌>>=◌
revived = refl
