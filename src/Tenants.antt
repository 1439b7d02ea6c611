-- ===== src/Tenants.antt =====
-- core/services/tenants.py and core/services/retention.py: the life of a tenant, from its registration
-- to the end of its data, and the two permissions of core/permissions.py that read its status.

mod Tests
pub mod Retention
pub mod Purged
use fivuza_backend.Prelude.{
  ℕ, ◌+◌, ◌*◌, ℤ, Bool, true, false, not, ◌&&◌, ◌||◌, Option, none, some, List, [], ◌∷◌, ◌==◌, ltb,
  leb, any, first, select, update_where, if◌then◌else◌,
}
use fivuza_backend.Result.{
  Error, Result, ok, err, ◌>>=◌, ◌>>◌, raise_if, does_not_exist, cannot_reactivate_canceled,
  protected_error, tenant_suspended, tenant_canceled, tenant_already_canceled, terms_not_accepted,
  tenant_retention_period_expired,
}

pub data TenantStatus : Type 0 where
  active trial suspended canceled : TenantStatus

abbrev pub is_canceled : TenantStatus → Bool
is_canceled TenantStatus.canceled = true
is_canceled _ = false

abbrev pub is_suspended : TenantStatus → Bool
is_suspended TenantStatus.suspended = true
is_suspended _ = false

pub record Tenant : Type 0 where
  pub id : ℕ
  pub status : TenantStatus
  pub suspended_at : Option ℕ
  pub canceled_at : Option ℕ

pub data BillingCycle : Type 0 where
  monthly semiannual annual : BillingCycle

pub record Plan : Type 0 where
  pub code : ℕ
  pub is_active : Bool
  pub price_monthly : ℤ
  pub price_semiannual : ℤ
  pub price_annual : ℤ

pub data SubscriptionStatus : Type 0 where
  active past_due canceled : SubscriptionStatus

-- The plan of a subscription is its row.
pub record Subscription : Type 0 where
  pub id : ℕ
  pub tenant : ℕ
  pub plan : Plan
  pub billing_cycle : BillingCycle
  pub price_paid : ℤ
  pub status : SubscriptionStatus
  pub starts_at : ℕ
  pub expires_at : ℕ

pub data SubscriptionPaymentStatus : Type 0 where
  paid failed refunded pending : SubscriptionPaymentStatus

pub record SubscriptionPayment : Type 0 where
  pub id : ℕ
  pub subscription : ℕ
  pub status : SubscriptionPaymentStatus
  pub paid_at : Option ℕ

-- A discount is a percentage, in hundredths, or a price.
pub record SubscriptionDiscount : Type 0 where
  pub subscription : ℕ
  pub discount_percent : Option ℤ
  pub override_price : Option ℤ
  pub expires_at : Option ℕ

-- The tables of the platform, the newest row first; of the settings and the support sessions of a
-- tenant only whose they are.
pub record Platform : Type 0 where
  pub plans : List Plan
  pub tenants : List Tenant
  pub settings : List ℕ
  pub impersonation_sessions : List ℕ
  pub subscriptions : List Subscription
  pub payments : List SubscriptionPayment
  pub discounts : List SubscriptionDiscount

-- A day of `timedelta`, in seconds.
abbrev pub seconds_of : ℕ → ℕ
seconds_of days = days * 86400

abbrev pub cycle_days : BillingCycle → ℕ
cycle_days monthly = 30
cycle_days semiannual = 182
cycle_days annual = 365

abbrev pub cycle_price : BillingCycle → Plan → ℤ
cycle_price monthly plan = plan.price_monthly
cycle_price semiannual plan = plan.price_semiannual
cycle_price annual plan = plan.price_annual

abbrev pub data_retention_grace_days : ℕ
data_retention_grace_days = 30

abbrev pub is_offered : ℕ → Plan → Bool
is_offered code plan = (plan.code == code) && plan.is_active

abbrev pub chosen_plan : Option Plan → Result Plan
chosen_plan (some plan) = ok plan
chosen_plan none = err does_not_exist

-- The signal on a new tenant makes its settings. Its keys are given by the caller.
unfoldable pub register_tenant : ℕ → ℕ → ℕ → ℕ → BillingCycle → Bool → Platform → Result Platform
register_tenant now tenant_id subscription_id plan_code cycle accept_terms db = do
  raise_if (not accept_terms) terms_not_accepted
  plan ← chosen_plan (first (is_offered plan_code) db.plans)
  ok (record db {
    tenants =
        record {
          id = tenant_id;
          status = TenantStatus.trial;
          suspended_at = none;
          canceled_at = none;
        }
        ∷ db.tenants;
    settings = tenant_id ∷ db.settings;
    subscriptions =
        record {
          id = subscription_id;
          tenant = tenant_id;
          plan = plan;
          billing_cycle = cycle;
          price_paid = cycle_price cycle plan;
          status = SubscriptionStatus.active;
          starts_at = now;
          expires_at = now + seconds_of (cycle_days cycle);
        }
        ∷ db.subscriptions;
  })

unfoldable pub suspend_tenant : ℕ → Tenant → Tenant
suspend_tenant now t = record t { status = TenantStatus.suspended; suspended_at = some now }

unfoldable pub reactivate_tenant : Tenant → Result Tenant
reactivate_tenant t = do
  raise_if (is_canceled t.status) cannot_reactivate_canceled
  ok (record t { status = TenantStatus.active; suspended_at = none })

unfoldable pub cancel_tenant : ℕ → Tenant → Result Tenant
cancel_tenant now t = do
  raise_if (is_canceled t.status) tenant_already_canceled
  ok (record t { status = TenantStatus.canceled; canceled_at = some now })

-- `now <= canceled_at + 30 days`, for a tenant that is canceled and has the time.
abbrev pub before_deadline : ℕ → Option ℕ → Bool
before_deadline now none = true
before_deadline now (some at_) = leb now (at_ + seconds_of data_retention_grace_days)

unfoldable pub is_within_grace_period : ℕ → Tenant → Bool
is_within_grace_period now t = not (is_canceled t.status) || before_deadline now t.canceled_at

-- `TenantNotSuspended` and `TenantNotCanceled`, one after the other as the views list them; `safe` is a
-- method that only reads.
unfoldable pub has_permission : ℕ → Bool → Tenant → Result (Unit {0})
has_permission now safe t = do
  raise_if (is_suspended t.status) tenant_suspended
  raise_if (is_canceled t.status && not (is_within_grace_period now t))
      tenant_retention_period_expired
  raise_if (is_canceled t.status && not safe) tenant_canceled
  ok tt
