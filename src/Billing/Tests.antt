-- ===== src/Billing/Tests.antt =====
-- A suspended tenant who pays.
use fivuza_backend.Prelude.{
  ◌+◌, ◌*◌, leb, if◌then◌else◌, ◌≡◌, refl, pos, true, none, some, [], ◌∷◌, first, arith,
}
use fivuza_backend.Result.{ok, err, payment_already_confirmed}
use fivuza_backend.Tenants.{
  Tenant, TenantStatus, Platform, Plan, Subscription, SubscriptionStatus, SubscriptionPayment,
  SubscriptionPaymentStatus, BillingCycle,
}
use fivuza_backend.Billing.{
  is_subscription, is_tenant, is_payment, confirm_payment, mark_expired_subscriptions_past_due,
}
use fivuza_backend.Billing.Restored.{
  paid_status, renewed_status, paid_days, paid_payment, confirm_payment_restores,
}

abbrev debtor : Tenant
debtor = record {
  id = 3;
  status = TenantStatus.suspended;
  suspended_at = some 90;
  canceled_at = none;
}

abbrev basic : Plan
basic = record {
  code = 1;
  is_active = true;
  price_monthly = pos 4990;
  price_semiannual = pos 26900;
  price_annual = pos 49900;
}

abbrev late : Subscription
late = record {
  id = 5;
  tenant = 3;
  plan = basic;
  billing_cycle = BillingCycle.monthly;
  price_paid = pos 4990;
  status = SubscriptionStatus.past_due;
  starts_at = 0;
  expires_at = 80;
}

abbrev transfer : SubscriptionPayment
transfer = record {
  id = 9;
  subscription = 5;
  status = SubscriptionPaymentStatus.pending;
  paid_at = none;
}

abbrev platform : Platform
platform = record {
  plans = basic ∷ [];
  tenants = debtor ∷ [];
  settings = 3 ∷ [];
  impersonation_sessions = [];
  subscriptions = late ∷ [];
  payments = transfer ∷ [];
  discounts =
      record {
        subscription = 5;
        discount_percent = some (pos 1000);
        override_price = none;
        expires_at = none;
      }
      ∷ [];
}

confirm_payment_restores_example :
    (db' : Platform) × (confirm_payment 100 transfer platform ≡ ok db')
    × (first (is_payment 9) db'.payments ≡ some (paid_payment 100 transfer))
    × (confirm_payment 2592100 (paid_payment 100 transfer) db' ≡ err payment_already_confirmed)
    × ((s' : Subscription) × (s'.status ≡ renewed_status late.status)
        × (s'.expires_at
            ≡ (if leb late.expires_at 100 then 100 else late.expires_at)
              + 86400 * paid_days late.billing_cycle)
        × (first (is_subscription 5) db'.subscriptions ≡ some s')
        × (first (is_subscription 5) (mark_expired_subscriptions_past_due 2592100 db').subscriptions
            ≡ some s'))
    × ((t' : Tenant) × (first (is_tenant 3) db'.tenants ≡ some t')
        × (t'.status ≡ paid_status debtor.status))
confirm_payment_restores_example =
    confirm_payment_restores 100 2592100 transfer late debtor platform refl refl refl refl
      (refl, tt) (omega arith)
