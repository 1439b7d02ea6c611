-- ===== src/Billing.antt =====
-- core/services/billing.py: payments of a subscription and its discounts, and the nightly marking of
-- the subscriptions that expired (core/tasks.py).
mod Tests
pub mod Restored
use fivuza_backend.Prelude.{
  ℕ, ◌+◌, ℤ, pos, ◌-ℤ◌, ◌*ℤ◌, Bool, true, false, not, ◌&&◌, ◌||◌, Option, none, some, List, [], ◌∷◌,
  ◌==◌, ltb, any, first, update_where, if◌then◌else◌,
}
use fivuza_backend.Result.{
  Error, Result, ok, err, ◌>>=◌, ◌>>◌, raise_if, does_not_exist, payment_already_confirmed,
  invalid_discount, type_error,
}
use fivuza_backend.Decimals.{round2}
use fivuza_backend.Tenants.{
  Tenant, is_suspended, Platform, Subscription, SubscriptionStatus, active, past_due, canceled,
  SubscriptionPayment, SubscriptionPaymentStatus, SubscriptionDiscount, seconds_of, cycle_days,
  cycle_price, reactivate_tenant,
}

abbrev pub is_paid : SubscriptionPaymentStatus → Bool
is_paid SubscriptionPaymentStatus.paid = true
is_paid _ = false

abbrev pub is_payment : ℕ → SubscriptionPayment → Bool
is_payment i p = p.id == i

abbrev pub is_subscription : ℕ → Subscription → Bool
is_subscription i s = s.id == i

abbrev pub is_tenant : ℕ → Tenant → Bool
is_tenant i t = t.id == i

-- A row that a foreign key names.
abbrev pub referred : {A : Type 0} → Option A → Result A
referred (some a) = ok a
referred none = err does_not_exist

unfoldable pub create_discount : ℕ → Option ℤ → Option ℤ → Option ℕ → Platform → Result Platform
create_discount subscription (some percent) none expires_at db = ok (record db {
  discounts =
      record {
        subscription = subscription;
        discount_percent = some percent;
        override_price = none;
        expires_at = expires_at;
      }
      ∷ db.discounts;
})
create_discount subscription none (some price) expires_at db = ok (record db {
  discounts =
      record {
        subscription = subscription;
        discount_percent = none;
        override_price = some price;
        expires_at = expires_at;
      }
      ∷ db.discounts;
})
create_discount subscription none none expires_at db = err invalid_discount
create_discount subscription (some _) (some _) expires_at db = err invalid_discount

abbrev pub is_valid : ℕ → Option ℕ → Bool
is_valid now none = true
is_valid now (some expires_at) = ltb now expires_at

abbrev pub is_current : ℕ → ℕ → SubscriptionDiscount → Bool
is_current now subscription d = (d.subscription == subscription) && is_valid now d.expires_at

-- The newest row is the first.
unfoldable pub get_active_discount : ℕ → ℕ → List SubscriptionDiscount → Option SubscriptionDiscount
get_active_discount now subscription discounts = first (is_current now subscription) discounts

-- The price of the plan less the percentage.
abbrev pub discounted : ℤ → Option ℤ → Result ℤ
discounted price (some percent) = ok (round2 (price *ℤ (pos 10000 -ℤ percent)) 10000)
discounted price none = err type_error

unfoldable pub apply_discount : Subscription → SubscriptionDiscount → Result ℤ
apply_discount s d = elim d.override_price [
  | some price ↦ ok price
  | none ↦ discounted (cycle_price s.billing_cycle s.plan) d.discount_percent
]

abbrev pub restored : SubscriptionStatus → SubscriptionStatus
restored past_due = active
restored active = active
restored canceled = canceled

abbrev pub max_of : ℕ → ℕ → ℕ
max_of a b = if ltb a b then b else a

-- The subscription with a later end, from its end or from now.
abbrev pub extended : ℕ → Subscription → Subscription
extended now s = record s {
  expires_at = max_of s.expires_at now + seconds_of (cycle_days s.billing_cycle);
  status = restored s.status;
}

-- A discount that is valid sets the price that is charged.
abbrev pub with_price : Subscription → Option SubscriptionDiscount → Result Subscription
with_price s none = ok s
with_price s (some d) = do price ← apply_discount s d; ok (record s { price_paid = price })

-- `if subscription.tenant.status == "suspended": reactivate_tenant(…)`
abbrev pub restored_tenant : Tenant → Result Tenant
restored_tenant t = if is_suspended t.status then reactivate_tenant t else ok t

abbrev pub confirmed : ℕ → SubscriptionPayment → SubscriptionPayment
confirmed now p = record p { status = SubscriptionPaymentStatus.paid; paid_at = some now }

-- `save(update_fields=…)`
abbrev pub saved_subscription : Subscription → Subscription → Subscription
saved_subscription s row = record row {
  expires_at = s.expires_at;
  status = s.status;
  price_paid = s.price_paid;
}

abbrev pub saved_tenant : Tenant → Tenant → Tenant
saved_tenant t row = record row { status = t.status; suspended_at = t.suspended_at }

-- The writes of one confirmation are put together at its end: what raises before leaves none here.
unfoldable pub confirm_payment : ℕ → SubscriptionPayment → Platform → Result Platform
confirm_payment now payment db = do
  raise_if (is_paid payment.status) payment_already_confirmed
  s ← referred (first (is_subscription payment.subscription) db.subscriptions)
  s' ← with_price (extended now s) (get_active_discount now s.id db.discounts)
  t ← referred (first (is_tenant s.tenant) db.tenants)
  t' ← restored_tenant t
  ok (record db {
    payments = update_where (is_payment payment.id) (confirmed now) db.payments;
    subscriptions = update_where (is_subscription s.id) (saved_subscription s') db.subscriptions;
    tenants = update_where (is_tenant t.id) (saved_tenant t') db.tenants;
  })

abbrev pub is_running : SubscriptionStatus → Bool
is_running active = true
is_running past_due = false
is_running canceled = false

abbrev pub is_expired : ℕ → Subscription → Bool
is_expired now s = is_running s.status && ltb s.expires_at now

abbrev pub overdue : Subscription → Subscription
overdue s = record s { status = past_due }

-- `_mark_expired_subscriptions_past_due`
unfoldable pub mark_expired_subscriptions_past_due : ℕ → Platform → Platform
mark_expired_subscriptions_past_due now db = record db {
  subscriptions = update_where (is_expired now) overdue db.subscriptions;
}
