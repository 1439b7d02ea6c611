-- ===== src/Billing/Restored.antt =====
-- What a confirmed payment gives back: the subscription and the access of the tenant.
use fivuza_backend.Prelude.{
  ℕ, ◌+◌, ◌*◌, leb, ◌≤◌, ℤ, ◌≡◌, refl, ◌∙◌, Bool, true, false, ◌&&◌, Option, none, some, ==-self,
  ltb, All, first, update_where, first-update_where, first-All, Bool-cases, inl, inr, arith,
  if◌then◌else◌,
}
use fivuza_backend.Result.{Result, ok, err, ◌>>=◌, payment_already_confirmed}
use fivuza_backend.Tenants.{
  Tenant, TenantStatus, Platform, Subscription, SubscriptionStatus, SubscriptionPayment,
  SubscriptionPaymentStatus, SubscriptionDiscount, seconds_of, BillingCycle, monthly, semiannual,
  annual, cycle_days, cycle_price, reactivate_tenant,
}
use fivuza_backend.Billing.{
  is_paid, is_subscription, is_tenant, is_payment, is_current, get_active_discount, discounted,
  apply_discount, max_of, extended, with_price, restored, restored_tenant, saved_subscription,
  saved_tenant, confirmed, confirm_payment, is_running, is_expired, overdue,
  mark_expired_subscriptions_past_due,
}

-- A discount is one of the two, as `create_discount` makes it.
abbrev pub one_of : Option ℤ → Option ℤ → Bool
one_of (some _) none = true
one_of none (some _) = true
one_of none none = false
one_of (some _) (some _) = false

abbrev pub has_terms : SubscriptionDiscount → Bool
has_terms d = one_of d.discount_percent d.override_price

-- What a subscription and a tenant are after a payment, and the days of a cycle.
abbrev pub renewed_status : SubscriptionStatus → SubscriptionStatus
renewed_status SubscriptionStatus.past_due = SubscriptionStatus.active
renewed_status SubscriptionStatus.active = SubscriptionStatus.active
renewed_status SubscriptionStatus.canceled = SubscriptionStatus.canceled

abbrev pub paid_days : BillingCycle → ℕ
paid_days monthly = 30
paid_days semiannual = 182
paid_days annual = 365

abbrev pub paid_status : TenantStatus → TenantStatus
paid_status TenantStatus.suspended = TenantStatus.active
paid_status TenantStatus.active = TenantStatus.active
paid_status TenantStatus.trial = TenantStatus.trial
paid_status TenantStatus.canceled = TenantStatus.canceled

apply_discount-ok :
    (s : Subscription) (d : SubscriptionDiscount)
    → has_terms d ≡ true
    → (price : ℤ) × (apply_discount s d ≡ ok price)
unfolding apply_discount
apply_discount-ok s d h = by_terms d.discount_percent d.override_price h
  where
    by_terms :
        (percent override : Option ℤ)
        → one_of percent override ≡ true
        → (price : ℤ) × (elim override as (λ _. Result ℤ) [
          | some p ↦ ok p
          | none ↦ discounted (cycle_price s.billing_cycle s.plan) percent
        ]
            ≡ ok price)
    by_terms (some _) none e = (_, refl)
    by_terms none (some p) e = (p, refl)
    by_terms none none e = cc
    by_terms (some _) (some _) e = cc

-- Whatever the discounts, only the price is another one.
with_price-ok :
    (s : Subscription) (o : Option SubscriptionDiscount)
    → ((d : SubscriptionDiscount) → o ≡ some d → has_terms d ≡ true)
    → (price : ℤ) × (with_price s o ≡ ok (record s { price_paid = price }))
unfolding ◌>>=◌
with_price-ok s none h = (s.price_paid, refl)
with_price-ok s (some d) h = let (price, e) = apply_discount-ok s d (h d refl) in (price, rw e refl)

restored_tenant-ok :
    (t : Tenant) → (t' : Tenant) × (restored_tenant t ≡ ok t') × (t'.status ≡ paid_status t.status)
unfolding reactivate_tenant ◌>>=◌
restored_tenant-ok t = by_status t.status refl
  where
    by_status :
        (status : TenantStatus)
        → t.status ≡ status
        → (t' : Tenant) × (restored_tenant t ≡ ok t') × (t'.status ≡ paid_status t.status)
    by_status TenantStatus.suspended e =
        (record t { status = TenantStatus.active; suspended_at = none }, rw e refl, rw e refl)
    by_status TenantStatus.active e = (t, rw e refl, rw e refl)
    by_status TenantStatus.trial e = (t, rw e refl, rw e refl)
    by_status TenantStatus.canceled e = (t, rw e refl, rw e refl)

restored_lem : (status : SubscriptionStatus) → restored status ≡ renewed_status status
restored_lem SubscriptionStatus.past_due = refl
restored_lem SubscriptionStatus.active = refl
restored_lem SubscriptionStatus.canceled = refl

-- The end is one cycle after the later of two times.
extended_lem :
    (a b : ℕ) (cycle : BillingCycle)
    → max_of a b + seconds_of (cycle_days cycle)
      ≡ (if leb a b then b else a) + 86400 * paid_days cycle
extended_lem a b cycle = by_cycle cycle
  where
    later : max_of a b ≡ (if leb a b then b else a)
    later = ground arith

    by_cycle :
        (cycle : BillingCycle)
        → max_of a b + seconds_of (cycle_days cycle)
          ≡ (if leb a b then b else a) + 86400 * paid_days cycle
    by_cycle monthly = omega (arith, later)
    by_cycle semiannual = omega (arith, later)
    by_cycle annual = omega (arith, later)

abbrev pub paid_payment : ℕ → SubscriptionPayment → SubscriptionPayment
paid_payment now p = record p { status = SubscriptionPaymentStatus.paid; paid_at = some now }

a_month : (cycle : BillingCycle) → 30 ≤ cycle_days cycle
a_month monthly = omega arith
a_month semiannual = omega arith
a_month annual = omega arith

further :
    (a b d later : ℕ)
    → 30 ≤ d
    → later ≤ b + seconds_of 30
    → ltb (max_of a b + seconds_of d) later ≡ false
further a b d later h le = elim (Bool-cases (ltb a b)) [
  | inl e ↦ rw e (ground (arith, h, le))
  | inr e ↦ rw e (ground (arith, h, le, e))
]

and_false : (b c : Bool) → c ≡ false → (b && c) ≡ false
and_false true c h = h
and_false false c h = refl

-- A subscription that ends late enough is left as it is.
mark_expired-kept :
    (later i : ℕ) (s : Subscription) (db : Platform)
    → first (is_subscription i) db.subscriptions ≡ some s
    → ltb s.expires_at later ≡ false
    → first (is_subscription i) (mark_expired_subscriptions_past_due later db).subscriptions
      ≡ some s
unfolding mark_expired_subscriptions_past_due
mark_expired-kept later i s db h e =
    first-update_where (is_subscription i) (is_expired later) overdue (λ x. refl) db.subscriptions s
      h
    ∙ rw (and_false (is_running s.status) _ e) refl

-- A payment that was not confirmed, and is there with its subscription and tenant, is always confirmed,
-- when every discount is a percentage or a price; it is then paid and is not confirmed again. The
-- subscription ends 30, 182 or 365 days, as its cycle is, after its end or after now, whichever is later;
-- one that was past due is active, one that was canceled stays so. A tenant who was suspended is active;
-- one who was canceled stays so. For thirty days from now the nightly marking leaves the subscription as
-- it is.
pub confirm_payment_restores :
    (now later : ℕ) (p : SubscriptionPayment) (s : Subscription) (t : Tenant) (db : Platform)
    → is_paid p.status ≡ false
    → first (is_payment p.id) db.payments ≡ some p
    → first (is_subscription p.subscription) db.subscriptions ≡ some s
    → first (is_tenant s.tenant) db.tenants ≡ some t
    → All (λ d. has_terms d ≡ true) db.discounts
    → later ≤ now + 30 * 86400
    → (db' : Platform) × (confirm_payment now p db ≡ ok db')
      × (first (is_payment p.id) db'.payments ≡ some (paid_payment now p))
      × (confirm_payment later (paid_payment now p) db' ≡ err payment_already_confirmed)
      × ((s' : Subscription) × (s'.status ≡ renewed_status s.status)
          × (s'.expires_at
              ≡ (if leb s.expires_at now then now else s.expires_at)
                + 86400 * paid_days s.billing_cycle)
          × (first (is_subscription p.subscription) db'.subscriptions ≡ some s')
          × (first
                (is_subscription p.subscription)
                (mark_expired_subscriptions_past_due later db').subscriptions
              ≡ some s'))
      × ((t' : Tenant) × (first (is_tenant s.tenant) db'.tenants ≡ some t')
          × (t'.status ≡ paid_status t.status))
unfolding confirm_payment get_active_discount ◌>>=◌
confirm_payment_restores now later p s t db unpaid there mine owner terms soon =
    let (price, e) =
      with_price-ok (extended now s) (get_active_discount now s.id db.discounts)
        (λ d. first-All (is_current now s.id) (λ x. has_terms x ≡ true) d db.discounts terms) in
    let (t', restores, status) = restored_tenant-ok t in
    let s' : Subscription = record (extended now s) { price_paid = price } in
    let db' : Platform = record db {
      payments = update_where (is_payment p.id) (confirmed now) db.payments;
      subscriptions = update_where (is_subscription s.id) (saved_subscription s') db.subscriptions;
      tenants = update_where (is_tenant t.id) (saved_tenant t') db.tenants;
    } in
    let kept : first (is_subscription p.subscription) db'.subscriptions ≡ some s' =
      first-update_where (is_subscription p.subscription) (is_subscription s.id)
        (saved_subscription s') (λ x. refl) db.subscriptions s mine
      ∙ rw (==-self s.id) refl in
    (
      db',
      rw (unpaid, mine, e, owner, restores) refl,
      first-update_where (is_payment p.id) (is_payment p.id) (confirmed now) (λ x. refl) db.payments
            p there
          ∙ rw (==-self p.id) refl,
      refl,
      (
        s',
        restored_lem s.status,
        extended_lem s.expires_at now s.billing_cycle,
        kept,
        mark_expired-kept later p.subscription s' db' kept (
            further s.expires_at now (cycle_days s.billing_cycle) later (a_month s.billing_cycle)
              soon),
      ),
      (
        saved_tenant t' t,
        first-update_where (is_tenant s.tenant) (is_tenant t.id) (saved_tenant t') (λ x. refl)
              db.tenants t owner
            ∙ rw (==-self t.id) refl,
        status,
      ),
    )
