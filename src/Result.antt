-- ===== src/Result.antt =====
-- The outcome of a service call: a value, or the `APIException`/`ValidationError` that it raises.
-- A call under `transaction.atomic` that raises leaves no trace, so the error carries no state.
use fivuza_backend.Prelude.{◌≡◌, refl, Bool, true, false, if◌then◌else◌}

-- `default_code` of the exceptions; `invalid` and `invalid_request` are the `ValidationError` of
-- Django and of its REST framework, which have no code of their own.
pub data Error : Type 0 where
  invalid invalid_request does_not_exist division_by_zero integrity_error : Error
  insufficient_stock payment_mismatch no_cash_session : Error
  sale_not_completed sale_has_returns cash_session_closed return_exceeds_sold : Error
  cash_session_already_open cash_session_not_open cash_session_already_counted : Error
  cash_session_not_owned counted_amount_required : Error
  walk_in_credit_not_allowed walk_in_balance_not_allowed : Error
  credit_limit_exceeded insufficient_balance : Error
  supervisor_authorization_required supervisor_authorization_invalid : Error
  reservation_not_active quote_not_accepted quote_already_converted quote_expired : Error
  membership_not_active membership_not_frozen membership_not_renewable : Error
  membership_already_cancelled class_full class_booking_already_cancelled : Error
  class_booking_not_reserved membership_group_too_small : Error
  payment_already_confirmed invalid_discount cannot_reactivate_canceled : Error
  date_out_of_range type_error cannot_delete_system_role role_in_use protected_error : Error
  tenant_suspended tenant_canceled tenant_already_canceled terms_not_accepted : Error
  tenant_retention_period_expired customer_not_found cash_session_not_found : Error
  warehouse_access_denied open_attendance_exists attendance_already_closed : Error
  payroll_already_exists payroll_already_paid : Error

pub data Result {ℓ} (A : Type ℓ) : Type ℓ where
  ok : A → Result A
  err : Error → Result A

-- `if condition: raise error`
abbrev pub raise_if : Bool → Error → Result (Unit {0})
raise_if true e = err e
raise_if false e = ok tt

-- Shut, so that a proof can take a chain apart by `>>=-eq-ok`.
infixl 5 ◌>>=◌ ◌>>◌
unfoldable pub ◌>>=◌ {ℓ κ} : {A : Type ℓ} {B : Type κ} → Result A → (A → Result B) → Result B
err e >>= next = err e
ok a >>= next = next a

abbrev pub ◌>>◌ {ℓ} : {B : Type ℓ} → Result (Unit {0}) → Result B → Result B
check >> rest = check >>= λ _. rest

pub raise_if-ok : (b : Bool) (e : Error) {u : Unit {0}} → raise_if b e ≡ ok u → b ≡ false
raise_if-ok true e h = cc
raise_if-ok false e h = refl

-- What a successful chain has done first, and then.
pub >>=-eq-ok {ℓ κ} :
    {A : Type ℓ} {B : Type κ} (call : Result A) (next : A → Result B) {b : B}
    → (call >>= next) ≡ ok b
    → (a : A) × (call ≡ ok a) × (next a ≡ ok b)
unfolding ◌>>=◌
>>=-eq-ok (err e) next h = cc
>>=-eq-ok (ok a) next h = (a, refl, h)

pub raise_if-bind {ℓ} :
    {A : Type ℓ} (b : Bool) (e : Error) (r : Result A)
    → (raise_if b e >> r) ≡ (if b then err e else r)
unfolding ◌>>=◌
raise_if-bind true e r = refl
raise_if-bind false e r = refl

-- A call that tests once and then returns has passed the test and returned that value.
pub guarded-ok {ℓ} :
    {A : Type ℓ} (b : Bool) (e : Error) {a a' : A}
    → (if b then err e else ok a) ≡ ok a'
    → (b ≡ false) × (a' ≡ a)
guarded-ok true e h = cc
guarded-ok false e h = (refl, cc)

pub ok-injective {ℓ} : {A : Type ℓ} {a b : A} → ok a ≡ ok b → a ≡ b
ok-injective h = cc
