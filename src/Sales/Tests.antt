-- ===== src/Sales/Tests.antt =====
-- Instances of the theorems on sales, and runs.
use fivuza_backend.Prelude.{
  All, ℕ, pos, ◌+ℤ◌, ◌-ℤ◌, ◌*ℤ◌, ◌≡◌, refl, false, none, some, [], ◌∷◌, ◌==◌, if◌then◌else◌, ◌⊎◌,
  arith,
}
use fivuza_backend.Result.{
  ok, err, ◌>>=◌, payment_mismatch, invalid, supervisor_authorization_required,
  cash_session_not_owned,
}
use fivuza_backend.Decimals.{round2}
use fivuza_backend.Inventory.{get_or_create, adjust_stock}
use fivuza_backend.Inventory.Kardex.{IsLedger}
use fivuza_backend.Permissions.{closure, resolve_codes, get_permission_codes, check_permission}
use fivuza_backend.Authorization.{consume}
use fivuza_backend.Cash.{assert_can_sell}
use fivuza_backend.Pricing.{
  resolve_unit_price, resolve_active_promotion, resolve_promotion_discount, discount_percent,
  exceeds_discount_limit,
}
use fivuza_backend.Sales.Lines.{prepare_line, prepare_lines, Cart}
use fivuza_backend.Sales.Payments.{check_payments, record_payment, record_payments, payments_total}
use fivuza_backend.Sales.Create.{authorize_discount, record_lines, write_sale, create_sale}
use fivuza_backend.Inventory.{quantity_in}
use fivuza_backend.Sales.Deliveries.{asked_of, create_sale_delivers}
use fivuza_backend.Permissions.{check_permission}
use fivuza_backend.Sales.Rows.{details_total, paid_in}
use fivuza_backend.Sales.Totals.{create_sale_adds_up}
use fivuza_backend.Sales.Stocks.{InStock, create_sale-IsLedger}
use fivuza_backend.Sales.Outcome.{Accepted}
use fivuza_backend.Sales.Discounts.{IsAllowed, HasTokenFor, create_sale-HasToken}
use fivuza_backend.Sales.Highest.{manual_percents}
use fivuza_backend.Samples.{env, shop, cashier, supervisor}
use fivuza_backend.Sales.Samples.{units, loaves, cash, request, made, after}

sale_of_bread : create_sale env request shop ≡ ok (made, 0, after)
unfolding create_sale write_sale record_lines record_payments record_payment check_payments
    prepare_lines prepare_line authorize_discount adjust_stock get_or_create assert_can_sell ◌>>=◌
    resolve_unit_price resolve_active_promotion resolve_promotion_discount round2
    exceeds_discount_limit ◌+ℤ◌ ◌-ℤ◌ ◌*ℤ◌
sale_of_bread = refl

too_little :
    create_sale env (record request { payments = cash (pos 1300) ∷ [] }) shop ≡ err payment_mismatch
unfolding create_sale write_sale record_lines record_payments record_payment check_payments
    prepare_lines prepare_line authorize_discount adjust_stock get_or_create assert_can_sell ◌>>=◌
    resolve_unit_price resolve_active_promotion resolve_promotion_discount round2
    exceeds_discount_limit ◌+ℤ◌ ◌-ℤ◌ ◌*ℤ◌
too_little = refl

-- Two lines of one variant that ask for the same quantity: the second one is refused.
equal_lines :
    create_sale env
      (record request {
        lines = loaves (pos 300) ∷ loaves (pos 300) ∷ [];
        payments = cash (pos 2700) ∷ [];
      })
      shop
    ≡ err invalid
unfolding create_sale write_sale record_lines record_payments record_payment check_payments
    prepare_lines prepare_line authorize_discount adjust_stock get_or_create assert_can_sell ◌>>=◌
    resolve_unit_price resolve_active_promotion resolve_promotion_discount round2
    exceeds_discount_limit discount_percent consume check_permission get_permission_codes
    resolve_codes closure ◌+ℤ◌ ◌-ℤ◌ ◌*ℤ◌
equal_lines = refl

-- 20% off by hand needs a supervisor when the role allows 10%.
by_hand :
    create_sale env
      (record request {
        lines =
            record {
              variant_id = 1;
              quantity = units (pos 300);
              unit_price = none;
              discount_amount = some (units (pos 300));
            }
            ∷ [];
        payments = cash (pos 1200) ∷ [];
      })
      shop
    ≡ err supervisor_authorization_required
unfolding create_sale write_sale record_lines record_payments record_payment check_payments
    prepare_lines prepare_line authorize_discount adjust_stock get_or_create assert_can_sell ◌>>=◌
    resolve_unit_price resolve_active_promotion resolve_promotion_discount round2
    exceeds_discount_limit discount_percent consume check_permission get_permission_codes
    resolve_codes closure ◌+ℤ◌ ◌-ℤ◌ ◌*ℤ◌
by_hand = refl

-- A session of the cashier takes no sale of the supervisor.
not_hers : create_sale env (record request { user = supervisor }) shop ≡ err cash_session_not_owned
unfolding create_sale assert_can_sell ◌>>=◌
not_hers = refl

create_sale_adds_up_example :
    (after.sales ≡ made ∷ shop.sales)
    × (made.total ≡ made.subtotal -ℤ made.discount_total)
    × (payments_total request.payments ≡ made.total)
    × ((i : ℕ)
        → details_total i after.details
          ≡ (if made.id == i then made.total else pos 0) +ℤ details_total i shop.details)
    × ((i : ℕ)
        → paid_in i after.payments
          ≡ (if made.id == i then made.total else pos 0) +ℤ paid_in i shop.payments)
create_sale_adds_up_example = create_sale_adds_up env request shop sale_of_bread

kept : IsLedger shop
unfolding ◌+ℤ◌ ◌-ℤ◌
kept = record { balanced = λ v w. ground arith; traced = (omega arith, refl, tt) }

create_sale-IsLedger_example : IsLedger after × (false ≡ false → InStock shop → InStock after)
create_sale-IsLedger_example = create_sale-IsLedger env request shop kept sale_of_bread

create_sale-HasToken_example :
    (cart : Cart) × Accepted env request shop cart
    × (All (IsAllowed cashier shop) (manual_percents request.lines cart.prepared_lines)
        ⊎ HasTokenFor env request shop (manual_percents request.lines cart.prepared_lines))
create_sale-HasToken_example = create_sale-HasToken env request shop refl sale_of_bread

create_sale_delivers_example :
    quantity_in after.stocks 1 1 ≡ quantity_in shop.stocks 1 1 -ℤ asked_of 1 request.lines
create_sale_delivers_example = create_sale_delivers env request shop (tt, tt) sale_of_bread 1 1
