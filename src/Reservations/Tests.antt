-- ===== src/Reservations/Tests.antt =====
-- Runs of the reservations, and instances of their theorems.
use fivuza_backend.Prelude.{◌≡◌, refl, pos, ◌+ℤ◌, ◌-ℤ◌, ◌*ℤ◌, [], ◌∷◌, Keyed-nil, arith}
use fivuza_backend.Result.{ok, err, ◌>>=◌, insufficient_stock}
use fivuza_backend.Model.{Db}
use fivuza_backend.Model.Users.{Action}
use fivuza_backend.Model.Sales.{ProductReservation}
use fivuza_backend.Decimals.{round2}
use fivuza_backend.Inventory.{get_or_create, adjust_stock}
use fivuza_backend.Permissions.{closure, resolve_codes, get_permission_codes, check_permission}
use fivuza_backend.Authorization.{consume}
use fivuza_backend.Cash.{assert_can_sell}
use fivuza_backend.Pricing.{
  resolve_unit_price, resolve_active_promotion, resolve_promotion_discount, exceeds_discount_limit,
  discount_percent,
}
use fivuza_backend.Sales.Lines.{prepare_line, prepare_lines}
use fivuza_backend.Sales.Payments.{check_payments, record_payment, record_payments}
use fivuza_backend.Sales.Create.{authorize_discount, record_lines, write_sale, create_sale}
use fivuza_backend.Samples.{env, cashier, regular, session, shop}
use fivuza_backend.Sales.Samples.{cash, made, after}
use fivuza_backend.Reservations.{
  reservation_of, sold_as, get_available_quantity, create_reservation, convert_to_sale,
}
use fivuza_backend.Reservations.Available.{convert_to_sale_moves}
use fivuza_backend.Reservations.Kept.{Covered}
use fivuza_backend.Reservations.Promises.{here, next, reserves, converts, Reach-Covered}

abbrev loaves : ProductReservation
loaves = reservation_of 1 regular 1 1 (pos 300) 2000

abbrev booked : Db
booked = record shop {
  reservations = loaves ∷ [];
  audit_log = record { user = 7; action = Action.reservation_created; entity_id = 1 } ∷ [];
}

reserve_loaves : create_reservation regular 1 1 (pos 300) 2000 7 shop ≡ ok (loaves, booked)
unfolding create_reservation get_available_quantity ◌>>=◌ ◌+ℤ◌ ◌-ℤ◌
reserve_loaves = refl

-- Of twenty units seventeen are left to reserve.
too_many : create_reservation regular 1 1 (pos 1900) 2000 7 booked ≡ err insufficient_stock
unfolding create_reservation get_available_quantity ◌>>=◌ ◌+ℤ◌ ◌-ℤ◌
too_many = refl

abbrev converted_db : Db
converted_db = record after {
  reservations = sold_as 3 loaves ∷ [];
  audit_log =
      record { user = 7; action = Action.reservation_converted; entity_id = 1 }
      ∷ record { user = 7; action = Action.sale_created; entity_id = 3 }
      ∷ booked.audit_log;
}

convert_loaves :
    convert_to_sale env loaves session cashier (cash (pos 1350) ∷ []) booked
    ≡ ok (made, converted_db)
unfolding convert_to_sale create_sale write_sale record_lines record_payments record_payment
    check_payments prepare_lines prepare_line authorize_discount adjust_stock get_or_create
    assert_can_sell ◌>>=◌ resolve_unit_price resolve_active_promotion resolve_promotion_discount
    round2 exceeds_discount_limit discount_percent consume check_permission get_permission_codes
    resolve_codes closure ◌+ℤ◌ ◌-ℤ◌ ◌*ℤ◌
convert_loaves = refl

shop-Covered : Covered shop
unfolding get_available_quantity ◌-ℤ◌
shop-Covered = record { fits = λ v w. ground arith; some_ = tt; keys = Keyed-nil (λ r. r.id) }

Reach-Covered_example : Covered converted_db
Reach-Covered_example = Reach-Covered env shop converted_db shop-Covered (
    next (next here (reserves regular 1 1 (pos 300) 2000 7 (omega arith) reserve_loaves))
      (converts 1 loaves session cashier (cash (pos 1350) ∷ []) refl refl convert_loaves))

convert_to_sale_moves_example :
    get_available_quantity 1 1 converted_db
    ≡ get_available_quantity 1 1 booked +ℤ pos 300 -ℤ pos 300
convert_to_sale_moves_example =
    convert_to_sale_moves env loaves session cashier (cash (pos 1350) ∷ []) booked (omega arith)
      refl convert_loaves 1 1
