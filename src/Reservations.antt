-- ===== src/Reservations.antt =====
-- ventas/services/reservations.py, ReservationService: stock that is set aside for a customer.
mod Tests
pub mod Sold
pub mod Available
pub mod Kept
pub mod Promises
use fivuza_backend.Prelude.{
  ℕ, suc, ℤ, pos, ◌+ℤ◌, ◌-ℤ◌, ltb_ℤ, Bool, true, false, not, ◌&&◌, Option, none, some, List, [],
  ◌∷◌, ◌==◌, ltb, if◌then◌else◌, update_where, count_where, length,
}
use fivuza_backend.Result.{
  Result, ok, ◌>>=◌, ◌>>◌, raise_if, insufficient_stock, reservation_not_active,
}
use fivuza_backend.Model.{Db}
use fivuza_backend.Model.Users.{User, Action}
use fivuza_backend.Model.Sales.{
  Customer, CashSession, Sale, ProductReservation, ReservationStatus, active, converted, expired,
  cancelled,
}
use fivuza_backend.Inventory.{quantity_in, logged}
use fivuza_backend.Authorization.{Env}
use fivuza_backend.Sales.Lines.{SaleLine}
use fivuza_backend.Sales.Payments.{Payment}
use fivuza_backend.Sales.Create.{SaleRequest, DiscountLimit, create_sale}

abbrev pub is_held : ReservationStatus → Bool
is_held active = true
is_held _ = false

-- `filter(variant=…, warehouse=…, status="ACTIVE")`
abbrev pub holds : ℕ → ℕ → ProductReservation → Bool
holds v w r = (r.variant == v) && (r.warehouse == w) && is_held r.status

-- `aggregate(total=Sum("quantity"))["total"] or 0`
abbrev pub reserved_in : List ProductReservation → ℕ → ℕ → ℤ
reserved_in [] v w = pos 0
reserved_in (r ∷ rs) v w = (if holds v w r then r.quantity else pos 0) +ℤ reserved_in rs v w

unfoldable pub get_available_quantity : ℕ → ℕ → Db → ℤ
get_available_quantity v w db = quantity_in db.stocks v w -ℤ reserved_in db.reservations v w

-- `ProductReservation.objects.create(…)`
abbrev pub reservation_of : ℕ → Customer → ℕ → ℕ → ℤ → ℕ → ProductReservation
reservation_of i customer variant warehouse quantity expires_at = record {
  id = i;
  customer = customer;
  variant = variant;
  warehouse = warehouse;
  quantity = quantity;
  expires_at = expires_at;
  status = active;
  sale = none;
}

unfoldable pub create_reservation :
    Customer → ℕ → ℕ → ℤ → ℕ → ℕ → Db → Result (ProductReservation × Db)
create_reservation customer variant warehouse quantity expires_at user db = do
  raise_if (ltb_ℤ (get_available_quantity variant warehouse db) quantity) insufficient_stock
  let made =
      reservation_of (suc (length db.reservations)) customer variant warehouse quantity expires_at
  ok (
    made,
    record db {
      reservations = made ∷ db.reservations;
      audit_log = logged user Action.reservation_created made.id db.audit_log;
    },
  )

abbrev pub has_key : ℕ → ProductReservation → Bool
has_key i r = r.id == i

abbrev pub closed_as : ReservationStatus → ProductReservation → ProductReservation
closed_as status r = record r { status = status }

unfoldable pub cancel_reservation : ProductReservation → ℕ → Db → Result (ProductReservation × Db)
cancel_reservation r user db = do
  raise_if (not (is_held r.status)) reservation_not_active
  ok (
    closed_as cancelled r,
    record db {
      reservations = update_where (has_key r.id) (closed_as cancelled) db.reservations;
      audit_log = logged user Action.reservation_cancelled r.id db.audit_log;
    },
  )

-- The arguments of the sale: the variant at the catalogue's price, to the customer.
abbrev pub sale_request : ProductReservation → CashSession → User → List Payment → SaleRequest
sale_request r session user payments = record {
  customer = r.customer;
  cash_session = session;
  user = user;
  lines =
      record {
        variant_id = r.variant;
        quantity = record { hundredths = r.quantity; over = 1 };
        unit_price = none;
        discount_amount = none;
      }
      ∷ [];
  payments = payments;
  client_side_uuid = none;
  allow_oversell = false;
  at_time = none;
  authorization_token = none;
  discount_limit = DiscountLimit.enforce;
}

abbrev pub sold_as : ℕ → ProductReservation → ProductReservation
sold_as sale r = record r { status = converted; sale = some sale }

unfoldable pub convert_to_sale :
    Env → ProductReservation → CashSession → User → List Payment → Db → Result (Sale × Db)
convert_to_sale env r session user payments db = do
  raise_if (not (is_held r.status)) reservation_not_active
  (sale, warnings, db₁) ← create_sale env (sale_request r session user payments) db
  ok (
    sale,
    record db₁ {
      reservations = update_where (has_key r.id) (sold_as sale.id) db₁.reservations;
      audit_log = logged user.id Action.reservation_converted r.id db₁.audit_log;
    },
  )

abbrev pub is_past_due : ℕ → ProductReservation → Bool
is_past_due at_time r = is_held r.status && ltb r.expires_at at_time

-- How many it expires, and the tables.
unfoldable pub expire_overdue_reservations : ℕ → Db → ℕ × Db
expire_overdue_reservations at_time db = (
  count_where (is_past_due at_time) db.reservations,
  record db {
    reservations = update_where (is_past_due at_time) (closed_as expired) db.reservations;
  },
)
