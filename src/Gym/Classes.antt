-- ===== src/Gym/Classes.antt =====
-- gimnasio/services.py, ClassBookingService.
use fivuza_backend.Prelude.{
  ℕ, suc, Bool, true, false, not, ◌&&◌, List, ◌∷◌, ◌==◌, leb, length, update_where, count_where,
  if◌then◌else◌,
}
use fivuza_backend.Result.{
  Result, ok, ◌>>◌, raise_if, class_full, class_booking_already_cancelled,
  class_booking_not_reserved,
}
use fivuza_backend.Gym.Dates.{Date}

pub data BookingStatus : Type 0 where
  reservado asistio no_asistio cancelado : BookingStatus

-- `status__in=["RESERVADO", "ASISTIO"]`
abbrev pub takes_place : BookingStatus → Bool
takes_place reservado = true
takes_place asistio = true
takes_place _ = false

abbrev pub is_reservado : BookingStatus → Bool
is_reservado reservado = true
is_reservado _ = false

abbrev pub is_cancelado : BookingStatus → Bool
is_cancelado cancelado = true
is_cancelado _ = false

pub record GymClass : Type 0 where
  pub id : ℕ
  pub instructor : ℕ
  pub max_capacity : ℕ
  pub duration_minutes : ℕ

pub record ClassBooking : Type 0 where
  pub id : ℕ
  pub customer : ℕ
  pub gym_class : GymClass
  pub class_date : Date
  pub status : BookingStatus

abbrev pub same_date : Date → Date → Bool
same_date a b = (a.year == b.year) && (a.month == b.month) && (a.day == b.day)

-- The bookings that the capacity of a class on a date counts.
abbrev pub is_taken : ℕ → Date → ClassBooking → Bool
is_taken class_ on b =
    (b.gym_class.id == class_) && same_date b.class_date on && takes_place b.status

abbrev pub taken : ℕ → Date → List ClassBooking → ℕ
taken class_ on bookings = count_where (is_taken class_ on) bookings

-- `ClassBooking.objects.create(…)`
abbrev pub reserved : ℕ → ℕ → GymClass → Date → ClassBooking
reserved i customer gym_class class_date = record {
  id = i;
  customer = customer;
  gym_class = gym_class;
  class_date = class_date;
  status = reservado;
}

unfoldable pub book_class :
    ℕ → GymClass → Date → List ClassBooking → Result (ClassBooking × List ClassBooking)
book_class customer gym_class class_date bookings = do
  raise_if (leb gym_class.max_capacity (taken gym_class.id class_date bookings)) class_full
  let made = reserved (suc (length bookings)) customer gym_class class_date
  ok (made, made ∷ bookings)

abbrev pub has_id : ℕ → ClassBooking → Bool
has_id i b = b.id == i

abbrev pub with_status : BookingStatus → ClassBooking → ClassBooking
with_status status b = record b { status = status }

-- `booking.status = …; booking.save(update_fields=["status"])`
abbrev pub saved :
    ClassBooking → BookingStatus → List ClassBooking → ClassBooking × List ClassBooking
saved b status bookings =
    (with_status status b, update_where (has_id b.id) (with_status status) bookings)

unfoldable pub mark_attendance :
    ClassBooking → Bool → List ClassBooking → Result (ClassBooking × List ClassBooking)
mark_attendance b attended bookings = do
  raise_if (not (is_reservado b.status)) class_booking_not_reserved
  ok (saved b (if attended then asistio else no_asistio) bookings)

unfoldable pub cancel_booking :
    ClassBooking → List ClassBooking → Result (ClassBooking × List ClassBooking)
cancel_booking b bookings = do
  raise_if (is_cancelado b.status) class_booking_already_cancelled
  ok (saved b cancelado bookings)
