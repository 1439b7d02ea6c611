-- ===== src/Gym/Tests.antt =====
-- Instances of the theorems on the gym, and runs of its dates.
use fivuza_backend.Prelude.{ℕ, ◌+◌, ◌≤◌, ◌≡◌, refl, ◌⊎◌, none, some, pos, List, [], ◌∷◌, arith}
use fivuza_backend.Result.{ok, err, ◌>>=◌, date_out_of_range}
use fivuza_backend.Model.Users.{Action}
use fivuza_backend.Gym.Dates.{
  Date, IsDate, days_in_month, days_before_month, days_before_year, to_ordinal, next_day, go_on,
  add_days, add_months, add_period, monthly,
}
use fivuza_backend.Gym.Memberships.{
  Membership, MembershipPlan, active, Gym, cash, create_membership, renew_membership,
  freeze_membership, unfreeze_membership, paused, saved, audited,
}
use fivuza_backend.Gym.Access.{check_access}
use fivuza_backend.Gym.Renewal.{CanEnd, Renewed, renew_membership-Renewed}
use fivuza_backend.Gym.Pauses.{unfreeze_membership-freeze_membership}
use fivuza_backend.Gym.Life.{created, next, freezes, overtaken, Life-unfreezes}
use fivuza_backend.Gym.AccessControl.{check_access-overtaken}
use fivuza_backend.Gym.Classes.{
  GymClass, ClassBooking, reserved, taken, book_class, cancel_booking, with_status, cancelado,
}
use fivuza_backend.Gym.Capacity.{Reach, here, books, cancels, Reach-fits}

abbrev on : ℕ → ℕ → ℕ → Date
on y m d = record { year = y; month = m; day = d }

-- A month after the last of January is the last of February.
short_month : add_months (on 2028 1 31) 1 ≡ ok (on 2028 2 29)
unfolding add_months days_in_month ◌>>=◌
short_month = refl

across_the_year : add_days (on 2026 12 30) (pos 3) ≡ ok (on 2027 1 2)
unfolding add_days go_on next_day days_in_month ◌>>=◌
across_the_year = refl

abbrev plan : MembershipPlan
plan = record { id = 1; price = pos 10000; periodicity = monthly }

abbrev ana : Membership
ana = record {
  id = 1;
  customer = 4;
  plan = plan;
  start_date = on 2026 1 31;
  end_date = on 2026 2 28;
  status = active;
  frozen_since = none;
  group = none;
}

abbrev empty : Gym
empty = record { memberships = []; payments = []; groups = []; log = [] }

abbrev gym : Gym
gym = record { memberships = ana ∷ []; payments = []; groups = []; log = [] }

february : IsDate (on 2026 2 28)
unfolding days_in_month
february = record {
  month_from = omega arith;
  month_to = omega arith;
  day_from = omega arith;
  day_to = omega arith;
}

new_year : IsDate (on 2027 1 1)
unfolding days_in_month
new_year = record {
  month_from = omega arith;
  month_to = omega arith;
  day_from = omega arith;
  day_to = omega arith;
}

february-CanEnd : CanEnd (on 2026 2 28)
february-CanEnd = record { date = february; year_from = omega arith; year_to = omega arith }

new_year-CanEnd : CanEnd (on 2027 1 1)
new_year-CanEnd = record { date = new_year; year_from = omega arith; year_to = omega arith }

renew_membership-Renewed_example :
    (r : Membership × Gym) × (renew_membership (on 2027 1 1) ana 7 (some (pos 10000)) cash gym
      ≡ ok r)
    × Renewed (on 2027 1 1) ana r
renew_membership-Renewed_example =
    renew_membership-Renewed (on 2027 1 1) ana 7 (some (pos 10000)) cash gym new_year-CanEnd
      february-CanEnd refl

within : to_ordinal (on 2026 2 1) ≤ to_ordinal (on 2026 3 1)
unfolding to_ordinal days_before_month days_in_month
within = omega arith

room :
    to_ordinal (on 2026 2 28) + to_ordinal (on 2026 3 1)
    ≤ to_ordinal (on 2027 1 1) + to_ordinal (on 2026 2 1)
unfolding to_ordinal days_before_year days_before_month days_in_month
room = omega arith

unfreeze_membership-freeze_membership_example :
    (end : Date) × (g' : Gym) × IsDate end
    × (to_ordinal end + to_ordinal (on 2026 2 1)
        ≡ to_ordinal (on 2026 2 28) + to_ordinal (on 2026 3 1))
    × ((freeze_membership (on 2026 2 1) ana 7 gym >>= λ r.
          unfreeze_membership (on 2026 3 1) r.0 8 r.1)
        ≡ ok (record ana { end_date = end }, g'))
unfreeze_membership-freeze_membership_example =
    unfreeze_membership-freeze_membership (on 2026 2 1) (on 2026 3 1) (on 2027 1 1) ana 7 8 gym refl
      refl february (omega arith) new_year (omega arith) within room

-- The membership after it is created, and then frozen.
abbrev begun : Gym
begun = audited 7 Action.membership_created 1 gym

created_ana : create_membership 4 plan (on 2026 1 31) 7 empty ≡ ok (ana, begun)
unfolding create_membership add_period add_months days_in_month ◌>>=◌
created_ana = refl

abbrev resting : Gym
resting = audited 7 Action.membership_frozen 1 (saved 1 (paused (on 2026 2 1)) begun)

frozen_ana : freeze_membership (on 2026 2 1) ana 7 begun ≡ ok (paused (on 2026 2 1) ana, resting)
unfolding freeze_membership ◌>>=◌
frozen_ana = refl

Life-unfreezes_example :
    ((r' : Membership × Gym) × (unfreeze_membership
          (on 2026 3 1)
          (paused (on 2026 2 1) ana)
          8
          resting
        ≡ ok r'))
    ⊎ (unfreeze_membership (on 2026 3 1) (paused (on 2026 2 1) ana) 8 resting
        ≡ err date_out_of_range)
Life-unfreezes_example =
    Life-unfreezes (paused (on 2026 2 1) ana, resting) (on 2026 3 1) 8
      (next (created 4 plan (on 2026 1 31) 7 empty created_ana)
        (freezes (on 2026 2 1) 7 frozen_ana))
      refl

check_access-overtaken_example :
    check_access (overtaken (on 2026 3 1) ana) (on 2026 3 1) ≡ check_access ana (on 2026 3 1)
check_access-overtaken_example = check_access-overtaken ana (on 2026 3 1)

-- A class for one, booked, given up and booked again.
abbrev yoga : GymClass
yoga = record { id = 3; instructor = 2; max_capacity = 1; duration_minutes = 60 }

abbrev first_booking : ClassBooking
first_booking = reserved 1 4 yoga (on 2026 3 1)

abbrev second_booking : ClassBooking
second_booking = reserved 2 5 yoga (on 2026 3 1)

abbrev given_up : List ClassBooking
given_up = with_status cancelado first_booking ∷ []

booked_once : book_class 4 yoga (on 2026 3 1) [] ≡ ok (first_booking, first_booking ∷ [])
unfolding book_class ◌>>=◌
booked_once = refl

cancelled_once :
    cancel_booking first_booking (first_booking ∷ [])
    ≡ ok (with_status cancelado first_booking, given_up)
unfolding cancel_booking ◌>>=◌
cancelled_once = refl

booked_again :
    book_class 5 yoga (on 2026 3 1) given_up ≡ ok (second_booking, second_booking ∷ given_up)
unfolding book_class ◌>>=◌
booked_again = refl

run : Reach (λ _. 1) (second_booking ∷ given_up)
run =
    Reach.next
      (Reach.next (Reach.next here (books 4 yoga (on 2026 3 1) (omega arith) booked_once))
        (cancels 1 first_booking refl cancelled_once))
      (books 5 yoga (on 2026 3 1) (omega arith) booked_again)

Reach-fits_example : taken 3 (on 2026 3 1) (second_booking ∷ given_up) ≤ 1
Reach-fits_example = Reach-fits (λ _. 1) (second_booking ∷ given_up) 3 (on 2026 3 1) run
