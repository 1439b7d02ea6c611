-- ===== src/Gym/Renewal.antt =====
-- Renewals and pauses: what they do to the end date.
use fivuza_backend.Prelude.{
  ℕ, ◌+◌, ◌/◌, ◌%◌, ◌≤◌, ◌≡◌, refl, ℤ, arith, true, false, Option, Bool-cases, inl, inr,
}
use fivuza_backend.Result.{ok, ◌>>=◌}
use fivuza_backend.Gym.Dates.{
  Date, IsDate, is_before, in_range, add_months, month_index, shifted, months_of, add_period,
  Periodicity,
}
use fivuza_backend.Gym.Memberships.{
  Membership, active, is_renewable, PaymentMethod, Gym, renewal_base, renew_membership,
}
use fivuza_backend.Gym.Months.{IsMonthsOn, add_months-IsMonthsOn}

pub in_range-is_ok : (d : Date) → 1 ≤ d.year → d.year ≤ 9999 → in_range d ≡ ok d
unfolding ◌>>=◌
in_range-is_ok d from to = ground arith

-- A period of at most a year that starts before 9999 ends on a date.
add_months-is_ok :
    (base : Date) (months : ℕ)
    → months ≤ 12
    → 1 ≤ base.year
    → base.year ≤ 9998
    → IsDate base
    → (d : Date) × (add_months base months ≡ ok d)
unfolding add_months
add_months-is_ok base months few from to h =
    let d =
      shifted base (base.year + month_index base months / 12) (month_index base months % 12 + 1) in
    (d, in_range-is_ok d (omega arith) (omega (arith, h.month_from, h.month_to)))

months_of_pos : (p : Periodicity) → (1 ≤ months_of p) × (months_of p ≤ 12)
months_of_pos p = ground arith

IsMonthsOn-is_before :
    (base : Date) (months : ℕ) (d : Date)
    → IsDate base
    → 1 ≤ months
    → IsMonthsOn base months d
    → is_before base d ≡ true
IsMonthsOn-is_before base months d h some_months on = ground (arith, h, on.date, on.counted)

is_before_trans :
    (a b c : Date) → is_before b a ≡ false → is_before b c ≡ true → is_before a c ≡ true
is_before_trans a b c p q = ground arith

is_before_irreflexive : (a : Date) → is_before a a ≡ false
is_before_irreflexive a = ground arith

is_before_asymmetric : (a b : Date) → is_before a b ≡ true → is_before b a ≡ false
is_before_asymmetric a b h = ground arith

-- A renewal is counted from a date that neither the end date nor today lies after.
record IsBase (today end base : Date) : Type 0 where
  end_to : is_before base end ≡ false
  today_to : is_before base today ≡ false
  date : IsDate base
  year_from : 1 ≤ base.year
  year_to : base.year ≤ 9998

-- What a renewal leaves behind.
pub record Renewed (today : Date) (m : Membership) (r : Membership × Gym) : Type 0 where
  pub active_ : r.0.status ≡ active
  pub later : is_before m.end_date r.0.end_date ≡ true
  pub ahead : is_before today r.0.end_date ≡ true
  pub period :
      IsMonthsOn (renewal_base today m.end_date) (months_of m.plan.periodicity) r.0.end_date

pub record CanEnd (d : Date) : Type 0 where
  pub date : IsDate d
  pub year_from : 1 ≤ d.year
  pub year_to : d.year ≤ 9998

renewal_base-IsBase :
    (today end : Date) → CanEnd today → CanEnd end → IsBase today end (renewal_base today end)
renewal_base-IsBase today end t e = elim (Bool-cases (is_before end today)) [
  | inl p ↦ rw p record {
    end_to = is_before_asymmetric end today p;
    today_to = is_before_irreflexive today;
    date = t.date;
    year_from = t.year_from;
    year_to = t.year_to;
  }
  | inr p ↦ rw p record {
    end_to = is_before_irreflexive end;
    today_to = p;
    date = e.date;
    year_from = e.year_from;
    year_to = e.year_to;
  }
]

-- A membership that is active or expired can be renewed, whatever is paid, if its end date and today
-- are dates of the years 1 to 9998. It is then active, and its end date is one period after the
-- later of its old end date and today: the months of the plan on, with the day cut to the length of
-- the month. So it lies after both.
pub renew_membership-Renewed :
    (today : Date) (m : Membership) (user : ℕ) (amount : Option ℤ) (method : PaymentMethod)
    (g : Gym)
    → CanEnd today
    → CanEnd m.end_date
    → is_renewable m.status ≡ true
    → (r : Membership × Gym) × (renew_membership today m user amount method g ≡ ok r)
      × Renewed today m r
unfolding renew_membership add_period ◌>>=◌
renew_membership-Renewed today m user amount method g t e may =
    let base = renewal_base today m.end_date in
    let months = months_of m.plan.periodicity in
    let b = renewal_base-IsBase today m.end_date t e in
    let (pos_, few) = months_of_pos m.plan.periodicity in
    let (end, lands) = add_months-is_ok base months few b.year_from b.year_to b.date in
    let on = add_months-IsMonthsOn base months end b.date lands in
    let after = IsMonthsOn-is_before base months end b.date pos_ on in
    rw (may, lands)
      (
        _,
        refl,
        record {
          active_ = refl;
          later = is_before_trans m.end_date base end b.end_to after;
          ahead = is_before_trans today base end b.today_to after;
          period = on;
        },
      )
