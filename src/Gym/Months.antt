-- ===== src/Gym/Months.antt =====
-- Dates that periods end on.
use fivuza_backend.Prelude.{ℕ, ◌+◌, ◌-◌, ◌*◌, ◌/◌, ◌%◌, ◌≤◌, ◌<◌, ◌≡◌, refl, false, arith}
use fivuza_backend.Result.{ok, raise_if-ok, >>=-eq-ok, ok-injective}
use fivuza_backend.Gym.Dates.{
  Date, IsDate, days_in_month, month_index, shifted, add_months, is_out, in_range, min_ℕ,
}

pub days_in_month_from : (y m : ℕ) → 28 ≤ days_in_month y m
unfolding days_in_month
days_in_month_from y m = ground arith

pub days_in_month_to : (y m : ℕ) → days_in_month y m ≤ 31
unfolding days_in_month
days_in_month_to y m = ground arith

-- The months of the calendar, counted.
abbrev pub month_number : Date → ℕ
month_number d = 12 * d.year + d.month

-- What a date that lies some months on is.
pub record IsMonthsOn (base : Date) (months : ℕ) (d : Date) : Type 0 where
  pub date : IsDate d
  pub counted : month_number d ≡ month_number base + months
  pub clamped : d.day ≡ min_ℕ base.day (days_in_month d.year d.month)
  pub year_to : d.year ≤ 9999

pub in_range-ok : (d d' : Date) → in_range d ≡ ok d' → (d ≡ d') × (is_out d ≡ false)
in_range-ok d d' h = let (_, e, h₁) = >>=-eq-ok _ _ h in (ok-injective h₁, raise_if-ok _ _ e)

pub inside-year : (d : Date) → is_out d ≡ false → (1 ≤ d.year) × (d.year ≤ 9999)
inside-year d h = ground arith

pub add_months-IsMonthsOn :
    (base : Date) (months : ℕ) (d : Date)
    → IsDate base
    → add_months base months ≡ ok d
    → IsMonthsOn base months d
unfolding add_months
add_months-IsMonthsOn base months d h e =
    let y = base.year + month_index base months / 12 in
    let m = month_index base months % 12 in
    let (same, inside) = in_range-ok (shifted base y (m + 1)) d e in
    rw (← same) (
      lands y m (omega arith) (omega (arith, h.month_from))
        (inside-year (shifted base y (m + 1)) inside).1)
  where
    lands :
        (y m : ℕ)
        → m < 12
        → 12 * y + m ≡ 12 * base.year + (base.month - 1 + months)
        → y ≤ 9999
        → IsMonthsOn base months (shifted base y (m + 1))
    lands y m small count to = record {
      date = record {
        month_from = omega arith;
        month_to = omega arith;
        day_from = ground (arith, h.day_from, days_in_month_from y (m + 1));
        day_to = ground arith;
      };
      counted = omega (arith, h.month_from);
      clamped = refl;
      year_to = to;
    }
