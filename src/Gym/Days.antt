-- ===== src/Gym/Days.antt =====
-- Dates as days that are counted: what `timedelta` adds.
use native.Mathlib.Numerals.{unary_clauses}
use fivuza_backend.Prelude.{
  ℕ, zero, suc, ◌+◌, ◌-◌, ◌≤◌, ◌≡◌, refl, ℤ, pos, negsuc, ◌+ℤ◌, int_laws, arith, if◌then◌else◌,
  Bool-cases, inl, inr,
}
use fivuza_backend.Result.{ok}
use fivuza_backend.Gym.Dates.{
  Date, IsDate, is_leap, days_in_month, days_before_month, days_before_year, to_ordinal, next_day,
  previous_day, go_on, go_back, moved, add_days,
}
use fivuza_backend.Gym.Months.{days_in_month_from, in_range-ok, inside-year}

pub days_before_month-suc :
    (y m : ℕ) → 1 ≤ m → days_before_month y (m + 1) ≡ days_before_month y m + days_in_month y m
unfolding days_before_month
days_before_month-suc y zero h = omega arith
days_before_month-suc y (suc m) h = simp unary_clauses refl

year_of_months : (y : ℕ) → days_before_month y 12 + 31 ≡ (if is_leap y then 366 else 365)
unfolding days_before_month days_in_month
year_of_months y = elim (Bool-cases (is_leap y)) [ inl e ↦ rw e refl | inr e ↦ rw e refl ]

pub days_before_year-suc :
    (y : ℕ) → days_before_year (y + 1) ≡ days_before_year y + (days_before_month y 12 + 31)
unfolding days_before_year
days_before_year-suc y = rw (year_of_months y) (simp unary_clauses refl)

december : (y : ℕ) → days_in_month y 12 ≡ 31
unfolding days_in_month
december y = refl

january : (y : ℕ) → days_before_month y 1 ≡ 0
unfolding days_before_month
january y = refl

pub next_day-IsDate : (d : Date) → IsDate d → IsDate (next_day d)
unfolding next_day
next_day-IsDate d h = record {
  month_from = ground (arith, h);
  month_to = ground (arith, h);
  day_from = ground (arith, h);
  day_to =
      ground (arith, h, days_in_month_from d.year (d.month + 1), days_in_month_from (d.year + 1) 1);
}

pub previous_day-IsDate : (d : Date) → IsDate d → IsDate (previous_day d)
unfolding previous_day
previous_day-IsDate d h = record {
  month_from = ground (arith, h);
  month_to = ground (arith, h);
  day_from = ground (arith, h, days_in_month_from d.year (d.month - 1));
  day_to = ground (arith, h, december (d.year - 1));
}

pub to_ordinal-next_day : (d : Date) → IsDate d → to_ordinal (next_day d) ≡ to_ordinal d + 1
unfolding next_day to_ordinal
to_ordinal-next_day d h = ground (
  arith,
  h,
  december d.year,
  january (d.year + 1),
  days_before_year-suc d.year,
  days_before_month-suc d.year d.month,
)

-- The day before a date of a year of the calendar.
pub to_ordinal-previous_day :
    (d : Date)
    → IsDate d
    → 1 ≤ (previous_day d).year
    → to_ordinal d ≡ to_ordinal (previous_day d) + 1
unfolding previous_day to_ordinal
to_ordinal-previous_day d h from = ground (
  arith,
  h,
  december (d.year - 1),
  january d.year,
  days_before_year-suc (d.year - 1),
  days_before_month-suc d.year (d.month - 1),
  days_in_month_from d.year (d.month - 1),
)

go_on-IsDate : (n : ℕ) (d : Date) → IsDate d → IsDate (go_on n d)
unfolding go_on
go_on-IsDate zero d h = h
go_on-IsDate (suc n) d h = next_day-IsDate _ (go_on-IsDate n d h)

go_back-IsDate : (n : ℕ) (d : Date) → IsDate d → IsDate (go_back n d)
unfolding go_back
go_back-IsDate zero d h = h
go_back-IsDate (suc n) d h = previous_day-IsDate _ (go_back-IsDate n d h)

pub to_ordinal-go_on : (n : ℕ) (d : Date) → IsDate d → to_ordinal (go_on n d) ≡ to_ordinal d + n
unfolding go_on
to_ordinal-go_on zero d h = omega arith
to_ordinal-go_on (suc n) d h =
    omega (arith, to_ordinal-next_day _ (go_on-IsDate n d h), to_ordinal-go_on n d h)

previous_day-year : (d : Date) → 1 ≤ (previous_day d).year → 1 ≤ d.year
unfolding previous_day
previous_day-year d h = ground arith

to_ordinal-go_back :
    (n : ℕ) (d : Date)
    → IsDate d
    → 1 ≤ (go_back n d).year
    → to_ordinal d ≡ to_ordinal (go_back n d) + n
unfolding go_back
to_ordinal-go_back zero d h _ = omega arith
to_ordinal-go_back (suc n) d h from = omega (
  arith,
  to_ordinal-previous_day _ (go_back-IsDate n d h) from,
  to_ordinal-go_back n d h (previous_day-year _ from),
)

pub moved-IsDate : (n : ℤ) (d : Date) → IsDate d → IsDate (moved n d)
moved-IsDate (pos n) d h = go_on-IsDate n d h
moved-IsDate (negsuc n) d h = go_back-IsDate (suc n) d h

pub to_ordinal-moved :
    (n : ℤ) (d : Date)
    → IsDate d
    → 1 ≤ (moved n d).year
    → pos (to_ordinal (moved n d)) ≡ pos (to_ordinal d) +ℤ n
to_ordinal-moved (pos n) d h from = rw (to_ordinal-go_on n d h) (omega int_laws)
to_ordinal-moved (negsuc n) d h from = rw (to_ordinal-go_back (suc n) d h from) (omega int_laws)

-- A date that `timedelta` gives lies that many days on.
pub add_days-counted :
    (d : Date) (n : ℤ) (d' : Date)
    → IsDate d
    → add_days d n ≡ ok d'
    → IsDate d' × (pos (to_ordinal d') ≡ pos (to_ordinal d) +ℤ n)
unfolding add_days
add_days-counted d n d' h e =
    let (same, inside) = in_range-ok (moved n d) d' e in
    rw (← same) (moved-IsDate n d h, to_ordinal-moved n d h (inside-year (moved n d) inside).0)
