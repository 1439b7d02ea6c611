-- ===== src/Gym/Dates.antt =====
-- `datetime.date` as gimnasio/services.py uses it, and the dates that it works out there.
use fivuza_backend.Prelude.{
  ℕ, zero, suc, ◌+◌, ◌-◌, ◌/◌, ◌%◌, ◌≤◌, ℤ, pos, negsuc, sub_ℕ, Bool, not, ◌&&◌, ◌||◌, ◌==◌, ltb,
  leb, if◌then◌else◌,
}
use fivuza_backend.Result.{Result, ok, ◌>>◌, raise_if, date_out_of_range}

pub record Date : Type 0 where
  pub year : ℕ
  pub month : ℕ
  pub day : ℕ

abbrev pub is_leap : ℕ → Bool
is_leap y = (y % 4 == 0) && (not (y % 100 == 0) || (y % 400 == 0))

-- `calendar.monthrange(year, month)[1]`
unfoldable pub days_in_month : ℕ → ℕ → ℕ
days_in_month y m =
    if m == 2
    then if is_leap y then 29 else 28
    else if (m == 4) || (m == 6) || (m == 9) || (m == 11)
    then 30
    else 31

-- The days of the months 1, …, m - 1.
unfoldable pub days_before_month : ℕ → ℕ → ℕ
days_before_month y zero = 0
days_before_month y (suc zero) = 0
days_before_month y (suc (suc m)) = days_before_month y (suc m) + days_in_month y (suc m)

-- The days of the years 0, …, y - 1.
unfoldable pub days_before_year : ℕ → ℕ
days_before_year zero = 0
days_before_year (suc y) = days_before_year y + (if is_leap y then 366 else 365)

-- `date.toordinal` counts from another day; only differences are used.
unfoldable pub to_ordinal : Date → ℕ
to_ordinal d = days_before_year d.year + days_before_month d.year d.month + d.day

-- `a < b`
abbrev pub is_before : Date → Date → Bool
is_before a b =
    ltb a.year b.year
    || ((a.year == b.year) && (ltb a.month b.month || ((a.month == b.month) && ltb a.day b.day)))

-- The dates of a calendar: `date(year, month, day)` accepts nothing else, up to the year.
pub record IsDate (d : Date) : Type 0 where
  pub month_from : 1 ≤ d.month
  pub month_to : d.month ≤ 12
  pub day_from : 1 ≤ d.day
  pub day_to : d.day ≤ days_in_month d.year d.month

-- A date has a year from 1 to 9999, else Python raises.
abbrev pub is_out : Date → Bool
is_out d = (d.year == 0) || ltb 9999 d.year

abbrev pub in_range : Date → Result Date
in_range d = do raise_if (is_out d) date_out_of_range; ok d

unfoldable pub next_day : Date → Date
next_day d =
    if ltb d.day (days_in_month d.year d.month)
    then record d { day = d.day + 1 }
    else if ltb d.month 12
    then record d { month = d.month + 1; day = 1 }
    else record { year = d.year + 1; month = 1; day = 1 }

unfoldable pub previous_day : Date → Date
previous_day d =
    if ltb 1 d.day
    then record d { day = d.day - 1 }
    else if ltb 1 d.month
    then record d { month = d.month - 1; day = days_in_month d.year (d.month - 1) }
    else record { year = d.year - 1; month = 12; day = 31 }

unfoldable pub go_on : ℕ → Date → Date
go_on zero d = d
go_on (suc n) d = next_day (go_on n d)

unfoldable pub go_back : ℕ → Date → Date
go_back zero d = d
go_back (suc n) d = previous_day (go_back n d)

abbrev pub moved : ℤ → Date → Date
moved (pos n) d = go_on n d
moved (negsuc n) d = go_back (suc n) d

-- `d + timedelta(days=n)`
unfoldable pub add_days : Date → ℤ → Result Date
add_days d n = in_range (moved n d)

-- `(a - b).days`
unfoldable pub days_between : Date → Date → ℤ
days_between a b = sub_ℕ (to_ordinal a) (to_ordinal b)

abbrev pub min_ℕ : ℕ → ℕ → ℕ
min_ℕ a b = if leb a b then a else b

-- `_add_months`
abbrev pub month_index : Date → ℕ → ℕ
month_index base months = base.month - 1 + months

abbrev pub shifted : Date → ℕ → ℕ → Date
shifted base year month = record {
  year = year;
  month = month;
  day = min_ℕ base.day (days_in_month year month);
}

unfoldable pub add_months : Date → ℕ → Result Date
add_months base months =
    in_range
      (shifted base (base.year + month_index base months / 12) (month_index base months % 12 + 1))

pub data Periodicity : Type 0 where
  monthly quarterly yearly : Periodicity

abbrev pub months_of : Periodicity → ℕ
months_of monthly = 1
months_of quarterly = 3
months_of yearly = 12

-- `_add_period`
unfoldable pub add_period : Date → Periodicity → Result Date
add_period base p = add_months base (months_of p)
