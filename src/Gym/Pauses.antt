-- ===== src/Gym/Pauses.antt =====
-- A membership that is frozen and resumed.
use native.Mathlib.Nat.{le_trans}
use fivuza_backend.Prelude.{ℕ, zero, suc, ◌+◌, ◌-◌, ◌≤◌, ◌<◌, ◌≡◌, refl, pos, arith, none}
use fivuza_backend.Result.{ok, ◌>>=◌}
use fivuza_backend.Gym.Dates.{
  Date, IsDate, days_in_month, days_before_month, days_before_year, to_ordinal, add_days, go_on,
  next_day, days_between,
}
use fivuza_backend.Gym.Memberships.{Membership, active, Gym, freeze_membership, unfreeze_membership}
use fivuza_backend.Gym.Renewal.{in_range-is_ok}
use fivuza_backend.Gym.Days.{
  days_before_month-suc, days_before_year-suc, moved-IsDate, to_ordinal-go_on,
}

months_end :
    (k y m : ℕ)
    → 1 ≤ m
    → m + k ≡ 12
    → days_before_month y m + days_in_month y m ≤ days_before_month y 12 + 31
unfolding days_in_month
months_end zero y m from e = let last : m ≡ 12 = omega (arith, e) in rw last (omega arith)
months_end (suc k) y m from e =
    omega (
      arith,
      days_before_month-suc y m from,
      months_end k y (m + 1) (omega arith) (omega (arith, e)),
    )

-- A date lies within its year.
to_ordinal-year :
    (d : Date)
    → IsDate d
    → (days_before_year d.year < to_ordinal d) × (to_ordinal d ≤ days_before_year (d.year + 1))
unfolding to_ordinal
to_ordinal-year d h = (
  omega (arith, h.day_from),
  omega (
    arith,
    h.day_to,
    days_before_year-suc d.year,
    months_end (12 - d.month) d.year d.month h.month_from (omega (arith, h.month_to)),
  ),
)

days_before_year-monotone : (k y z : ℕ) → y + k ≡ z → days_before_year y ≤ days_before_year z
days_before_year-monotone zero y z e = let same : y ≡ z = omega (arith, e) in rw same (omega arith)
days_before_year-monotone (suc k) y z e =
    let same : z ≡ (y + k) + 1 = omega (arith, e) in
    rw same
      (omega (arith, days_before_year-suc (y + k), days_before_year-monotone k y (y + k) refl))

-- Of two dates the earlier one has no later year.
to_ordinal-orders_years :
    (a b : Date) → IsDate a → IsDate b → to_ordinal a ≤ to_ordinal b → a.year ≤ b.year
to_ordinal-orders_years a b ha hb le = ground (
  arith,
  to_ordinal-year a ha,
  to_ordinal-year b hb,
  days_before_year-monotone (a.year - (b.year + 1)) (b.year + 1) a.year,
)

go_on-year : (n : ℕ) (d : Date) → d.year ≤ (go_on n d).year
unfolding go_on next_day
go_on-year zero d = omega arith
go_on-year (suc n) d = ground (arith, go_on-year n d)

-- Adding days stays among Python's dates if some later date, `last`, is one.
add_days-is_ok :
    (d last : Date) (n : ℕ)
    → IsDate d
    → 1 ≤ d.year
    → IsDate last
    → last.year ≤ 9999
    → to_ordinal d + n ≤ to_ordinal last
    → (d' : Date) × IsDate d' × (to_ordinal d' ≡ to_ordinal d + n) × (add_days d (pos n) ≡ ok d')
unfolding add_days
add_days-is_ok d last n h from hl to le =
    let from' = le_trans from (go_on-year n d) in
    let date = moved-IsDate (pos n) d h in
    let counted = to_ordinal-go_on n d h in
    let year = to_ordinal-orders_years (go_on n d) last date hl (omega (arith, counted, le)) in
    (go_on n d, date, counted, in_range-is_ok (go_on n d) from' (le_trans year to))

days_between-pos :
    (a b : Date)
    → to_ordinal b ≤ to_ordinal a
    → days_between a b ≡ pos (to_ordinal a - to_ordinal b)
unfolding days_between
days_between-pos a b le = ground arith

-- A pause of an active membership, today and until later, always ends well if the end date moved by
-- the pause is not after some date `last` of Python's calendar. The membership is then as before,
-- but that its end date lies as many days after the day of the return as the old one lay after the
-- day of the freeze: no paid day is lost.
pub unfreeze_membership-freeze_membership :
    (today later last : Date) (m : Membership) (user user' : ℕ) (g : Gym)
    → m.status ≡ active
    → m.frozen_since ≡ none
    → IsDate m.end_date
    → 1 ≤ m.end_date.year
    → IsDate last
    → last.year ≤ 9999
    → to_ordinal today ≤ to_ordinal later
    → to_ordinal m.end_date + to_ordinal later ≤ to_ordinal last + to_ordinal today
    → (end : Date) × (g' : Gym) × IsDate end
      × (to_ordinal end + to_ordinal today ≡ to_ordinal m.end_date + to_ordinal later)
      × ((freeze_membership today m user g >>= λ r. unfreeze_membership later r.0 user' r.1)
          ≡ ok (record m { end_date = end }, g'))
unfolding freeze_membership unfreeze_membership ◌>>=◌
unfreeze_membership-freeze_membership today later last m user user' g act none_ h from hl to after
      fits =
    let (end, date, counted, lands) =
      add_days-is_ok m.end_date last (to_ordinal later - to_ordinal today) h from hl to
        (omega arith) in
    rw (act, none_, days_between-pos later today after, lands)
      (end, _, date, omega (arith, counted), refl)
