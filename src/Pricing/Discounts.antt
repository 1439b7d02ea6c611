-- ===== src/Pricing/Discounts.antt =====
-- Discounts stay within the line, and their percentage is rounded so that none slips past a limit.
use fivuza_backend.Prelude.{
  ℕ, ◌≡◌, refl, ◌*◌, ◌≤◌, ◌<◌, pos, ◌≤ℤ◌, ◌*ℤ◌, leb_ℤ, some, arith, int_laws, false,
}
use fivuza_backend.Model.Sales.{Promotion, percentage, fixed_amount, PromotionType}
use fivuza_backend.Decimals.{round2, half_up}
use fivuza_backend.Decimals.Rounding.{half_up_exact, half_up_mono}
use fivuza_backend.Pricing.{discount_by, promotion_discount, discount_percent, round_up}

round_up_lem : (n m k : ℕ) → 0 < m → (round_up n m ≤ k → n ≤ k * m) × (n ≤ k * m → round_up n m ≤ k)
round_up_lem n m k h = (λ le. grind arith, λ le. grind arith)

-- The percentage of a discount on a line of a positive amount is within a limit, in hundredths,
-- exactly when the discount itself is within that share of the line: 10.001% is more than 10%.
pub discount_percent_iff :
    (d s limit : ℕ)
    → 0 < s
    → (discount_percent (pos d) (pos s) ≤ℤ pos limit → d * 10000 ≤ limit * s)
      × (d * 10000 ≤ limit * s → discount_percent (pos d) (pos s) ≤ℤ pos limit)
unfolding discount_percent
discount_percent_iff d s limit h =
    let positive : leb_ℤ (pos s) (pos 0) ≡ false = ground arith in
    let (a, b) = round_up_lem (d * 10000) s limit h in
    rw positive (λ le. a (omega arith), λ le. let le' = b le in omega arith)

pub times_pos : (a b : ℕ) → pos a *ℤ pos b ≡ pos (a * b)
unfolding ◌*ℤ◌
times_pos a b = grind arith

round2-pos : (n d : ℕ) → round2 (pos n) d ≡ pos (half_up n d)
unfolding round2
round2-pos n d = refl

half_up_share : (s value : ℕ) → value ≤ 10000 → half_up (s * value) 10000 ≤ s
half_up_share s value h = grind (
  arith,
  half_up_exact s 10000 (omega arith),
  half_up_mono (s * value) (s * 10000) 10000 (omega arith) (grind arith),
)

amount_within :
    (t : PromotionType) (q s value : ℕ)
    → (t ≡ percentage → value ≤ 10000)
    → (pos 0 ≤ℤ discount_by t (pos value) (pos q) (pos s))
      × (discount_by t (pos value) (pos q) (pos s) ≤ℤ pos s)
amount_within percentage q s value h =
    let le = half_up_share s value (h refl) in
    rw (times_pos s value, round2-pos (s * value) 10000) (omega int_laws, omega (int_laws, le))
amount_within fixed_amount q s value h =
    rw (times_pos value q, round2-pos (value * q) 100) (ground arith, ground arith)

-- The automatic discount of a promotion with a value of zero or more, at most 100% if it is a
-- percentage, is neither negative nor more than the amount of the line.
pub promotion_discount_within :
    (p : Promotion) (q s value : ℕ)
    → p.value ≡ pos value
    → (p.type ≡ percentage → value ≤ 10000)
    → (pos 0 ≤ℤ promotion_discount (some p) (pos q) (pos s))
      × (promotion_discount (some p) (pos q) (pos s) ≤ℤ pos s)
promotion_discount_within p q s value e h = rw e (amount_within p.type q s value h)
