-- ===== src/Decimals/Rounding.antt =====
-- `round2` is the nearest hundredth, whatever the sign.
use fivuza_backend.Prelude.{
  ℕ, suc, ◌+◌, ◌*◌, ◌≤◌, ◌<◌, ℤ, pos, negsuc, pos_part, neg_part, ◌-ℤ◌, ◌≤ℤ◌, ◌≡◌, arith, int_laws,
  refl, ap,
}
use fivuza_backend.Decimals.{half_up, round2}

pub half_up_lem :
    (n d : ℕ) → 0 < d → (2 * (d * half_up n d) ≤ 2 * n + d) × (2 * n < 2 * (d * half_up n d) + d)
half_up_lem n d h = grind arith

pub half_up_mono : (m n d : ℕ) → 0 < d → m ≤ n → half_up m d ≤ half_up n d
half_up_mono m n d h le = grind (arith, half_up_lem m d h, half_up_lem n d h)

-- A value that has two decimals is left as it is.
pub half_up_exact : (n d : ℕ) → 0 < d → half_up (n * d) d ≡ n
half_up_exact n d h = grind (arith, half_up_lem (n * d) d h)

-- Rounding is the nearest hundredth of n / d: at most half a hundredth away, a half goes away from
-- zero, and the sign stays.
abbrev pub IsNearest : ℤ → ℕ → ℤ → Type 0
IsNearest (pos n) d r =
    (neg_part r ≡ 0) × (2 * (d * pos_part r) ≤ 2 * n + d) × (2 * n < 2 * (d * pos_part r) + d)
IsNearest (negsuc n) d r =
    (pos_part r ≡ 0)
    × (2 * (d * neg_part r) ≤ 2 * suc n + d)
    × (2 * suc n < 2 * (d * neg_part r) + d)

minus_parts : (k : ℕ) → (pos_part (pos 0 -ℤ pos k) ≡ 0) × (neg_part (pos 0 -ℤ pos k) ≡ k)
unfolding ◌-ℤ◌
minus_parts k = ground arith

-- The rounded fraction is within half a hundredth of the fraction, of the same sign, and a fraction
-- halfway goes away from zero.
pub round2-IsNearest : (n : ℤ) (d : ℕ) → 0 < d → IsNearest n d (round2 n d)
unfolding round2
round2-IsNearest (pos n) d h = let (a, b) = half_up_lem n d h in (refl, a, b)
round2-IsNearest (negsuc n) d h =
    let (p, q) = minus_parts (half_up (suc n) d) in
    let (a, b) = half_up_lem (suc n) d h in (p, rw q a, rw q b)

-- Rounding keeps the order of two fractions with one positive denominator.
pub round2_mono : (m n : ℤ) (d : ℕ) → 0 < d → m ≤ℤ n → round2 m d ≤ℤ round2 n d
unfolding round2
round2_mono (pos m) (pos n) d h le = ground (arith, half_up_mono m n d h)
round2_mono (pos m) (negsuc n) d h le = absurd (omega arith)
round2_mono (negsuc m) (pos n) d h le = omega int_laws
round2_mono (negsuc m) (negsuc n) d h le =
    omega (int_laws, half_up_mono (suc n) (suc m) d h (omega arith))

-- A value that has two decimals is left as it is, whatever the sign.
pub round2_whole : (q : ℤ) → round2 q 1 ≡ q
unfolding round2
round2_whole (pos n) = ap pos (omega arith)
round2_whole (negsuc n) = grind int_laws
