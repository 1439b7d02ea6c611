-- ===== src/Decimals.antt =====
-- core/decimals.py. A decimal of the system is an integer of hundredths; what a product or a
-- division leaves before `round2` is an integer over a positive number.
mod Tests
pub mod Rounding
use fivuza_backend.Prelude.{ℕ, suc, ◌+◌, ◌*◌, ◌/◌, ℤ, pos, negsuc, ◌-ℤ◌}

-- n / d, halves upwards.
abbrev pub half_up : ℕ → ℕ → ℕ
half_up n d = (2 * n + d) / (2 * d)

-- `quantize(CENT, ROUND_HALF_UP)` of the value n / d hundredths: halves go away from zero.
unfoldable pub round2 : ℤ → ℕ → ℤ
round2 (pos n) d = pos (half_up n d)
round2 (negsuc n) d = pos 0 -ℤ pos (half_up (suc n) d)
