-- ===== src/Decimals/Tests.antt =====
-- The examples of the module's documentation, and instances of its theorems.
use fivuza_backend.Prelude.{pos, negsuc, ◌-ℤ◌, ◌≡◌, refl, arith}
use fivuza_backend.Decimals.{round2}
use fivuza_backend.Decimals.Rounding.{IsNearest, round2-IsNearest}

-- 1.575 -> 1.58, 12.957 -> 12.96 and -1.575 -> -1.58.
documented :
    (round2 (pos 1575) 10 ≡ pos 158)
    × (round2 (pos 12957) 10 ≡ pos 1296)
    × (round2 (negsuc 1574) 10 ≡ negsuc 157)
unfolding round2 ◌-ℤ◌
documented = (refl, refl, refl)

round2-IsNearest_example : IsNearest (pos 1575) 10 (round2 (pos 1575) 10)
round2-IsNearest_example = round2-IsNearest (pos 1575) 10 (omega arith)
