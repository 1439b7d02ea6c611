-- ===== src/Pricing/Tests.antt =====
-- Instances of the theorems on prices and discounts, and runs.
use fivuza_backend.Prelude.{
  ◌≡◌, refl, pos, ◌≤ℤ◌, ◌*ℤ◌, ◌*◌, ◌≤◌, false, none, some, ◌⊎◌, inl, inr, All, arith,
}
use fivuza_backend.Model.Inventory.{VolumePricingTier}
use fivuza_backend.Decimals.{round2}
use fivuza_backend.Pricing.{
  covers, resolve_unit_price, resolve_active_promotion, build_active_promotion_index,
  indexed_promotion, promotion_discount, resolve_promotion_discount, discount_percent,
}
use fivuza_backend.Pricing.Tiers.{IsBest, resolve_unit_price-IsBest}
use fivuza_backend.Pricing.Discounts.{discount_percent_iff, promotion_discount_within}
use fivuza_backend.Pricing.PromotionIndex.{indexed_promotion_lem}
use fivuza_backend.Samples.{shop, bread, cheese, tenth, half_sol}

-- Twelve units reach the tier, eleven do not.
wholesale : resolve_unit_price bread (pos 1200) shop ≡ pos 450
unfolding resolve_unit_price
wholesale = refl

retail : resolve_unit_price bread (pos 1100) shop ≡ pos 500
unfolding resolve_unit_price
retail = refl

resolve_unit_price-IsBest_example :
    ((t : VolumePricingTier) × IsBest 1 (pos 1200) t shop.pricing_tiers
      × (resolve_unit_price bread (pos 1200) shop ≡ t.unit_price))
    ⊎ (All (λ (u : VolumePricingTier). covers 1 (pos 1200) u ≡ false) shop.pricing_tiers
        × (resolve_unit_price bread (pos 1200) shop ≡ pos 500))
resolve_unit_price-IsBest_example = resolve_unit_price-IsBest bread (pos 1200) shop

direct : resolve_active_promotion bread 1000 shop ≡ some half_sol
unfolding resolve_active_promotion
direct = refl

by_category : resolve_active_promotion cheese 1000 shop ≡ some tenth
unfolding resolve_active_promotion
by_category = refl

too_late : resolve_active_promotion cheese 2001 shop ≡ none
unfolding resolve_active_promotion
too_late = refl

indexed_promotion_lem_example :
    indexed_promotion (build_active_promotion_index 1000 shop) cheese
    ≡ resolve_active_promotion cheese 1000 shop
indexed_promotion_lem_example =
    indexed_promotion_lem 1000 shop cheese ((inl refl, tt), ((inr refl, tt), tt))

-- 10% of 59.97 is 5.997, rounded to 6.00.
tenth_off : resolve_promotion_discount cheese (pos 300) (pos 1999) 1000 shop ≡ pos 600
unfolding resolve_promotion_discount resolve_active_promotion round2 ◌*ℤ◌
tenth_off = refl

promotion_discount_within_example :
    (pos 0 ≤ℤ promotion_discount (some tenth) (pos 300) (pos 5997))
    × (promotion_discount (some tenth) (pos 300) (pos 5997) ≤ℤ pos 5997)
promotion_discount_within_example =
    promotion_discount_within tenth 300 5997 1000 refl (λ _. omega arith)

-- 10.001% is recorded as 10.01%.
just_above : discount_percent (pos 10001) (pos 100000) ≡ pos 1001
unfolding discount_percent
just_above = refl

discount_percent_iff_example :
    (discount_percent (pos 10001) (pos 100000) ≤ℤ pos 1000 → 10001 * 10000 ≤ 1000 * 100000)
    × (10001 * 10000 ≤ 1000 * 100000 → discount_percent (pos 10001) (pos 100000) ≤ℤ pos 1000)
discount_percent_iff_example = discount_percent_iff 10001 100000 1000 (omega arith)
