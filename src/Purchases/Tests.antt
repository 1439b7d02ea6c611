-- ===== src/Purchases/Tests.antt =====
-- An order of two lines of one variant that is received, and instances of the theorems.
use fivuza_backend.Prelude.{◌≡◌, refl, ℤ, pos, ◌+ℤ◌, ◌*ℤ◌, ◌≤ℤ◌, some, none, [], ◌∷◌, first, arith}
use fivuza_backend.Model.Inventory.{PurchaseOrder, pending}
use fivuza_backend.Decimals.{round2}
use fivuza_backend.Samples.{shop, bread}
use fivuza_backend.Purchases.{with_key, with_cost, update_weighted_average_cost}
use fivuza_backend.Purchases.Costs.{update_weighted_average_cost-between}

-- Ten loaves at 3.60 and ten more at 3.00.
abbrev order : PurchaseOrder
order = record {
  id = 6;
  warehouse = 1;
  status = pending;
  received_at = none;
  details =
      record { variant_id = 1; quantity = pos 1000; unit_cost = pos 360; subtotal = pos 3600 }
      ∷ record { variant_id = 1; quantity = pos 1000; unit_cost = pos 300; subtotal = pos 3000 }
      ∷ [];
}

-- Twenty loaves at 3.00 and ten at 3.60 are thirty at 3.20.
new_cost :
    first (with_key 1) (update_weighted_average_cost bread (pos 1000) (pos 3600) 8 shop).variants
    ≡ some (with_cost (pos 320) bread)
unfolding update_weighted_average_cost round2 ◌+ℤ◌ ◌*ℤ◌
new_cost = refl

priced : (pos 300 *ℤ pos 1000 ≤ℤ pos 100 *ℤ pos 3600) × (pos 100 *ℤ pos 3600 ≤ℤ pos 360 *ℤ pos 1000)
unfolding ◌*ℤ◌
priced = (omega arith, omega arith)

some_bread : pos 0 ≤ℤ (pos 2000 +ℤ pos 0)
unfolding ◌+ℤ◌
some_bread = omega arith

update_weighted_average_cost-between_example :
    (cost : ℤ) × (first
        (with_key 1)
        (update_weighted_average_cost bread (pos 1000) (pos 3600) 8 shop).variants
      ≡ some (with_cost cost bread))
    × (pos 300 ≤ℤ cost)
    × (cost ≤ℤ pos 360)
update_weighted_average_cost-between_example =
    update_weighted_average_cost-between 300 360 bread (pos 1000) (pos 3600) 8 shop refl
      (omega arith, omega arith) some_bread (omega arith) priced
