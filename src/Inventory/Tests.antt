-- ===== src/Inventory/Tests.antt =====
-- Runs of the stock operations, and instances of their theorems.
use fivuza_backend.Prelude.{
  pos, ◌<ℤ◌, ◌≤ℤ◌, ◌-ℤ◌, ◌+ℤ◌, ◌≡◌, ◌≢◌, refl, ℕ, false, true, arith, ◌&&◌, ◌==◌, if◌then◌else◌,
}
use fivuza_backend.Result.{Result, ok, err, ◌>>=◌, invalid}
use fivuza_backend.Model.{Db}
use fivuza_backend.Model.Inventory.{adjustment, InventoryMovement}
use fivuza_backend.Inventory.{quantity_in, Adjustment, adjust_stock, transfer_stock, get_or_create}
use fivuza_backend.Inventory.Kardex.{IsLedger, adjust_stock-IsLedger, adjusted}
use fivuza_backend.Inventory.Transfer.{transfer_stock_moves, MovedStocks}
use fivuza_backend.Samples.{shop}

abbrev recount : Adjustment
recount = record {
  variant = 1;
  warehouse = 1;
  counted_quantity = pos 1850;
  concept = adjustment;
  user = 8;
  oversell_flag = false;
  audit = true;
}

abbrev recounted : Db
recounted = adjusted recount shop

shop-IsLedger : IsLedger shop
unfolding ◌+ℤ◌
shop-IsLedger = record { balanced = λ v w. ground arith; traced = (omega arith, refl, tt) }

adjust_stock-IsLedger_example :
    IsLedger recounted
    × ((v w : ℕ)
        → quantity_in recounted.stocks v w
          ≡ (if (1 == v) && (1 == w) then pos 1850 else quantity_in shop.stocks v w))
unfolding adjust_stock ◌>>=◌ ◌-ℤ◌ get_or_create
adjust_stock-IsLedger_example = adjust_stock-IsLedger recount shop shop-IsLedger refl

recount_same : adjust_stock (record recount { counted_quantity = pos 2000 }) shop ≡ err invalid
unfolding adjust_stock ◌>>=◌ ◌-ℤ◌ get_or_create
recount_same = refl

-- Half of the stock goes to warehouse 3.
abbrev transferred : Result (InventoryMovement × InventoryMovement × Db)
transferred = transfer_stock 1 1 3 (pos 1000) 8 shop

abbrev after_transfer : Result (InventoryMovement × InventoryMovement × Db) → Db
after_transfer (ok (_, _, db)) = db
after_transfer (err _) = shop

transfer_stock_moves_example :
    let db' = after_transfer transferred in
    IsLedger db'
    × ◌≢◌ {A = ℕ} 1 3
    × (pos 0 <ℤ pos 1000)
    × (pos 1000 ≤ℤ pos 2000)
    × MovedStocks 1 1 3 (pos 1000) shop db'
unfolding transfer_stock adjust_stock ◌>>=◌ ◌-ℤ◌ ◌+ℤ◌ get_or_create
transfer_stock_moves_example = transfer_stock_moves 1 1 3 (pos 1000) 8 shop shop-IsLedger refl
