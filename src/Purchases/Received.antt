-- ===== src/Purchases/Received.antt =====
-- What an order that is received does to the stock.
use fivuza_backend.Prelude.{
  ℕ, ◌≡◌, ℤ, pos, ◌+ℤ◌, ◌<ℤ◌, true, List, [], ◌∷◌, ◌==◌, if◌then◌else◌, any,
}
use fivuza_backend.Model.{Db}
use fivuza_backend.Model.Inventory.{PurchaseOrderDetail}
use fivuza_backend.Inventory.{quantity_in}
use fivuza_backend.Inventory.Kardex.{IsLedger}
use fivuza_backend.Purchases.{with_key}

-- A new cost leaves the stock, the Kardex and which variants there are.
record SameShelves (db db' : Db) : Type 0 where
  stocks : db'.stocks ≡ db.stocks
  movements : db'.movements ≡ db.movements
  known : (i : ℕ) → any (with_key i) db'.variants ≡ any (with_key i) db.variants

-- A line of a variant that there is, of more than nothing.
abbrev pub Fits : Db → PurchaseOrderDetail → Type 0
Fits db d = (any (with_key d.variant_id) db.variants ≡ true) × (pos 0 <ℤ d.quantity)

-- The quantity of one variant in the lines.
abbrev pub received_of : ℕ → List PurchaseOrderDetail → ℤ
received_of v [] = pos 0
received_of v (d ∷ ds) = (if d.variant_id == v then d.quantity else pos 0) +ℤ received_of v ds

-- What the lines leave, if they are all received.
record Entered (w : ℕ) (ds : List PurchaseOrderDetail) (db db' : Db) : Type 0 where
  ledger : IsLedger db'
  moved :
      (v k : ℕ)
      → quantity_in db'.stocks v k
        ≡ quantity_in db.stocks v k +ℤ (if w == k then received_of v ds else pos 0)
