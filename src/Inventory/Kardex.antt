-- ===== src/Inventory/Kardex.antt =====
-- The Kardex accounts for the stock: an adjustment keeps every stock row equal to the sum of its
-- movements.
use fivuza_backend.Prelude.{
  ℕ, suc, ◌≡◌, refl, ℤ, pos, ◌+ℤ◌, ◌-ℤ◌, ◌<ℤ◌, eqb_ℤ, Bool, true, false, ◌&&◌, inl, inr, List, [],
  ◌∷◌, ◌==◌, if◌then◌else◌, any, update_where, ◌∙◌, ap, length, arith, int_laws, Bool-cases,
}
use fivuza_backend.Result.{ok, err, invalid, guarded-ok, ◌>>=◌}
use fivuza_backend.Model.{Db}
use fivuza_backend.Model.Users.{Action}
use fivuza_backend.Model.Inventory.{Stock, InventoryMovement, incoming, outgoing}
use fivuza_backend.Inventory.{
  matches, quantity_in, get_or_create, set_quantity, Adjustment, movement_of, adjust_stock,
  logged_if,
}

-- The rows after a write of `q` at (v, w).
abbrev pub stored : ℕ → ℕ → ℤ → List Stock → List Stock
stored v w q stocks = update_where (matches v w) (set_quantity q) (get_or_create stocks v w)

-- A write at (v, w) is read back there,
update_self :
    (v w : ℕ) (q : ℤ) (stocks : List Stock)
    → any (matches v w) stocks ≡ true
    → quantity_in (update_where (matches v w) (set_quantity q) stocks) v w ≡ q
update_self v w q [] h = cc
update_self v w q (s ∷ stocks) h = ground (arith, update_self v w q stocks)

-- and nowhere else.
update-ne :
    (v w v' w' : ℕ) (q : ℤ) (stocks : List Stock)
    → ((v == v') && (w == w')) ≡ false
    → quantity_in (update_where (matches v w) (set_quantity q) stocks) v' w'
      ≡ quantity_in stocks v' w'
update-ne v w v' w' q [] h = refl
update-ne v w v' w' q (s ∷ stocks) h = ground (arith, update-ne v w v' w' q stocks h)

quantity_in-absent :
    (v w : ℕ) (stocks : List Stock)
    → any (matches v w) stocks ≡ false
    → quantity_in stocks v w ≡ pos 0
quantity_in-absent v w [] h = refl
quantity_in-absent v w (s ∷ stocks) h = ground (arith, quantity_in-absent v w stocks)

pub any-get_or_create :
    (v w : ℕ) (stocks : List Stock) → any (matches v w) (get_or_create stocks v w) ≡ true
unfolding get_or_create
any-get_or_create v w stocks = ground arith

pub quantity_in-get_or_create :
    (v w v' w' : ℕ) (stocks : List Stock)
    → quantity_in (get_or_create stocks v w) v' w' ≡ quantity_in stocks v' w'
unfolding get_or_create
quantity_in-get_or_create v w v' w' stocks = ground (arith, quantity_in-absent v w stocks)

-- The stock at (v', w') after a write of `q` at (v, w).
pub quantity_in-stored :
    (v w v' w' : ℕ) (q : ℤ) (stocks : List Stock)
    → quantity_in (stored v w q stocks) v' w'
      ≡ (if (v == v') && (w == w') then q else quantity_in stocks v' w')
quantity_in-stored v w v' w' q stocks = elim (Bool-cases ((v == v') && (w == w'))) [
  | inl e ↦ rw e (
      let same : (v ≡ v') × (w ≡ w') = ground arith in
      rw (
        ← same.0,
        ← same.1,
        update_self v w q (get_or_create stocks v w) (any-get_or_create v w stocks),
      ))
  | inr e ↦ rw e (
      update-ne v w v' w' q (get_or_create stocks v w) e
      ∙ quantity_in-get_or_create v w v' w' stocks)
]

-- What a Kardex line adds to the stock.
abbrev pub signed : InventoryMovement → ℤ
signed m = elim m.type [ incoming ↦ m.quantity | outgoing ↦ pos 0 -ℤ m.quantity ]

abbrev pub concerns : ℕ → ℕ → InventoryMovement → Bool
concerns v w m = (m.variant == v) && (m.warehouse == w)

-- The sum of the lines of one variant in one warehouse.
abbrev pub net : ℕ → ℕ → List InventoryMovement → ℤ
net v w [] = pos 0
net v w (m ∷ ms) = (if concerns v w m then signed m else pos 0) +ℤ net v w ms

-- Every line moves something, and its balance is the sum of the lines up to it.
abbrev pub Traced : List InventoryMovement → Type 0
Traced [] = Unit
Traced (m ∷ ms) =
    (pos 0 <ℤ m.quantity) × (m.resulting_balance ≡ net m.variant m.warehouse (m ∷ ms)) × Traced ms

pub record IsLedger (db : Db) : Type 0 where
  pub balanced : (v w : ℕ) → quantity_in db.stocks v w ≡ net v w db.movements
  pub traced : Traced db.movements

-- The Kardex of tables with the same stocks and movements.
pub IsLedger-same :
    (db db' : Db)
    → db'.stocks ≡ db.stocks
    → db'.movements ≡ db.movements
    → IsLedger db
    → IsLedger db'
IsLedger-same db db' e f l = record { balanced = rw (e, f) l.balanced; traced = rw f l.traced }

-- The change that an adjustment asks for, its Kardex line, and the tables after it.
abbrev pub delta_of : Adjustment → Db → ℤ
delta_of a db = a.counted_quantity -ℤ quantity_in db.stocks a.variant a.warehouse

abbrev pub line_of : Adjustment → Db → InventoryMovement
line_of a db = movement_of (suc (length db.movements)) a (delta_of a db)

abbrev pub adjusted : Adjustment → Db → Db
adjusted a db = record db {
  movements = line_of a db ∷ db.movements;
  stocks = stored a.variant a.warehouse a.counted_quantity db.stocks;
  audit_log = logged_if a.audit a.user Action.stock_adjusted a.variant db.audit_log;
}

pub adjust_stock_lem :
    (a : Adjustment) (db : Db)
    → adjust_stock a db
      ≡ (if eqb_ℤ (delta_of a db) (pos 0) then err invalid else ok (line_of a db, adjusted a db))
unfolding adjust_stock ◌>>=◌
adjust_stock_lem a db =
    let read = quantity_in-get_or_create a.variant a.warehouse a.variant a.warehouse db.stocks in
    elim (Bool-cases (eqb_ℤ (delta_of a db) (pos 0))) [
      | inl e ↦ rw (read, e)
      | inr e ↦ rw (read, e)
    ]

signed-line_of :
    (a : Adjustment) (db : Db)
    → eqb_ℤ (delta_of a db) (pos 0) ≡ false
    → (signed (line_of a db) ≡ delta_of a db) × (pos 0 <ℤ (line_of a db).quantity)
signed-line_of a db h = grind int_laws

-- The stock read at (v, w) after the adjustment.
adjusted_balance :
    (a : Adjustment) (db : Db) (v w : ℕ)
    → (if (a.variant == v) && (a.warehouse == w)
        then a.counted_quantity
        else quantity_in db.stocks v w)
      ≡ (if concerns v w (line_of a db) then delta_of a db else pos 0) +ℤ quantity_in db.stocks v w
adjusted_balance a db v w = elim (Bool-cases ((a.variant == v) && (a.warehouse == w))) [
  | inl e ↦
      let same : (v ≡ a.variant) × (w ≡ a.warehouse) = ground arith in
      rw e (rw (same.0, same.1) (omega int_laws))
  | inr e ↦ rw e (omega int_laws)
]

pub adjusted-IsLedger :
    (a : Adjustment) (db : Db)
    → eqb_ℤ (delta_of a db) (pos 0) ≡ false
    → IsLedger db
    → IsLedger (adjusted a db)
adjusted-IsLedger a db h l =
    let (moves, grows) = signed-line_of a db h in
    let same : concerns a.variant a.warehouse (line_of a db) ≡ true = ground arith in
    record {
      balanced = λ v w.
          rw
            (
              quantity_in-stored a.variant a.warehouse v w a.counted_quantity db.stocks,
              moves,
              ← l.balanced v w,
            )
            (adjusted_balance a db v w);
      traced =
          (grows, rw (moves, ← l.balanced a.variant a.warehouse, same) (omega int_laws), l.traced);
    }

-- What a successful adjustment has done.
pub adjust_stock-ok :
    (a : Adjustment) (db : Db) {m : InventoryMovement} {db' : Db}
    → adjust_stock a db ≡ ok (m, db')
    → (eqb_ℤ (delta_of a db) (pos 0) ≡ false) × (m ≡ line_of a db) × (db' ≡ adjusted a db)
adjust_stock-ok a db h =
    let (moved, e) =
      guarded-ok (eqb_ℤ (delta_of a db) (pos 0)) invalid (rw (adjust_stock_lem a db) at h) in
    (moved, ap (λ p. p.0) e, ap (λ p. p.1) e)

-- The stocks after a successful adjustment.
pub adjust_stock-stores :
    (a : Adjustment) (db : Db) {m : InventoryMovement} {db' : Db}
    → adjust_stock a db ≡ ok (m, db')
    → (v w : ℕ)
    → quantity_in db'.stocks v w ≡ (
        if (a.variant == v) && (a.warehouse == w)
        then a.counted_quantity
        else quantity_in db.stocks v w)
adjust_stock-stores a db h v w =
    let (_, _, e) = adjust_stock-ok a db h in
    rw e (quantity_in-stored a.variant a.warehouse v w a.counted_quantity db.stocks)

-- An adjustment that is not refused sets the counted stock, leaves every other stock alone, and
-- keeps the Kardex: each stock is the sum of its lines, and each line's balance the sum up to it.
pub adjust_stock-IsLedger :
    (a : Adjustment) (db : Db) {m : InventoryMovement} {db' : Db}
    → IsLedger db
    → adjust_stock a db ≡ ok (m, db')
    → IsLedger db'
      × ((v w : ℕ)
          → quantity_in db'.stocks v w ≡ (
              if (a.variant == v) && (a.warehouse == w)
              then a.counted_quantity
              else quantity_in db.stocks v w))
adjust_stock-IsLedger a db l h =
    let (moved, _, e) = adjust_stock-ok a db h in
    (rw e (adjusted-IsLedger a db moved l), adjust_stock-stores a db h)
