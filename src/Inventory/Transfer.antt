-- ===== src/Inventory/Transfer.antt =====
-- A transfer moves stock between two warehouses and creates or loses none.
use fivuza_backend.Prelude.{
  ℕ, ◌≡◌, refl, ◌≢◌, ℤ, pos, ◌+ℤ◌, ◌-ℤ◌, ◌<ℤ◌, ◌≤ℤ◌, ltb_ℤ, leb_ℤ, Bool, true, false, ◌&&◌, inl,
  inr, List, [], ◌∷◌, ◌==◌, if◌then◌else◌, update_where, arith, Bool-cases, ap,
}
use fivuza_backend.Result.{ok, >>=-eq-ok, raise_if-ok, invalid, ok-injective}
use fivuza_backend.Model.{Db}
use fivuza_backend.Model.Inventory.{InventoryMovement, transfer_in, transfer_out}
use fivuza_backend.Inventory.{
  quantity_in, get_or_create, Adjustment, adjust_stock, transfer_stock, has_id, refer_to,
}
use fivuza_backend.Inventory.Kardex.{
  IsLedger, Traced, net, adjust_stock-IsLedger, quantity_in-get_or_create,
}

net-refer_to :
    (v w i r : ℕ) (ms : List InventoryMovement)
    → net v w (update_where (has_id i) (refer_to r) ms) ≡ net v w ms
net-refer_to v w i r [] = refl
net-refer_to v w i r (m ∷ ms) = elim (Bool-cases (has_id i m)) [
  | inl e ↦ rw (e, net-refer_to v w i r ms)
  | inr e ↦ rw (e, net-refer_to v w i r ms)
]

-- Only the numbers of a line count, not what it refers to.
Traced-cons :
    (b : Bool) (r : ℕ) (m : InventoryMovement) (ms ms' : List InventoryMovement)
    → net m.variant m.warehouse ms' ≡ net m.variant m.warehouse ms
    → Traced ms'
    → Traced (m ∷ ms)
    → Traced ((if b then refer_to r m else m) ∷ ms')
Traced-cons true r m ms ms' same t (grows, sums, _) = (grows, rw same sums, t)
Traced-cons false r m ms ms' same t (grows, sums, _) = (grows, rw same sums, t)

Traced-refer_to :
    (i r : ℕ) (ms : List InventoryMovement)
    → Traced ms
    → Traced (update_where (has_id i) (refer_to r) ms)
Traced-refer_to i r [] t = tt
Traced-refer_to i r (m ∷ ms) t =
    let same = net-refer_to m.variant m.warehouse i r ms in
    Traced-cons (has_id i m) r m ms (update_where (has_id i) (refer_to r) ms) same
      (Traced-refer_to i r ms t.2) t

get_or_create-IsLedger :
    (v w : ℕ) (db : Db)
    → IsLedger db
    → IsLedger (record db { stocks = get_or_create db.stocks v w })
get_or_create-IsLedger v w db l = record {
  balanced = λ v' w'. rw (quantity_in-get_or_create v w v' w' db.stocks) (l.balanced v' w');
  traced = l.traced;
}

-- Every stock after the transfer, by what it was.
abbrev pub MovedStocks : ℕ → ℕ → ℕ → ℤ → Db → Db → Type 0
MovedStocks v from to q db db' =
    (v' w' : ℕ)
    → quantity_in db'.stocks v' w' ≡ (
        if (v == v') && (to == w')
        then quantity_in db.stocks v to +ℤ q
        else if (v == v') && (from == w')
        then quantity_in db.stocks v from -ℤ q
        else quantity_in db.stocks v' w')

module _ (v from to : ℕ) (q : ℤ) (user : ℕ) (db : Db) where
  abbrev leave : Adjustment
  leave = record {
    variant = v;
    warehouse = from;
    counted_quantity = quantity_in (get_or_create db.stocks v from) v from -ℤ q;
    concept = transfer_out;
    user = user;
    oversell_flag = false;
    audit = false;
  }

  abbrev arrive : Db → Adjustment
  arrive db₂ = record {
    variant = v;
    warehouse = to;
    counted_quantity = quantity_in (get_or_create db₂.stocks v to) v to +ℤ q;
    concept = transfer_in;
    user = user;
    oversell_flag = false;
    audit = false;
  }

  two_steps :
      (db₂ db₄ : Db) {om im : InventoryMovement}
      → IsLedger db
      → (from == to) ≡ false
      → adjust_stock leave (record db { stocks = get_or_create db.stocks v from }) ≡ ok (om, db₂)
      → adjust_stock (arrive db₂) (record db₂ { stocks = get_or_create db₂.stocks v to })
        ≡ ok (im, db₄)
      → IsLedger db₄ × MovedStocks v from to q db db₄
  two_steps db₂ db₄ l ne e₁ e₂ =
      let (l₂, q₂) = adjust_stock-IsLedger leave _ (get_or_create-IsLedger v from db l) e₁ in
      let (l₄, q₄) = adjust_stock-IsLedger (arrive db₂) _ (get_or_create-IsLedger v to db₂ l₂) e₂ in
      (
        l₄,
        λ v' w'.
            rw
              (
                q₄ v' w',
                quantity_in-get_or_create v to v to db₂.stocks,
                quantity_in-get_or_create v to v' w' db₂.stocks,
                q₂ v to,
                q₂ v' w',
                quantity_in-get_or_create v from v to db.stocks,
                quantity_in-get_or_create v from v from db.stocks,
                quantity_in-get_or_create v from v' w' db.stocks,
                ne,
              )
              (ground arith),
      )

relink-IsLedger :
    (i j r t : ℕ) (db : Db)
    → IsLedger db
    → IsLedger (record db {
      movements =
          update_where (has_id i) (refer_to r) (update_where (has_id j) (refer_to t) db.movements);
    })
relink-IsLedger i j r t db l =
    let once = update_where (has_id j) (refer_to t) db.movements in
    record {
      balanced =
          λ v w. rw (net-refer_to v w i r once, net-refer_to v w j t db.movements) (l.balanced v w);
      traced = Traced-refer_to i r once (Traced-refer_to j t db.movements l.traced);
    }

-- A transfer that is not refused is of a positive quantity that the origin had, between different
-- warehouses. It takes the quantity from the one stock, adds it to the other, changes no other
-- stock, and keeps the Kardex.
pub transfer_stock_moves :
    (v from to : ℕ) (q : ℤ) (user : ℕ) (db : Db) {o i : InventoryMovement} {db' : Db}
    → IsLedger db
    → transfer_stock v from to q user db ≡ ok (o, i, db')
    → IsLedger db'
      × (from ≢ to)
      × (pos 0 <ℤ q)
      × (q ≤ℤ quantity_in db.stocks v from)
      × MovedStocks v from to q db db'
unfolding transfer_stock
transfer_stock_moves v from to q user db l h =
    let (_, e₁, h₁) = >>=-eq-ok _ _ h in
    let (_, e₂, h₂) = >>=-eq-ok _ _ h₁ in
    let (_, e₃, h₃) = >>=-eq-ok _ _ h₂ in
    let ((om, db₂), e₄, h₄) = >>=-eq-ok _ _ h₃ in
    let ((im, db₄), e₅, h₅) = >>=-eq-ok _ _ h₄ in
    let ne = raise_if-ok (from == to) invalid e₁ in
    let positive = raise_if-ok (leb_ℤ q (pos 0)) invalid e₂ in
    let enough =
      raise_if-ok (ltb_ℤ (quantity_in (get_or_create db.stocks v from) v from) q) invalid e₃ in
    let same = quantity_in-get_or_create v from v from db.stocks in
    let (l₄, moved) = two_steps v from to q user db db₂ db₄ l ne e₄ e₅ in
    let final = ap (λ p. p.2) (ok-injective h₅) in
    let r = relink-IsLedger im.id om.id om.id im.id db₄ l₄ in
    rw (← final) (
      record { balanced = r.balanced; traced = r.traced },
      ground arith,
      ground arith,
      ground (arith, rw same at enough),
      moved,
    )
