-- ===== src/Sales/Reversal.antt =====
-- What voiding a sale gives back.
use fivuza_backend.Prelude.{
  ℕ, ◌≡◌, refl, ap, ◌∙◌, ℤ, pos, ◌+ℤ◌, Bool, true, false, ◌&&◌, List, [], ◌∷◌, ◌==◌, if◌then◌else◌,
  Bool-cases, inl, inr, arith, int_laws, any,
}
use fivuza_backend.Result.{ok, ◌>>=◌, >>=-eq-ok, ok-injective}
use fivuza_backend.Model.{Db}
use fivuza_backend.Model.Inventory.{ProductVariant}
use fivuza_backend.Model.Sales.{SaleDetail}
use fivuza_backend.Inventory.{adjust_stock, quantity_in}
use fivuza_backend.Inventory.Kardex.{IsLedger, adjust_stock-IsLedger, adjust_stock-ok}
use fivuza_backend.Sales.Lines.{is_variant}
use fivuza_backend.Sales.Void.{restocked, restock, restock_all}

-- What the details of one sale hold of one variant that still exists.
abbrev pub held : ℕ → ℕ → List ProductVariant → List SaleDetail → ℤ
held sale v variants [] = pos 0
held sale v variants (d ∷ ds) =
    (if (d.sale == sale) && (any (is_variant d.variant_id) variants && (d.variant_id == v))
      then d.quantity
      else pos 0)
    +ℤ held sale v variants ds

-- One detail goes back to its stock.
abbrev pub Restocked : ℕ → (ℕ → ℤ) → Db → Db → Type 0
Restocked w more db db' =
    IsLedger db'
    × (db'.variants ≡ db.variants)
    × (db'.payments ≡ db.payments)
    × (db'.debts ≡ db.debts)
    × (db'.balances ≡ db.balances)
    × ((v k : ℕ)
        → quantity_in db'.stocks v k
          ≡ quantity_in db.stocks v k +ℤ (if w == k then more v else pos 0))

added :
    (b c : Bool) (x current q : ℤ)
    → (b ≡ true → c ≡ true → current ≡ x)
    → (if b && c then current +ℤ q else x) ≡ x +ℤ (if c then (if b then q else pos 0) else pos 0)
added true true x current q e = rw (e refl refl) (omega int_laws)
added true false x current q e = omega int_laws
added false true x current q e = omega int_laws
added false false x current q e = omega int_laws

restock_by :
    (b : Bool) (user w : ℕ) (d : SaleDetail) (db : Db) {db' : Db}
    → IsLedger db
    → (if b
        then (adjust_stock (restocked user w (quantity_in db.stocks d.variant_id w) d) db >>= λ r.
            ok r.1)
        else ok db)
      ≡ ok db'
    → Restocked w (λ v. if b && (d.variant_id == v) then d.quantity else pos 0) db db'
restock_by true user w d db l h =
    let ((m, db₁), e₁, h₁) = >>=-eq-ok _ _ h in
    let a = restocked user w (quantity_in db.stocks d.variant_id w) d in
    let (_, _, is) = adjust_stock-ok a db e₁ in
    let (l₁, now) = adjust_stock-IsLedger a db l e₁ in
    rw (← ok-injective h₁) (
      l₁,
      ap (λ x. x.variants) is,
      ap (λ x. x.payments) is,
      ap (λ x. x.debts) is,
      ap (λ x. x.balances) is,
      λ v k.
          now v k
          ∙ added (d.variant_id == v) (w == k) (quantity_in db.stocks v k)
              (quantity_in db.stocks d.variant_id w) d.quantity
              (λ e f.
                let same : (v ≡ d.variant_id) × (k ≡ w) = ground arith in rw (same.0, same.1) refl),
    )
restock_by false user w d db l h = rw (← ok-injective h) (
  l,
  refl,
  refl,
  refl,
  refl,
  λ v k. elim (Bool-cases (w == k)) [
    | inl e ↦ rw e (omega int_laws)
    | inr e ↦ rw e (omega int_laws)
  ],
)

-- One round of the loop: a detail of another sale is passed over.
round-Restocked :
    (b : Bool) (user w : ℕ) (d : SaleDetail) (db : Db) {db' : Db}
    → IsLedger db
    → (if b then restock user w d db else ok db) ≡ ok db'
    → Restocked w
        (λ v.
          if b && (any (is_variant d.variant_id) db.variants && (d.variant_id == v))
          then d.quantity
          else pos 0)
        db
        db'
unfolding restock
round-Restocked true user w d db l h = restock_by _ user w d db l h
round-Restocked false user w d db l h = rw (← ok-injective h) (
  l,
  refl,
  refl,
  refl,
  refl,
  λ v k. elim (Bool-cases (w == k)) [
    | inl e ↦ rw e (omega int_laws)
    | inr e ↦ rw e (omega int_laws)
  ],
)

twice :
    (c : Bool) (x a b : ℤ)
    → (x +ℤ (if c then a else pos 0)) +ℤ (if c then b else pos 0)
      ≡ x +ℤ (if c then a +ℤ b else pos 0)
twice true x a b = omega int_laws
twice false x a b = omega int_laws

pub restock_all-Restocked :
    (user sale w : ℕ) (ds : List SaleDetail) (db : Db) {db' : Db}
    → IsLedger db
    → restock_all user sale w ds db ≡ ok db'
    → Restocked w (λ v. held sale v db.variants ds) db db'
unfolding restock_all
restock_all-Restocked user sale w [] db l h = rw (← ok-injective h) (
  l,
  refl,
  refl,
  refl,
  refl,
  λ v k. elim (Bool-cases (w == k)) [
    | inl e ↦ rw e (omega int_laws)
    | inr e ↦ rw e (omega int_laws)
  ],
)
restock_all-Restocked user sale w (d ∷ ds) db l h =
    let (db₁, e₁, h₁) = >>=-eq-ok _ _ h in
    let (l₁, a, b, c, e, now) = round-Restocked (d.sale == sale) user w d db l e₁ in
    let (l₂, a₂, b₂, c₂, e₂, later) = restock_all-Restocked user sale w ds db₁ l₁ h₁ in
    (
      l₂,
      a₂ ∙ a,
      b₂ ∙ b,
      c₂ ∙ c,
      e₂ ∙ e,
      λ v k.
          later v k
          ∙ ap (λ x. x +ℤ (if w == k then held sale v db₁.variants ds else pos 0)) (now v k)
          ∙ ap
              (λ vs.
                (quantity_in db.stocks v k
                  +ℤ (if w == k
                      then (if (d.sale == sale)
                            && (any (is_variant d.variant_id) db.variants && (d.variant_id == v))
                          then d.quantity
                          else pos 0)
                      else pos 0))
                +ℤ (if w == k then held sale v vs ds else pos 0))
              a
          ∙ twice (w == k) (quantity_in db.stocks v k) _ (held sale v db.variants ds),
    )
