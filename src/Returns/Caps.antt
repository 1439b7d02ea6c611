-- ===== src/Returns/Caps.antt =====
-- Returns stay within what was sold and paid.
use fivuza_backend.Prelude.{
  ℕ, suc, ◌≡◌, refl, sym, ap, ◌∙◌, ℤ, pos, negsuc, ◌-ℤ◌, ◌≤ℤ◌, ltb_ℤ, eqb_ℤ, Bool, true, false,
  ◌&&◌, some, List, [], ◌∷◌, ◌==◌, first, All, inl, inr, Bool-cases, arith, int_laws,
}
use fivuza_backend.Result.{ok, >>=-eq-ok, raise_if-ok, ok-injective}
use fivuza_backend.Model.{Db}
use fivuza_backend.Model.Sales.{SaleDetail, SaleReturnDetail}
use fivuza_backend.Decimals.{round2, half_up}
use fivuza_backend.Decimals.Rounding.{half_up_exact}
use fivuza_backend.Returns.{
  ReturnItem, PreparedItem, is_detail, found_detail, returned_of, refunded_of, refund_for,
  prepare_item, prepare_items,
}

half_up-one : (n : ℕ) → half_up n 1 ≡ n
half_up-one n = ap (λ k. half_up k 1) (omega arith) ∙ half_up_exact n 1 (omega arith)

round2-one : (x : ℤ) → round2 x 1 ≡ x
unfolding round2
round2-one (pos n) = rw (half_up-one n) refl
round2-one (negsuc n) = rw (half_up-one (suc n)) (omega int_laws)

-- What an item asks for fits what is left of its detail, and what completes the detail takes all
-- that is left to refund.
abbrev pub Fits : List SaleReturnDetail → PreparedItem → Type 0
Fits rows p =
    (p.quantity_returned ≤ℤ (p.sale_detail.quantity -ℤ returned_of p.sale_detail.id rows))
    × (p.subtotal ≤ℤ (p.sale_detail.subtotal -ℤ refunded_of p.sale_detail.id rows))
    × (p.quantity_returned ≡ p.sale_detail.quantity -ℤ returned_of p.sale_detail.id rows
        → p.subtotal ≡ p.sale_detail.subtotal -ℤ refunded_of p.sale_detail.id rows)

eqb_of-eq : (a b : ℤ) → a ≡ b → eqb_ℤ a b ≡ true
eqb_of-eq a b e = rw e (ground arith)

refund_for-bounds :
    (b : Bool) (d : SaleDetail) (q remaining : ℤ) {x : ℤ}
    → refund_for b d q remaining ≡ ok x
    → (x ≤ℤ remaining) × (b ≡ true → x ≡ remaining)
refund_for-bounds true d q remaining h = rw (← ok-injective h) (omega int_laws, λ _. refl)
refund_for-bounds false d q remaining h =
    let (y, _, h₁) = >>=-eq-ok _ _ h in rw (← ok-injective h₁) (ground arith, λ e. cc)

item-Fits :
    (rows : List SaleReturnDetail) (d : SaleDetail) (q x : ℤ) (b : Bool)
    → ltb_ℤ (d.quantity -ℤ returned_of d.id rows) q ≡ false
    → refund_for
        (eqb_ℤ q (d.quantity -ℤ returned_of d.id rows))
        d
        q
        (round2 (d.subtotal -ℤ refunded_of d.id rows) 1)
      ≡ ok x
    → Fits rows (record { sale_detail = d; quantity_returned = q; restock = b; subtotal = x })
item-Fits rows d q x b h e =
    let left = round2-one (d.subtotal -ℤ refunded_of d.id rows) in
    let (most, rest) =
      refund_for-bounds (eqb_ℤ q (d.quantity -ℤ returned_of d.id rows)) d q
        (round2 (d.subtotal -ℤ refunded_of d.id rows) 1) e in
    (
      ground arith,
      rw left at most,
      λ k. rest (eqb_of-eq q (d.quantity -ℤ returned_of d.id rows) k) ∙ left,
    )

-- The detail of the item is the one that the table has under its identifier for this sale.
abbrev pub Found : ℕ → List SaleDetail → PreparedItem → Type 0
Found sale details p = first (is_detail p.sale_detail.id sale) details ≡ some p.sale_detail

pub found_detail-id :
    (i sale : ℕ) (ds : List SaleDetail) {d : SaleDetail}
    → found_detail (first (is_detail i sale) ds) ≡ ok d
    → (d.id ≡ i) × (first (is_detail i sale) ds ≡ some d)
found_detail-id i sale [] h = cc
found_detail-id i sale (c ∷ ds) h = elim (Bool-cases ((c.id == i) && (c.sale == sale))) [
  | inl e ↦
      let same : c ≡ _ = ok-injective (rw e at h) in
      rw e (ap (λ x. x.id) (sym same) ∙ ground arith, ap some same)
  | inr e ↦ rw e (found_detail-id i sale ds (rw e at h))
]

prepare_item-Fits :
    (sale : ℕ) (db : Db) (item : ReturnItem) {p : PreparedItem}
    → prepare_item sale db item ≡ ok p
    → Fits db.return_details p × Found sale db.details p
unfolding prepare_item
prepare_item-Fits sale db item h =
    let (d, e₁, h₁) = >>=-eq-ok _ _ h in
    let (_, e₂, h₂) = >>=-eq-ok _ _ h₁ in
    let (x, e₃, h₃) = >>=-eq-ok _ _ h₂ in
    let (same, row) = found_detail-id item.sale_detail_id sale db.details e₁ in
    rw (← ok-injective h₃)
      (item-Fits db.return_details d _ x item.restock (raise_if-ok _ _ e₂) e₃, rw same row)

pub prepare_items-Fits :
    (sale : ℕ) (db : Db) (items : List ReturnItem) {ps : List PreparedItem}
    → prepare_items sale db items ≡ ok ps
    → All (λ p. Fits db.return_details p × Found sale db.details p) ps
unfolding prepare_items
prepare_items-Fits sale db [] h = rw (← ok-injective h) tt
prepare_items-Fits sale db (item ∷ items) h =
    let (p, e₁, h₁) = >>=-eq-ok _ _ h in
    let (ps, e₂, h₂) = >>=-eq-ok _ _ h₁ in
    rw (← ok-injective h₂) (prepare_item-Fits sale db item e₁, prepare_items-Fits sale db items e₂)
