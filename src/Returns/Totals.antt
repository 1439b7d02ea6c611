-- ===== src/Returns/Totals.antt =====
-- What is returned of each line of a sale in total.
use fivuza_backend.Prelude.{
  ℕ, ◌≡◌, refl, sym, ap, ◌∙◌, ℤ, pos, ◌+ℤ◌, Bool, true, false, List, [], ◌∷◌, ◌==◌, if◌then◌else◌,
  All, inl, inr, ◌⊎◌, Bool-cases, arith, int_laws,
}
use fivuza_backend.Result.{ok, ◌>>=◌, >>=-eq-ok, ok-injective}
use fivuza_backend.Model.{Db}
use fivuza_backend.Model.Sales.{SaleDetail}
use fivuza_backend.Inventory.{adjust_stock, quantity_in}
use fivuza_backend.Inventory.Kardex.{adjust_stock-ok}
use fivuza_backend.Sales.Void.{restock, restocked}
use fivuza_backend.Returns.{
  PreparedItem, returned_of, refunded_of, return_detail, record_items, brought,
}
use fivuza_backend.Returns.Caps.{Fits, Found}

-- The sums of the items of one detail.
abbrev pub asked_of : ℕ → List PreparedItem → ℤ
asked_of i [] = pos 0
asked_of i (p ∷ ps) =
    (if p.sale_detail.id == i then p.quantity_returned else pos 0) +ℤ asked_of i ps

abbrev pub refund_on : ℕ → List PreparedItem → ℤ
refund_on i [] = pos 0
refund_on i (p ∷ ps) = (if p.sale_detail.id == i then p.subtotal else pos 0) +ℤ refund_on i ps

abbrev pub detail_ids : List PreparedItem → List ℕ
detail_ids [] = []
detail_ids (p ∷ ps) = p.sale_detail.id ∷ detail_ids ps

abbrev pub AreDistinct : List ℕ → Type 0
AreDistinct [] = Unit
AreDistinct (n ∷ ns) = All (λ m. (m == n) ≡ false) ns × AreDistinct ns

no_item :
    (i : ℕ) (ps : List PreparedItem)
    → All (λ m. (m == i) ≡ false) (detail_ids ps)
    → (asked_of i ps ≡ pos 0) × (refund_on i ps ≡ pos 0)
no_item i [] h = (refl, refl)
no_item i (p ∷ ps) (h, hs) =
    let (a, b) = no_item i ps hs in (rw (h, a) (omega int_laws), rw (h, b) (omega int_laws))

-- Of distinct items, none or one is of a given detail.
pub one_item :
    (sale : ℕ) (db : Db) (i : ℕ) (ps : List PreparedItem)
    → AreDistinct (detail_ids ps)
    → All (λ p. Fits db.return_details p × Found sale db.details p) ps
    → ((asked_of i ps ≡ pos 0) × (refund_on i ps ≡ pos 0))
      ⊎ ((p : PreparedItem) × (p.sale_detail.id ≡ i)
          × Fits db.return_details p
          × Found sale db.details p
          × (asked_of i ps ≡ p.quantity_returned)
          × (refund_on i ps ≡ p.subtotal))
one_item sale db i [] a h = inl (refl, refl)
one_item sale db i (p ∷ ps) (apart, a) ((fits, found), h) =
    elim (Bool-cases (p.sale_detail.id == i)) [
      | inl e ↦
          let same : p.sale_detail.id ≡ i = ground arith in
          let (x, y) = no_item p.sale_detail.id ps apart in
          let x' : asked_of i ps ≡ pos 0 = ap (λ k. asked_of k ps) (sym same) ∙ x in
          let y' : refund_on i ps ≡ pos 0 = ap (λ k. refund_on k ps) (sym same) ∙ y in
          inr (p, same, fits, found, rw (e, x') (omega int_laws), rw (e, y') (omega int_laws))
      | inr e ↦ elim (one_item sale db i ps a h) [
        | inl (x, y) ↦ inl (rw (e, x) (omega int_laws), rw (e, y) (omega int_laws))
        | inr (q, same, f, g, x, y) ↦
            inr (q, same, f, g, rw (e, x) (omega int_laws), rw (e, y) (omega int_laws))
      ]
    ]

-- Putting goods on the shelf changes no return and no detail.
restock_by-rows :
    (b : Bool) (user w : ℕ) (d : SaleDetail) (db : Db) {db' : Db}
    → (if b
        then (adjust_stock (restocked user w (quantity_in db.stocks d.variant_id w) d) db >>= λ r.
            ok r.1)
        else ok db)
      ≡ ok db'
    → (db'.return_details ≡ db.return_details) × (db'.details ≡ db.details)
restock_by-rows true user w d db h =
    let ((m, db₁), e₁, h₁) = >>=-eq-ok _ _ h in
    let (_, _, is) =
      adjust_stock-ok (restocked user w (quantity_in db.stocks d.variant_id w) d) db e₁ in
    rw (← ok-injective h₁) (ap (λ x. x.return_details) is, ap (λ x. x.details) is)
restock_by-rows false user w d db h = rw (← ok-injective h) (refl, refl)

round-rows :
    (b : Bool) (user w : ℕ) (d : SaleDetail) (db : Db) {db' : Db}
    → (if b then restock user w d db else ok db) ≡ ok db'
    → (db'.return_details ≡ db.return_details) × (db'.details ≡ db.details)
unfolding restock
round-rows true user w d db h = restock_by-rows _ user w d db h
round-rows false user w d db h = rw (← ok-injective h) (refl, refl)

pub record_items-rows :
    (user w n : ℕ) (ps : List PreparedItem) (db : Db) {db' : Db}
    → record_items user w n ps db ≡ ok db'
    → (db'.details ≡ db.details)
      × ((i : ℕ)
          → returned_of i db'.return_details ≡ asked_of i ps +ℤ returned_of i db.return_details)
      × ((i : ℕ)
          → refunded_of i db'.return_details ≡ refund_on i ps +ℤ refunded_of i db.return_details)
unfolding record_items
record_items-rows user w n [] db h =
    rw (← ok-injective h) (refl, λ i. omega int_laws, λ i. omega int_laws)
record_items-rows user w n (p ∷ ps) db h =
    let db₁ : Db = record db { return_details = return_detail n p ∷ db.return_details } in
    let (db₂, e₁, h₁) = >>=-eq-ok _ _ h in
    let (a, b) = round-rows p.restock user w (brought p) db₁ e₁ in
    let (c, x, y) = record_items-rows user w n ps db₂ h₁ in
    (
      c ∙ b,
      λ i. x i ∙ ap (λ rows. asked_of i ps +ℤ returned_of i rows) a ∙ omega int_laws,
      λ i. y i ∙ ap (λ rows. refund_on i ps +ℤ refunded_of i rows) a ∙ omega int_laws,
    )
