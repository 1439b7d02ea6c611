-- ===== src/Sales/Totals.antt =====
-- The money of a sale: its total is what its lines come to and what was paid.
use fivuza_backend.Prelude.{
  ℕ, suc, ◌≡◌, refl, sym, ap, ◌∙◌, ℤ, pos, ◌+ℤ◌, ◌-ℤ◌, ◌∷◌, ◌==◌, if◌then◌else◌, int_laws, length,
}
use fivuza_backend.Result.{ok}
use fivuza_backend.Model.{Db}
use fivuza_backend.Model.Sales.{Sale}
use fivuza_backend.Authorization.{Env}
use fivuza_backend.Sales.Lines.{Cart, empty_cart}
use fivuza_backend.Sales.Payments.{payments_total}
use fivuza_backend.Sales.Create.{SaleRequest, create_sale, sale_of, given_or}
use fivuza_backend.Sales.Outcome.{create_sale-Accepted, Written}
use fivuza_backend.Sales.Discounts.{authorize_discount-ok}
use fivuza_backend.Sales.Rows.{
  details_total, paid_in, lines_total, prepare_lines-balanced, record_lines-rows,
  record_payments-rows,
}

-- The totals of the new row.
sale_row :
    (env : Env) (r : SaleRequest) (cart : Cart) (i : ℕ) (sale : Sale)
    → sale ≡ sale_of env r cart i
    → (sale.id ≡ i)
      × (sale.total ≡ cart.subtotal -ℤ cart.discount_total)
      × (sale.total ≡ sale.subtotal -ℤ sale.discount_total)
sale_row env r cart i sale e = rw e (refl, refl, refl)

-- The share of one sale, by its identifier and its total.
same_share :
    (i k j : ℕ) (x y t : ℤ)
    → k ≡ i
    → y ≡ x
    → (if i == j then x else pos 0) +ℤ t ≡ (if k == j then y else pos 0) +ℤ t
same_share i k j x y t e f = rw (e, f) refl

-- The sums of the details and of the payments after the writes.
Written-rows :
    (env : Env) (r : SaleRequest) (cart : Cart) (db : Db) (sale : Sale) (n : ℕ) (db' : Db)
    → cart.subtotal -ℤ cart.discount_total ≡ lines_total cart.prepared_lines
    → payments_total r.payments ≡ cart.subtotal -ℤ cart.discount_total
    → Written env r cart db sale n db'
    → (db'.sales ≡ sale ∷ db.sales)
      × ((i : ℕ)
          → details_total i db'.details
            ≡ (if sale.id == i then sale.total else pos 0) +ℤ details_total i db.details)
      × ((i : ℕ)
          → paid_in i db'.payments
            ≡ (if sale.id == i then sale.total else pos 0) +ℤ paid_in i db.payments)
Written-rows env r cart db sale n db' total matched w =
    let (_, e) = authorize_discount-ok env r cart.manual_discount_percent db w.authorized in
    let k = suc (length w.spent.sales) in
    let db₁ : Db = record w.spent { sales = sale_of env r cart k ∷ w.spent.sales } in
    let (p, s, d) =
      record_lines-rows r.user.id k r.cash_session.cash_register.warehouse cart.prepared_lines db₁
        w.lines_done in
    let (d', s', _, _, p') =
      record_payments-rows env r.customer k (given_or r.at_time env.now) r.payments w.delivered
        w.payments_done in
    let (id_is, total_is, _) = sale_row env r cart k sale w.is_sale in
    (
      ap (λ x. x.sales) w.ends
          ∙ s'
          ∙ s
          ∙ ap (λ x. x ∷ w.spent.sales) (sym w.is_sale)
          ∙ ap (λ (x : Db). sale ∷ x.sales) e,
      λ j.
          ap (λ (x : Db). details_total j x.details) w.ends
          ∙ ap (details_total j) d'
          ∙ d j
          ∙ ap
              (λ (x : Db).
                (if k == j then lines_total cart.prepared_lines else pos 0)
                +ℤ details_total j x.details)
              e
          ∙ same_share k sale.id j _ sale.total _ id_is (total_is ∙ total),
      λ j.
          ap (λ (x : Db). paid_in j x.payments) w.ends
          ∙ p' j
          ∙ ap (λ rows. (if k == j then payments_total r.payments else pos 0) +ℤ paid_in j rows) p
          ∙ ap
              (λ (x : Db).
                (if k == j then payments_total r.payments else pos 0) +ℤ paid_in j x.payments)
              e
          ∙ same_share k sale.id j _ sale.total _ id_is (total_is ∙ sym matched),
    )

-- A sale that is not refused is written down once, its total is its subtotal less its discounts,
-- and is both what the payments come to and what the new details come to; the sums of the details
-- and of the payments of every other sale stay as they were.
pub create_sale_adds_up :
    (env : Env) (r : SaleRequest) (db : Db) {sale : Sale} {n : ℕ} {db' : Db}
    → create_sale env r db ≡ ok (sale, n, db')
    → (db'.sales ≡ sale ∷ db.sales)
      × (sale.total ≡ sale.subtotal -ℤ sale.discount_total)
      × (payments_total r.payments ≡ sale.total)
      × ((i : ℕ)
          → details_total i db'.details
            ≡ (if sale.id == i then sale.total else pos 0) +ℤ details_total i db.details)
      × ((i : ℕ)
          → paid_in i db'.payments
            ≡ (if sale.id == i then sale.total else pos 0) +ℤ paid_in i db.payments)
create_sale_adds_up env r db {sale} {n} {db'} h =
    let (cart, a, w) = create_sale-Accepted env r db h in
    let total =
      prepare_lines-balanced r.cash_session.cash_register.warehouse r.allow_oversell
        (given_or r.at_time env.now) db r.lines empty_cart (omega int_laws) a.prepared in
    let (_, is_total, adds) = sale_row env r cart _ sale w.is_sale in
    let (sales, details, payments) = Written-rows env r cart db sale n db' total a.matched w in
    (sales, adds, a.matched ∙ sym is_total, details, payments)
