-- ===== src/Quotes/Frozen.antt =====
-- The sale of a quote comes to what was quoted.
use fivuza_backend.Prelude.{
  ℕ, Bool, ◌≡◌, refl, sym, ap, ◌∙◌, ℤ, pos, ◌+ℤ◌, ◌-ℤ◌, ◌*ℤ◌, ltb_ℤ, false, Option, List, [], ◌∷◌,
  ◌++◌, All, int_laws,
}
use fivuza_backend.Result.{ok, >>=-eq-ok, ok-injective}
use fivuza_backend.Model.{Db}
use fivuza_backend.Model.Users.{User}
use fivuza_backend.Model.Sales.{Customer, CashSession, Sale}
use fivuza_backend.Decimals.{round2}
use fivuza_backend.Decimals.Rounding.{round2_whole}
use fivuza_backend.Authorization.{Env}
use fivuza_backend.Sales.Lines.{
  Cart, PreparedLine, empty_cart, add_line, capped, prepare_line, prepare_lines,
}
use fivuza_backend.Sales.Payments.{Payment, payments_total}
use fivuza_backend.Sales.Create.{create_sale}
use fivuza_backend.Sales.Outcome.{create_sale-Accepted}
use fivuza_backend.Quotes.{
  QuoteDetail, Quote, QuoteLine, Basket, empty_basket, Desk, accepted, marked, line_amount,
  quote_lines, create_quote,
}
use fivuza_backend.Quotes.Conversion.{frozen_line, frozen_lines, quote_request, sell_quote}

abbrev pub amounts : List QuoteDetail → ℤ
amounts [] = pos 0
amounts (d ∷ ds) = line_amount d.unit_price d.quantity +ℤ amounts ds

abbrev pub discounts : List QuoteDetail → ℤ
discounts [] = pos 0
discounts (d ∷ ds) = d.discount_amount +ℤ discounts ds

-- No discount is more than its line.
abbrev pub IsCovered : QuoteDetail → Type 0
IsCovered d = ltb_ℤ (line_amount d.unit_price d.quantity) d.discount_amount ≡ false

-- The totals of a basket are those of its lines.
record Totals (b : Basket) : Type 0 where
  subtotal_is : b.subtotal ≡ amounts b.prepared_lines
  discount_is : b.discount_total ≡ discounts b.prepared_lines

amounts-append : (xs ys : List QuoteDetail) → amounts (xs ++ ys) ≡ amounts xs +ℤ amounts ys
amounts-append [] ys = omega int_laws
amounts-append (x ∷ xs) ys = rw (amounts-append xs ys) (omega int_laws)

discounts-append : (xs ys : List QuoteDetail) → discounts (xs ++ ys) ≡ discounts xs +ℤ discounts ys
discounts-append [] ys = omega int_laws
discounts-append (x ∷ xs) ys = rw (discounts-append xs ys) (omega int_laws)

quote_lines-Totals :
    (at_time : ℕ) (db : Db) (lines : List QuoteLine) (b : Basket) {b' : Basket}
    → Totals b
    → quote_lines at_time db lines b ≡ ok b'
    → Totals b'
unfolding quote_lines
quote_lines-Totals at_time db [] b t h = rw (← ok-injective h) t
quote_lines-Totals at_time db (line ∷ lines) b t h =
    let (v, _, h₁) = >>=-eq-ok _ _ h in
    quote_lines-Totals at_time db lines _
      record {
        subtotal_is = rw (amounts-append b.prepared_lines _, t.subtotal_is) (omega int_laws);
        discount_is = rw (discounts-append b.prepared_lines _, t.discount_is) (omega int_laws);
      }
      h₁

times_one : (x : ℤ) → x *ℤ pos 1 ≡ x
unfolding ◌*ℤ◌
times_one x = grind int_laws

frozen_discount : (x d : ℤ) → ltb_ℤ x d ≡ false → capped (record { hundredths = d; over = 1 }) x ≡ d
frozen_discount x d h = rw (times_one x, h) (round2_whole d)

prepare_line-frozen :
    (w : ℕ) (allow : Bool) (at_time : ℕ) (db : Db) (d : QuoteDetail) {p : PreparedLine} {s : ℤ}
    → IsCovered d
    → prepare_line w allow at_time db (frozen_line d) ≡ ok (p, s)
    → (s ≡ line_amount d.unit_price d.quantity) × (p.discount_amount ≡ d.discount_amount)
unfolding prepare_line
prepare_line-frozen w allow at_time db d c h =
    let (_, _, h₁) = >>=-eq-ok _ _ h in
    let (_, _, h₂) = >>=-eq-ok _ _ h₁ in
    rw (← ap (λ r. r.1) (ok-injective h₂), ← ap (λ r. r.0) (ok-injective h₂))
      (
        amount,
        ap (capped (record { hundredths = d.discount_amount; over = 1 })) amount
            ∙ frozen_discount _ _ c,
      )
  where
    amount :
        round2 (round2 d.unit_price 1 *ℤ round2 d.quantity 1) 100
        ≡ line_amount d.unit_price d.quantity
    amount = rw (round2_whole d.unit_price, round2_whole d.quantity) refl

prepare_lines-frozen :
    (w : ℕ) (allow : Bool) (at_time : ℕ) (db : Db) (ds : List QuoteDetail) (cart : Cart)
    {cart' : Cart}
    → All IsCovered ds
    → prepare_lines w allow at_time db (frozen_lines ds) cart ≡ ok cart'
    → (cart'.subtotal ≡ cart.subtotal +ℤ amounts ds)
      × (cart'.discount_total ≡ cart.discount_total +ℤ discounts ds)
unfolding prepare_lines
prepare_lines-frozen w allow at_time db [] cart c h =
    rw (← ok-injective h) (omega int_laws, omega int_laws)
prepare_lines-frozen w allow at_time db (d ∷ ds) cart (c, cs) h =
    let ((p, s), e₁, h₁) = >>=-eq-ok _ _ h in
    let (x, y) = prepare_line-frozen w allow at_time db d c e₁ in
    let (a, b) =
      prepare_lines-frozen w allow at_time db ds (add_line (frozen_line d) p s cart) cs h₁ in
    (rw (a, x) (omega int_laws), rw (b, y) (omega int_laws))

-- What a quote comes to, which a sale of it has to match.
record Sound (q : Quote) : Type 0 where
  subtotal_is : q.subtotal ≡ amounts q.details
  discount_is : q.discount_total ≡ discounts q.details
  total_is : q.total ≡ q.subtotal -ℤ q.discount_total

create_quote-Sound :
    (env : Env) (customer : Customer) (user : User) (lines : List QuoteLine) (valid_until : ℕ)
    (at_time token : Option ℕ) (desk : Desk) {q : Quote} {desk' : Desk}
    → create_quote env customer user lines valid_until at_time token desk ≡ ok (q, desk')
    → Sound q
unfolding create_quote
create_quote-Sound env customer user lines valid_until at_time token desk h =
    let (b, e₁, h₁) = >>=-eq-ok _ _ h in
    let (_, _, h₂) = >>=-eq-ok _ _ h₁ in
    let t =
      quote_lines-Totals _ desk.db lines empty_basket
        record { subtotal_is = refl; discount_is = refl } e₁ in
    rw (← ap (λ r. r.0) (ok-injective h₂))
      record { subtotal_is = t.subtotal_is; discount_is = t.discount_is; total_is = refl }

sell_quote-create_sale :
    (env : Env) (q : Quote) (session : CashSession) (user : User) (payments : List Payment)
    (desk : Desk) {sale : Sale} {desk' : Desk}
    → sell_quote env q session user payments desk ≡ ok (sale, desk')
    → (n : ℕ) × (db' : Db) × (create_sale env (quote_request q session user payments) desk.db
        ≡ ok (sale, n, db'))
unfolding sell_quote
sell_quote-create_sale env q session user payments desk h =
    let (_, _, h₁) = >>=-eq-ok _ _ h in
    let (_, _, h₂) = >>=-eq-ok _ _ h₁ in
    let (_, _, h₃) = >>=-eq-ok _ _ h₂ in
    let ((sale, n, db'), e, h₄) = >>=-eq-ok _ _ h₃ in
    (n, db', e ∙ ap (λ s. ok (s, n, db')) (ap (λ r. r.0) (ok-injective h₄)))

-- A quote that was made and then accepted, whose discounts are no more than their lines, can become
-- a sale whenever and whatever has happened to prices and promotions since: the sale has the
-- subtotal, the discount and the total that were quoted, and the payments come to that total.
pub sell_quote-create_quote :
    (env env' : Env) (customer : Customer) (user user' : User) (lines : List QuoteLine)
    (valid_until : ℕ) (at_time token : Option ℕ) (session : CashSession) (payments : List Payment)
    (desk later : Desk) {q : Quote} {desk' : Desk} {sale : Sale} {later' : Desk}
    → create_quote env customer user lines valid_until at_time token desk ≡ ok (q, desk')
    → All IsCovered q.details
    → sell_quote env' (marked accepted q) session user' payments later ≡ ok (sale, later')
    → (sale.subtotal ≡ q.subtotal)
      × (sale.discount_total ≡ q.discount_total)
      × (sale.total ≡ q.total)
      × (payments_total payments ≡ q.total)
sell_quote-create_quote env env' customer user user' lines valid_until at_time token session
      payments desk later {q} made covered sold =
    let t = create_quote-Sound env customer user lines valid_until at_time token desk made in
    let (n, db', e) =
      sell_quote-create_sale env' (marked accepted q) session user' payments later sold in
    let request = quote_request (marked accepted q) session user' payments in
    let (cart, a, w) = create_sale-Accepted env' request later.db e in
    let (x, y) =
      prepare_lines-frozen session.cash_register.warehouse false env'.now later.db q.details
        empty_cart covered a.prepared in
    let sub : cart.subtotal ≡ q.subtotal = x ∙ rw t.subtotal_is (omega int_laws) in
    let dis : cart.discount_total ≡ q.discount_total = y ∙ rw t.discount_is (omega int_laws) in
    let tot : cart.subtotal -ℤ cart.discount_total ≡ q.total = rw (sub, dis) (sym t.total_is) in
    (
      ap (λ (s : Sale). s.subtotal) w.is_sale ∙ sub,
      ap (λ (s : Sale). s.discount_total) w.is_sale ∙ dis,
      ap (λ (s : Sale). s.total) w.is_sale ∙ tot,
      a.matched ∙ tot,
    )
