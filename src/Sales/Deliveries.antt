-- ===== src/Sales/Deliveries.antt =====
-- What a sale takes from the stock, when no two of its lines are of one variant.
use fivuza_backend.Prelude.{
  ℕ, suc, ◌≡◌, refl, sym, ap, ◌∙◌, ℤ, pos, ◌+ℤ◌, ◌-ℤ◌, Bool, false, List, [], ◌∷◌, ◌++◌, ◌==◌,
  if◌then◌else◌, Bool-cases, inl, inr, arith, length, All, first, append_nil, append_one,
}
use fivuza_backend.Result.{ok, >>=-eq-ok, ok-injective}
use fivuza_backend.Model.{Db}
use fivuza_backend.Model.Inventory.{ProductVariant}
use fivuza_backend.Model.Sales.{Sale}
use fivuza_backend.Inventory.{quantity_in}
use fivuza_backend.Authorization.{Env}
use fivuza_backend.Sales.Lines.{
  SaleLine, PreparedLine, Cart, empty_cart, add_line, prepare_line, prepare_lines, is_variant,
  found_variant, rounded,
}
use fivuza_backend.Sales.Create.{SaleRequest, record_lines, create_sale, sale_of, given_or}
use fivuza_backend.Sales.Outcome.{create_sale-Accepted}
use fivuza_backend.Sales.Discounts.{authorize_discount-ok}
use fivuza_backend.Sales.Rows.{record_payments-rows}
use fivuza_backend.Sales.Shelves.{sold_of, Lacks, Apart, Reads, record_lines-delivers}

-- The prepared lines are those of the request, one for one.
abbrev pub Prepares : ℕ → Db → List SaleLine → List PreparedLine → Type 0
Prepares w db [] [] = Unit
Prepares w db (line ∷ lines) (p ∷ ps) =
    (p.variant.id ≡ line.variant_id)
    × (p.quantity ≡ rounded line.quantity)
    × (p.current_quantity ≡ quantity_in db.stocks p.variant.id w)
    × Prepares w db lines ps
Prepares w db [] (_ ∷ _) = ⊥
Prepares w db (_ ∷ _) [] = ⊥

found_variant-id :
    (i : ℕ) (vs : List ProductVariant) {v : ProductVariant}
    → found_variant (first (is_variant i) vs) ≡ ok v
    → v.id ≡ i
found_variant-id i [] h = cc
found_variant-id i (u ∷ vs) h = elim (Bool-cases (u.id == i)) [
  | inl e ↦ rw (← ok-injective (rw e at h)) (ground arith)
  | inr e ↦ found_variant-id i vs (rw e at h)
]

prepare_line-request :
    (w : ℕ) (allow : Bool) (at_time : ℕ) (db : Db) (line : SaleLine) {p : PreparedLine} {s : ℤ}
    → prepare_line w allow at_time db line ≡ ok (p, s)
    → (p.variant.id ≡ line.variant_id)
      × (p.quantity ≡ rounded line.quantity)
      × (p.current_quantity ≡ quantity_in db.stocks p.variant.id w)
unfolding prepare_line
prepare_line-request w allow at_time db line h =
    let (v, e₁, h₁) = >>=-eq-ok _ _ h in
    let (_, _, h₂) = >>=-eq-ok _ _ h₁ in
    rw (← ap (λ r. r.0) (ok-injective h₂))
      (found_variant-id line.variant_id db.variants e₁, refl, refl)

prepare_lines-Prepares :
    (w : ℕ) (allow : Bool) (at_time : ℕ) (db : Db) (lines : List SaleLine) (cart : Cart)
    {cart' : Cart}
    → prepare_lines w allow at_time db lines cart ≡ ok cart'
    → (ps : List PreparedLine) × (cart'.prepared_lines ≡ cart.prepared_lines ++ ps)
      × Prepares w db lines ps
unfolding prepare_lines
prepare_lines-Prepares w allow at_time db [] cart h =
    ([], rw (← ok-injective h) (append_nil cart.prepared_lines), tt)
prepare_lines-Prepares w allow at_time db (line ∷ lines) cart h =
    let ((p, s), e₁, h₁) = >>=-eq-ok _ _ h in
    let (ps, e, m) = prepare_lines-Prepares w allow at_time db lines (add_line line p s cart) h₁ in
    let (a, b, c) = prepare_line-request w allow at_time db line e₁ in
    (p ∷ ps, e ∙ append_one cart.prepared_lines ps p, (a, b, c, m))

-- The quantity of one variant in the lines of a request, in hundredths.
abbrev pub asked_of : ℕ → List SaleLine → ℤ
asked_of v [] = pos 0
asked_of v (line ∷ lines) =
    (if line.variant_id == v then rounded line.quantity else pos 0) +ℤ asked_of v lines

-- No two lines are of one variant.
abbrev pub LinesApart : List SaleLine → Type 0
LinesApart [] = Unit
LinesApart (line ∷ lines) =
    All (λ (l : SaleLine). (l.variant_id == line.variant_id) ≡ false) lines × LinesApart lines

Prepares-sold :
    (w v : ℕ) (db : Db) (lines : List SaleLine) (ps : List PreparedLine)
    → Prepares w db lines ps
    → sold_of v ps ≡ asked_of v lines
Prepares-sold w v db [] [] m = refl
Prepares-sold w v db (line ∷ lines) (p ∷ ps) (a, b, _, m) =
    rw (a, b, Prepares-sold w v db lines ps m) refl
Prepares-sold w v db [] (p ∷ ps) m = elim m [ ]
Prepares-sold w v db (line ∷ lines) [] m = elim m [ ]

Prepares-Reads :
    (w : ℕ) (db : Db) (lines : List SaleLine) (ps : List PreparedLine)
    → Prepares w db lines ps
    → Reads w db.stocks ps
Prepares-Reads w db [] [] m = tt
Prepares-Reads w db (line ∷ lines) (p ∷ ps) (_, _, c, m) = (c, Prepares-Reads w db lines ps m)
Prepares-Reads w db [] (p ∷ ps) m = elim m [ ]
Prepares-Reads w db (line ∷ lines) [] m = elim m [ ]

Prepares-Lacks :
    (w v : ℕ) (db : Db) (lines : List SaleLine) (ps : List PreparedLine)
    → Prepares w db lines ps
    → All (λ (l : SaleLine). (l.variant_id == v) ≡ false) lines
    → Lacks v ps
Prepares-Lacks w v db [] [] m h = tt
Prepares-Lacks w v db (line ∷ lines) (p ∷ ps) (a, _, _, m) (h, hs) =
    (rw a h, Prepares-Lacks w v db lines ps m hs)
Prepares-Lacks w v db [] (p ∷ ps) m h = elim m [ ]
Prepares-Lacks w v db (line ∷ lines) [] m h = elim m [ ]

Prepares-Apart :
    (w : ℕ) (db : Db) (lines : List SaleLine) (ps : List PreparedLine)
    → Prepares w db lines ps
    → LinesApart lines
    → Apart ps
Prepares-Apart w db [] [] m h = tt
Prepares-Apart w db (line ∷ lines) (p ∷ ps) (a, _, _, m) (h, hs) =
    (rw a (Prepares-Lacks w line.variant_id db lines ps m h), Prepares-Apart w db lines ps m hs)
Prepares-Apart w db [] (p ∷ ps) m h = elim m [ ]
Prepares-Apart w db (line ∷ lines) [] m h = elim m [ ]

-- The cart's lines are those of the request.
cart_lines :
    (w v k user sale : ℕ) (db db₁ : Db) (lines : List SaleLine) (ps : List PreparedLine) {db' : Db}
    → db₁.stocks ≡ db.stocks
    → LinesApart lines
    → Prepares w db lines ps
    → record_lines user sale w ps db₁ ≡ ok db'
    → quantity_in db'.stocks v k
      ≡ quantity_in db.stocks v k -ℤ (if w == k then asked_of v lines else pos 0)
cart_lines w v k user sale db db₁ lines ps same apart m h =
    let reads = Prepares-Reads w db lines ps m in
    record_lines-delivers user sale w ps db₁ (Prepares-Apart w db lines ps m apart) (rw same reads)
      h v k
    ∙ rw (same, Prepares-sold w v db lines ps m) refl

-- A sale that is not refused, whose lines are of different variants, takes the rounded quantity of
-- each line from the stock of its variant in the session's warehouse, and changes no other stock.
pub create_sale_delivers :
    (env : Env) (r : SaleRequest) (db : Db) {sale : Sale} {n : ℕ} {db' : Db}
    → LinesApart r.lines
    → create_sale env r db ≡ ok (sale, n, db')
    → (v k : ℕ)
    → quantity_in db'.stocks v k
      ≡ quantity_in db.stocks v k
        -ℤ (if r.cash_session.cash_register.warehouse == k then asked_of v r.lines else pos 0)
create_sale_delivers env r db {sale} {n} {db'} apart h v k =
    let (cart, a, w) = create_sale-Accepted env r db h in
    let (_, e) = authorize_discount-ok env r cart.manual_discount_percent db w.authorized in
    let i = suc (length w.spent.sales) in
    let db₁ : Db = record w.spent { sales = sale_of env r cart i ∷ w.spent.sales } in
    let here = r.cash_session.cash_register.warehouse in
    let (ps, is, m) =
      prepare_lines-Prepares here r.allow_oversell (given_or r.at_time env.now) db r.lines
        empty_cart a.prepared in
    let (_, _, stocks, _, _) =
      record_payments-rows env r.customer i (given_or r.at_time env.now) r.payments w.delivered
        w.payments_done in
    let done : record_lines r.user.id i here ps db₁ ≡ ok w.delivered =
      ap (λ qs. record_lines r.user.id i here qs db₁) (sym is) ∙ w.lines_done in
    ap (λ (x : Db). quantity_in x.stocks v k) w.ends
    ∙ ap (λ s. quantity_in s v k) stocks
    ∙ cart_lines here v k r.user.id i db db₁ r.lines ps (ap (λ x. x.stocks) e) apart m done
