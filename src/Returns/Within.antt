-- ===== src/Returns/Within.antt =====
-- No return takes back more than was sold, or refunds more than was paid.
use fivuza_backend.Prelude.{
  ℕ, suc, ◌≡◌, refl, sym, ap, ◌∙◌, ℤ, pos, ◌+ℤ◌, ◌-ℤ◌, ◌≤ℤ◌, Option, none, some, List, [], ◌∷◌,
  first, All, inl, inr, int_laws, length,
}
use fivuza_backend.Result.{ok, >>=-eq-ok, ok-injective}
use fivuza_backend.Model.{Db}
use fivuza_backend.Model.Users.{Code, User, SupervisorAuthorization}
use fivuza_backend.Model.Sales.{
  SaleDetail, SaleReturnDetail, Sale, SaleReturn, CashSession, RefundType, to_balance, in_cash,
}
use fivuza_backend.Authorization.{Env, require}
use fivuza_backend.Authorization.Tokens.{consume_sound}
use fivuza_backend.Cash.{add_movement}
use fivuza_backend.Returns.{
  ReturnItem, PreparedItem, is_detail, returned_of, refunded_of, prepare_item, prepare_items,
  record_items, paid_out, authorize_refund, total_refund, return_of, write_return, create_return,
  refund_of,
}
use fivuza_backend.Returns.Caps.{Fits, Found, found_detail-id, prepare_items-Fits}
use fivuza_backend.Returns.Totals.{
  asked_of, refund_on, detail_ids, AreDistinct, one_item, record_items-rows,
}
use fivuza_backend.Returns.Permits.{require-spends}

-- Of each line of the sale: at most what was sold was returned, at most what it came to was
-- refunded, and once all of it was returned, exactly that.
abbrev pub Within : ℕ → Db → Type 0
Within sale db =
    (i : ℕ) (d : SaleDetail)
    → first (is_detail i sale) db.details ≡ some d
    → (returned_of i db.return_details ≤ℤ d.quantity)
      × (refunded_of i db.return_details ≤ℤ d.subtotal)
      × (returned_of i db.return_details ≡ d.quantity
          → refunded_of i db.return_details ≡ d.subtotal)

abbrev pub item_ids : List ReturnItem → List ℕ
item_ids [] = []
item_ids (x ∷ xs) = x.sale_detail_id ∷ item_ids xs

prepare_item-id :
    (sale : ℕ) (db : Db) (item : ReturnItem) {p : PreparedItem}
    → prepare_item sale db item ≡ ok p
    → p.sale_detail.id ≡ item.sale_detail_id
unfolding prepare_item
prepare_item-id sale db item h =
    let (d, e₁, h₁) = >>=-eq-ok _ _ h in
    let (_, _, h₂) = >>=-eq-ok _ _ h₁ in
    let (_, _, h₃) = >>=-eq-ok _ _ h₂ in
    rw (← ok-injective h₃) (found_detail-id item.sale_detail_id sale db.details e₁).0

prepare_items-ids :
    (sale : ℕ) (db : Db) (items : List ReturnItem) {ps : List PreparedItem}
    → prepare_items sale db items ≡ ok ps
    → detail_ids ps ≡ item_ids items
unfolding prepare_items
prepare_items-ids sale db [] h = rw (← ok-injective h) refl
prepare_items-ids sale db (item ∷ items) h =
    let (p, e₁, h₁) = >>=-eq-ok _ _ h in
    let (ps, e₂, h₂) = >>=-eq-ok _ _ h₁ in
    rw (← ok-injective h₂)
      (rw (prepare_item-id sale db item e₁, prepare_items-ids sale db items e₂) refl)

-- The bounds of one line after an item that fits it.
fitted :
    (quantity subtotal r f q x : ℤ)
    → q ≤ℤ (quantity -ℤ r)
    → x ≤ℤ (subtotal -ℤ f)
    → (q ≡ quantity -ℤ r → x ≡ subtotal -ℤ f)
    → (q +ℤ r ≤ℤ quantity) × (x +ℤ f ≤ℤ subtotal) × (q +ℤ r ≡ quantity → x +ℤ f ≡ subtotal)
fitted quantity subtotal r f q x a b c = (
  omega (int_laws, a),
  omega (int_laws, b),
  λ e.
      let all : q ≡ quantity -ℤ r = rw (← e) (omega int_laws) in
      let rest = c all in rw rest (omega int_laws),
)

same_row :
    (i sale : ℕ) (ds : List SaleDetail) (a b : SaleDetail)
    → first (is_detail i sale) ds ≡ some a
    → first (is_detail i sale) ds ≡ some b
    → a ≡ b
same_row i sale ds a b e f = let both : some a ≡ some b = sym e ∙ f in cc

fitted_line :
    (rows : List SaleReturnDetail) (p : PreparedItem) (i : ℕ) (d : SaleDetail)
    → p.sale_detail.id ≡ i
    → p.sale_detail ≡ d
    → Fits rows p
    → (p.quantity_returned +ℤ returned_of i rows ≤ℤ d.quantity)
      × (p.subtotal +ℤ refunded_of i rows ≤ℤ d.subtotal)
      × (p.quantity_returned +ℤ returned_of i rows ≡ d.quantity
          → p.subtotal +ℤ refunded_of i rows ≡ d.subtotal)
fitted_line rows p i d e g (most, less, all) =
    rw (← e, ← g)
      (fitted p.sale_detail.quantity p.sale_detail.subtotal (returned_of p.sale_detail.id rows)
        (refunded_of p.sale_detail.id rows) p.quantity_returned p.subtotal most less all)

zero_plus : (x : ℤ) → pos 0 +ℤ x ≡ x
zero_plus x = omega int_laws

-- The loop keeps the bounds.
record_items-Within :
    (sale user w n : ℕ) (ps : List PreparedItem) (db db₁ : Db) {db' : Db}
    → db₁.details ≡ db.details
    → db₁.return_details ≡ db.return_details
    → AreDistinct (detail_ids ps)
    → All (λ p. Fits db.return_details p × Found sale db.details p) ps
    → Within sale db
    → record_items user w n ps db₁ ≡ ok db'
    → Within sale db'
record_items-Within sale user w n ps db db₁ same rows apart fits within h i d row =
    let (details, x, y) = record_items-rows user w n ps db₁ h in
    let row' : first (is_detail i sale) db.details ≡ some d =
      ap (first (is_detail i sale)) (sym (details ∙ same)) ∙ row in
    let r = x i ∙ ap (λ rs. asked_of i ps +ℤ returned_of i rs) rows in
    let f = y i ∙ ap (λ rs. refund_on i ps +ℤ refunded_of i rs) rows in
    let (a, b, c) = within i d row' in
    elim (one_item sale db i ps apart fits) [
      | inl (q, z) ↦
          rw
            (
              r,
              f,
              q,
              z,
              zero_plus (returned_of i db.return_details),
              zero_plus (refunded_of i db.return_details),
            )
            (a, b, c)
      | inr (p, id, fit, found, q, z) ↦
          let of_p : p.sale_detail ≡ d =
            same_row i sale db.details p.sale_detail d
              (ap (λ k. first (is_detail k sale) db.details) (sym id) ∙ found) row' in
          rw (r, f, q, z) (fitted_line db.return_details p i d id of_p fit)
    ]

paid_out-rows :
    (type : RefundType) (session : Option CashSession) (s : Sale) (n user : ℕ) (x : ℤ) (db : Db)
    {db' : Db}
    → paid_out type session s n user x db ≡ ok db'
    → (db'.details ≡ db.details) × (db'.return_details ≡ db.return_details)
unfolding add_movement
paid_out-rows in_cash (some t) s n user x db h =
    let (_, _, h₁) = >>=-eq-ok _ _ h in rw (← ok-injective h₁) (refl, refl)
paid_out-rows in_cash none s n user x db h = cc
paid_out-rows to_balance session s n user x db h = rw (← ok-injective h) (refl, refl)

require-rows :
    (env : Env) (raw : Option ℕ) (user : User) (c : Code) (target : Option ℕ) (db : Db)
    {o : Option SupervisorAuthorization} {db' : Db}
    → require env raw user c target db ≡ ok (o, db')
    → (db'.details ≡ db.details) × (db'.return_details ≡ db.return_details)
require-rows env raw user c target db h = elim (require-spends env raw user c target db h) [
  | inl (_, e) ↦ (ap (λ x. x.details) e, ap (λ x. x.return_details) e)
  | inr (a, spent) ↦
      let (_, _, _, _, _, _, e) = consume_sound env raw user c target none db spent in
      (ap (λ x. x.details) e, ap (λ x. x.return_details) e)
]

authorize_refund-rows :
    (env : Env) (s : Sale) (type : RefundType) (user : User) (session : Option CashSession)
    (raw : Option ℕ) (db : Db) {db' : Db}
    → authorize_refund env s type user session raw db ≡ ok db'
    → (db'.details ≡ db.details) × (db'.return_details ≡ db.return_details)
unfolding authorize_refund
authorize_refund-rows env s to_balance user session raw db h = rw (← ok-injective h) (refl, refl)
authorize_refund-rows env s in_cash user session raw db h =
    let (_, _, h₁) = >>=-eq-ok _ _ h in
    let ((o, db₁), e, h₂) = >>=-eq-ok _ _ h₁ in
    rw (← ok-injective h₂) (require-rows env raw user Code.sales_cash_refund (some s.id) db e)

Within-same :
    (sale : ℕ) (db db' : Db)
    → db'.details ≡ db.details
    → db'.return_details ≡ db.return_details
    → Within sale db
    → Within sale db'
Within-same sale db db' e f w =
    λ i d row. rw f (w i d (ap (first (is_detail i sale)) (sym e) ∙ row))

write_return-Within :
    (s : Sale) (type : RefundType) (user : User) (session : Option CashSession)
    (ps : List PreparedItem) (db : Db) {r : SaleReturn} {db' : Db}
    → AreDistinct (detail_ids ps)
    → All (λ p. Fits db.return_details p × Found s.id db.details p) ps
    → Within s.id db
    → write_return s type user session ps db ≡ ok (r, db')
    → Within s.id db'
unfolding write_return
write_return-Within s type user session ps db {db' = db'} apart fits within h =
    let made = return_of s type user ps (suc (length db.returns)) in
    let (db₁, e₁, h₁) = >>=-eq-ok _ _ h in
    let (db₂, e₂, h₂) = >>=-eq-ok _ _ h₁ in
    let kept =
      record_items-Within s.id user.id s.warehouse (suc (length db.returns)) ps db
        (record db { returns = made ∷ db.returns }) refl refl apart fits within e₁ in
    let (a, b) =
      paid_out-rows type session s (suc (length db.returns)) user.id (total_refund ps) db₁ e₂ in
    let e = ap (λ x. x.1) (ok-injective h₂) in
    Within-same s.id db₁ db' (ap (λ x. x.details) (sym e) ∙ a)
      (ap (λ x. x.return_details) (sym e) ∙ b) kept

-- A return that is not refused, whose items are of different lines of the sale, keeps each of its
-- lines within bounds: at most what was sold is returned, at most what the line came to is
-- refunded, and once all of the line was returned, exactly that was refunded.
pub create_return-Within :
    (env : Env) (s : Sale) (items : List ReturnItem) (type : Option RefundType) (user : User)
    (session : Option CashSession) (raw : Option ℕ) (db : Db) {r : SaleReturn} {db' : Db}
    → AreDistinct (item_ids items)
    → Within s.id db
    → create_return env s items type user session raw db ≡ ok (r, db')
    → Within s.id db'
unfolding create_return
create_return-Within env s items type user session raw db apart within h =
    let ((o, db₁), e₁, h₁) = >>=-eq-ok _ _ h in
    let (_, _, h₂) = >>=-eq-ok _ _ h₁ in
    let (db₂, e₂, h₃) = >>=-eq-ok _ _ h₂ in
    let (ps, e₃, h₄) = >>=-eq-ok _ _ h₃ in
    let (a, b) = require-rows env raw user Code.sales_return (some s.id) db e₁ in
    let (c, d) = authorize_refund-rows env s (refund_of s type db₁) user session raw db₁ e₂ in
    write_return-Within s (refund_of s type db₁) user session ps db₂
      (rw (prepare_items-ids s.id db₂ items e₃) apart) (prepare_items-Fits s.id db₂ items e₃)
      (Within-same s.id db db₂ (c ∙ a) (d ∙ b) within) h₄
