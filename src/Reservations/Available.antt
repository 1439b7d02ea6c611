-- ===== src/Reservations/Available.antt =====
-- What is left of a stock when the reservations are taken off.
use fivuza_backend.Prelude.{
  ℕ, ◌≡◌, refl, ap, ℤ, pos, ◌+ℤ◌, ◌-ℤ◌, Bool, true, false, ◌&&◌, some, List, [], ◌∷◌, ◌==◌,
  if◌then◌else◌, Bool-cases, inl, inr, true_of-not, first, update_where, count_where, arith,
  int_laws, ◌≤◌,
}
use fivuza_backend.Result.{ok, >>=-eq-ok, raise_if-ok, ok-injective}
use fivuza_backend.Model.{Db}
use fivuza_backend.Model.Users.{User}
use fivuza_backend.Model.Sales.{CashSession, Sale, ProductReservation}
use fivuza_backend.Decimals.Rounding.{round2_whole}
use fivuza_backend.Inventory.{quantity_in}
use fivuza_backend.Authorization.{Env}
use fivuza_backend.Sales.Payments.{Payment}
use fivuza_backend.Sales.Deliveries.{create_sale_delivers}
use fivuza_backend.Reservations.{
  holds, reserved_in, get_available_quantity, has_key, sold_as, sale_request, convert_to_sale,
}
use fivuza_backend.Reservations.Sold.{create_sale-reservations}

-- What a reservation takes from a stock.
abbrev pub held_by : ℕ → ℕ → ProductReservation → ℤ
held_by v w r = if holds v w r then r.quantity else pos 0

idle :
    (i v w : ℕ) (f : ProductReservation → ProductReservation) (rs : List ProductReservation)
    → count_where (has_key i) rs ≡ 0
    → reserved_in (update_where (has_key i) f rs) v w ≡ reserved_in rs v w
idle i v w f [] h = refl
idle i v w f (r ∷ rs) h = elim (Bool-cases (r.id == i)) [
  | inl e ↦ absurd (omega (arith, rw e at h))
  | inr e ↦ rw (e, idle i v w f rs (omega (arith, rw e at h))) refl
]

-- A reservation that ends gives back what it held.
pub reserved_in-released :
    (v w : ℕ) (f : ProductReservation → ProductReservation) (r : ProductReservation)
    (rs : List ProductReservation)
    → ((x : ProductReservation) → holds v w (f x) ≡ false)
    → count_where (has_key r.id) rs ≤ 1
    → first (has_key r.id) rs ≡ some r
    → reserved_in (update_where (has_key r.id) f rs) v w ≡ reserved_in rs v w -ℤ held_by v w r
reserved_in-released v w f r [] ends one h = cc
reserved_in-released v w f r (x ∷ rs) ends one h = elim (Bool-cases (x.id == r.id)) [
  | inl e ↦
      let same : some x ≡ some r = rw e at h in
      let it : x ≡ r = cc in
      rw (e, ends x, idle r.id v w f rs (omega (arith, rw e at one)), ← ap (held_by v w) it)
        (omega int_laws)
  | inr e ↦
      rw (e, reserved_in-released v w f r rs ends (omega (arith, rw e at one)) (rw e at h))
        (omega int_laws)
]

pub ended : (a b : Bool) → (a && b && false) ≡ false
ended true true = refl
ended true false = refl
ended false b = refl

settled :
    (a b c : Bool) (x y q : ℤ)
    → (x -ℤ (if c then (if a then q else pos 0) +ℤ pos 0 else pos 0))
        -ℤ (y -ℤ (if a && b && true then q else pos 0))
      ≡ ((x -ℤ y) +ℤ (if a && b then q else pos 0)) -ℤ (if a && c then q else pos 0)
settled true true true x y q = omega int_laws
settled true true false x y q = omega int_laws
settled true false true x y q = omega int_laws
settled true false false x y q = omega int_laws
settled false true true x y q = omega int_laws
settled false true false x y q = omega int_laws
settled false false true x y q = omega int_laws
settled false false false x y q = omega int_laws

-- What a conversion does to the stock and to the reservations.
pub convert_to_sale_moves :
    (env : Env) (r : ProductReservation) (session : CashSession) (user : User)
    (payments : List Payment) (db : Db) {sale : Sale} {db' : Db}
    → count_where (has_key r.id) db.reservations ≤ 1
    → first (has_key r.id) db.reservations ≡ some r
    → convert_to_sale env r session user payments db ≡ ok (sale, db')
    → (v w : ℕ)
    → get_available_quantity v w db'
      ≡ get_available_quantity v w db
        +ℤ (if (r.variant == v) && (r.warehouse == w) then r.quantity else pos 0)
        -ℤ (if (r.variant == v) && (session.cash_register.warehouse == w)
            then r.quantity
            else pos 0)
unfolding convert_to_sale get_available_quantity
convert_to_sale_moves env r session user payments db one row h v w =
    let (_, e₁, h₁) = >>=-eq-ok _ _ h in
    let act = true_of-not _ (raise_if-ok _ _ e₁) in
    let ((sale, n, db₁), e₂, h₂) = >>=-eq-ok _ _ h₁ in
    let request = sale_request r session user payments in
    let kept = create_sale-reservations env request db e₂ in
    let left = create_sale_delivers env request db (tt, tt) e₂ v w in
    let freed =
      reserved_in-released v w (sold_as sale.id) r db.reservations
        (λ x. ended (x.variant == v) (x.warehouse == w)) one row in
    rw (← ap (λ p. p.1) (ok-injective h₂)) (
      rw (left, kept, freed, act, round2_whole r.quantity)
        (settled (r.variant == v) (r.warehouse == w) (session.cash_register.warehouse == w)
          (quantity_in db.stocks v w) (reserved_in db.reservations v w) r.quantity))
