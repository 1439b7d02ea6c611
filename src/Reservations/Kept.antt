-- ===== src/Reservations/Kept.antt =====
-- Each call on reservations leaves enough of every stock for those that are active.
use fivuza_backend.Prelude.{
  ℕ, suc, ◌≡◌, refl, sym, ap, ◌∙◌, ℤ, pos, ◌+ℤ◌, ◌-ℤ◌, ◌≤ℤ◌, ltb_ℤ, Bool, true, false, ◌&&◌, some,
  List, [], ◌∷◌, ◌==◌, if◌then◌else◌, Bool-cases, inl, inr, first, first-passes, first-All,
  update_where, length, All, Keyed, Keyed-cons, Keyed-update_where, arith, int_laws,
}
use fivuza_backend.Result.{ok, >>=-eq-ok, raise_if-ok, ok-injective}
use fivuza_backend.Model.{Db}
use fivuza_backend.Model.Users.{User}
use fivuza_backend.Model.Sales.{Customer, CashSession, Sale, ProductReservation, expired, cancelled}
use fivuza_backend.Inventory.{quantity_in}
use fivuza_backend.Authorization.{Env}
use fivuza_backend.Sales.Payments.{Payment}
use fivuza_backend.Reservations.{
  holds, reserved_in, get_available_quantity, has_key, closed_as, sold_as, sale_request,
  create_reservation, reservation_of, cancel_reservation, convert_to_sale, is_past_due,
  expire_overdue_reservations,
}
use fivuza_backend.Reservations.Sold.{create_sale-reservations}
use fivuza_backend.Reservations.Available.{reserved_in-released, ended, convert_to_sale_moves}

-- No stock is promised twice: what is left of it is not below zero. The reservations have keys of
-- their own, and none is of less than nothing.
pub record Covered (db : Db) : Type 0 where
  pub fits : (v w : ℕ) → pos 0 ≤ℤ get_available_quantity v w db
  pub some_ : All (λ r. pos 0 ≤ℤ r.quantity) db.reservations
  pub keys : Keyed (λ r. r.id) db.reservations

room_for :
    (b : Bool) (x y q : ℤ)
    → (b ≡ true → ltb_ℤ (x -ℤ y) q ≡ false)
    → pos 0 ≤ℤ (x -ℤ y)
    → pos 0 ≤ℤ (x -ℤ ((if b then q else pos 0) +ℤ y))
room_for true x y q enough h =
    let le : q ≤ℤ (x -ℤ y) = ground (arith, enough refl) in omega (int_laws, le)
room_for false x y q enough h = omega (int_laws, h)

pub reserves-Covered :
    (c : Customer) (v w : ℕ) (q : ℤ) (until user : ℕ) (db : Db) (p : ProductReservation × Db)
    → Covered db
    → pos 0 ≤ℤ q
    → create_reservation c v w q until user db ≡ ok p
    → Covered p.1
unfolding create_reservation get_available_quantity
reserves-Covered c v w q until user db p h le e =
    let (_, e₁, h₁) = >>=-eq-ok _ _ e in
    let enough = raise_if-ok _ _ e₁ in
    rw (← ap (λ x. x.1) (ok-injective h₁)) record {
      fits = λ k l.
          room_for ((v == k) && (w == l) && true) (quantity_in db.stocks k l)
            (reserved_in db.reservations k l) q
            (λ b.
              let same : (v ≡ k) × (w ≡ l) = ground arith in
              ap (λ i. ltb_ℤ (quantity_in db.stocks i l -ℤ reserved_in db.reservations i l) q)
                (sym same.0)
              ∙ ap (λ j. ltb_ℤ (quantity_in db.stocks v j -ℤ reserved_in db.reservations v j) q)
                  (sym same.1)
              ∙ enough)
            (h.fits k l);
      some_ = (le, h.some_);
      keys =
          Keyed-cons (λ r. r.id) (reservation_of (suc (length db.reservations)) c v w q until)
            db.reservations refl h.keys;
    }

positive-kept :
    (hit : ProductReservation → Bool) (f : ProductReservation → ProductReservation)
    (rs : List ProductReservation)
    → ((r : ProductReservation) → (f r).quantity ≡ r.quantity)
    → All (λ r. pos 0 ≤ℤ r.quantity) rs
    → All (λ r. pos 0 ≤ℤ r.quantity) (update_where hit f rs)
positive-kept hit f [] keeps h = tt
positive-kept hit f (r ∷ rs) keeps (h, hs) = (kept (hit r), positive-kept hit f rs keeps hs)
  where
    kept : (b : Bool) → pos 0 ≤ℤ (if b then f r else r).quantity
    kept true = rw (keeps r) h
    kept false = h

-- What is held is at least nothing, and an update that ends reservations holds no more.
reserved_in-expired :
    (v w : ℕ) (hit : ProductReservation → Bool) (rs : List ProductReservation)
    → All (λ r. pos 0 ≤ℤ r.quantity) rs
    → reserved_in (update_where hit (closed_as expired) rs) v w ≤ℤ reserved_in rs v w
reserved_in-expired v w hit [] h = omega arith
reserved_in-expired v w hit (r ∷ rs) (h, hs) = elim (Bool-cases (hit r)) [
  | inl e ↦
      rw (e, ended (r.variant == v) (r.warehouse == w))
        (less (holds v w r) r.quantity _ _ h (reserved_in-expired v w hit rs hs))
  | inr e ↦ rw e (add_le _ _ _ (reserved_in-expired v w hit rs hs))
]
  where
    less :
        (b : Bool) (q x y : ℤ)
        → pos 0 ≤ℤ q
        → x ≤ℤ y
        → (pos 0 +ℤ x) ≤ℤ ((if b then q else pos 0) +ℤ y)
    less true q x y p le = omega (int_laws, p, le)
    less false q x y p le = omega (int_laws, le)

    add_le : (z x y : ℤ) → x ≤ℤ y → (z +ℤ x) ≤ℤ (z +ℤ y)
    add_le z x y le = omega (int_laws, le)

own_key :
    (i : ℕ) (db : Db) (r : ProductReservation)
    → first (has_key i) db.reservations ≡ some r
    → first (has_key r.id) db.reservations ≡ some r
own_key i db r row =
    let same : r.id ≡ i = ground (arith, first-passes (has_key i) r db.reservations row) in
    ap (λ k. first (has_key k) db.reservations) same ∙ row

pub cancels-Covered :
    (i : ℕ) (r : ProductReservation) (user : ℕ) (db : Db) (p : ProductReservation × Db)
    → Covered db
    → first (has_key i) db.reservations ≡ some r
    → cancel_reservation r user db ≡ ok p
    → Covered p.1
unfolding cancel_reservation get_available_quantity
cancels-Covered i r user db p h row e =
    let (_, _, h₁) = >>=-eq-ok _ _ e in
    rw (← ap (λ x. x.1) (ok-injective h₁)) record {
      fits = λ v w.
          rw
            (reserved_in-released v w (closed_as cancelled) r db.reservations
              (λ x. ended (x.variant == v) (x.warehouse == w)) (h.keys.single r.id)
              (own_key i db r row))
            (freed (holds v w r) _ _ r.quantity
              (first-All (has_key i) (λ x. pos 0 ≤ℤ x.quantity) r db.reservations h.some_ row)
              (h.fits v w));
      some_ =
          positive-kept (has_key r.id) (closed_as cancelled) db.reservations (λ x. refl) h.some_;
      keys =
          Keyed-update_where (λ x. x.id) (has_key r.id) (closed_as cancelled) db.reservations
            (λ x. refl) h.keys;
    }
  where
    freed :
        (b : Bool) (x y q : ℤ)
        → pos 0 ≤ℤ q
        → pos 0 ≤ℤ (x -ℤ y)
        → pos 0 ≤ℤ (x -ℤ (y -ℤ (if b then q else pos 0)))
    freed true x y q p le = omega (int_laws, p, le)
    freed false x y q p le = omega (int_laws, le)

pub converts-Covered :
    (env : Env) (i : ℕ) (r : ProductReservation) (session : CashSession) (user : User)
    (payments : List Payment) (db : Db) (p : Sale × Db)
    → Covered db
    → first (has_key i) db.reservations ≡ some r
    → (r.warehouse == session.cash_register.warehouse) ≡ true
    → convert_to_sale env r session user payments db ≡ ok p
    → Covered p.1
unfolding convert_to_sale
converts-Covered env i r session user payments db p h row here_ e =
    let moves =
      convert_to_sale_moves env r session user payments db (h.keys.single r.id) (own_key i db r row)
        e in
    let (_, _, h₁) = >>=-eq-ok _ _ e in
    let ((sale, n, db₁), e₂, h₂) = >>=-eq-ok _ _ h₁ in
    let kept = create_sale-reservations env (sale_request r session user payments) db e₂ in
    let rows : p.1.reservations ≡ update_where (has_key r.id) (sold_as sale.id) db.reservations =
      sym (ap (λ x. x.1.reservations) (ok-injective h₂))
      ∙ ap (update_where (has_key r.id) (sold_as sale.id)) kept in
    record {
      fits = λ v w. rw (moves v w) (stays v w (h.fits v w));
      some_ =
          rw rows
            (positive-kept (has_key r.id) (sold_as sale.id) db.reservations (λ x. refl) h.some_);
      keys = rw rows (
          Keyed-update_where (λ x. x.id) (has_key r.id) (sold_as sale.id) db.reservations
            (λ x. refl) h.keys);
    }
  where
    cancel_out : (x y : ℤ) → pos 0 ≤ℤ x → pos 0 ≤ℤ ((x +ℤ y) -ℤ y)
    cancel_out x y le = omega (int_laws, le)

    stays :
        (v w : ℕ)
        → pos 0 ≤ℤ get_available_quantity v w db
        → pos 0 ≤ℤ (
            get_available_quantity v w db
            +ℤ (if (r.variant == v) && (r.warehouse == w) then r.quantity else pos 0)
            -ℤ (if (r.variant == v) && (session.cash_register.warehouse == w)
                then r.quantity
                else pos 0))
    stays v w le =
        let same : r.warehouse ≡ session.cash_register.warehouse = ground arith in
        rw same (cancel_out _ _ le)

pub expires-Covered :
    (at_time : ℕ) (db : Db) → Covered db → Covered (expire_overdue_reservations at_time db).1
unfolding expire_overdue_reservations get_available_quantity
expires-Covered at_time db h = record {
  fits = λ v w.
      less_taken _ _ _ (reserved_in-expired v w (is_past_due at_time) db.reservations h.some_)
        (h.fits v w);
  some_ =
      positive-kept (is_past_due at_time) (closed_as expired) db.reservations (λ x. refl) h.some_;
  keys =
      Keyed-update_where (λ x. x.id) (is_past_due at_time) (closed_as expired) db.reservations
        (λ x. refl) h.keys;
}
  where
    less_taken : (x y z : ℤ) → y ≤ℤ z → pos 0 ≤ℤ (x -ℤ z) → pos 0 ≤ℤ (x -ℤ y)
    less_taken x y z le p = omega (int_laws, le, p)
