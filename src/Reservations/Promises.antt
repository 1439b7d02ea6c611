-- ===== src/Reservations/Promises.antt =====
-- The reservations never promise more than there is.
use fivuza_backend.Prelude.{ℕ, ◌≡◌, ℤ, pos, ◌≤ℤ◌, true, some, List, ◌==◌, first}
use fivuza_backend.Result.{ok}
use fivuza_backend.Model.{Db}
use fivuza_backend.Model.Users.{User}
use fivuza_backend.Model.Sales.{Customer, CashSession, Sale, ProductReservation}
use fivuza_backend.Authorization.{Env}
use fivuza_backend.Sales.Payments.{Payment}
use fivuza_backend.Reservations.{
  has_key, create_reservation, cancel_reservation, convert_to_sale, expire_overdue_reservations,
}
use fivuza_backend.Reservations.Kept.{
  Covered, reserves-Covered, cancels-Covered, converts-Covered, expires-Covered,
}

-- The calls on reservations. A reservation that is cancelled or converted is read by its key, and
-- what is reserved is not negative. The till of a conversion is one of the warehouse.
pub data Step (env : Env) : Db → Db → Type 0 where
  reserves :
      {db : Db} {p : ProductReservation × Db} (c : Customer) (v w : ℕ) (q : ℤ) (until user : ℕ)
      → pos 0 ≤ℤ q
      → create_reservation c v w q until user db ≡ ok p
      → Step env db p.1
  cancels :
      {db : Db} {p : ProductReservation × Db} (i : ℕ) (r : ProductReservation) (user : ℕ)
      → first (has_key i) db.reservations ≡ some r
      → cancel_reservation r user db ≡ ok p
      → Step env db p.1
  converts :
      {db : Db} {p : Sale × Db} (i : ℕ) (r : ProductReservation) (session : CashSession)
      (user : User) (payments : List Payment)
      → first (has_key i) db.reservations ≡ some r
      → (r.warehouse == session.cash_register.warehouse) ≡ true
      → convert_to_sale env r session user payments db ≡ ok p
      → Step env db p.1
  expires : {db : Db} (at_time : ℕ) → Step env db (expire_overdue_reservations at_time db).1

pub data Reach (env : Env) (db : Db) : Db → Type 0 where
  here : Reach env db db
  next : {db₁ db₂ : Db} → Reach env db db₁ → Step env db₁ db₂ → Reach env db db₂

Step-Covered : (env : Env) (db db' : Db) → Covered db → Step env db db' → Covered db'
Step-Covered env db _ h (reserves {p = p} c v w q until user le e) =
    reserves-Covered c v w q until user db p h le e
Step-Covered env db _ h (cancels {p = p} i r user row e) = cancels-Covered i r user db p h row e
Step-Covered env db _ h (converts {p = p} i r session user payments row here_ e) =
    converts-Covered env i r session user payments db p h row here_ e
Step-Covered env db _ h (expires at_time) = expires-Covered at_time db h

-- Whatever is reserved, cancelled, converted and expired in whatever order, no stock is promised
-- twice: if what the active reservations hold of each stock was there at first, it is there after
-- it. A reservation is of no negative quantity and is converted at a till of its own warehouse.
pub Reach-Covered : (env : Env) (db db' : Db) → Covered db → Reach env db db' → Covered db'
Reach-Covered env db db' h here = h
Reach-Covered env db db' h (next {db₁ = db₁} reach step) =
    Step-Covered env db₁ db' (Reach-Covered env db db₁ h reach) step
