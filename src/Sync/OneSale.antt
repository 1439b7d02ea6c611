-- ===== src/Sync/OneSale.antt =====
-- What one turn of the loop of `sync_batch` does, and is answered the next time.
use fivuza_backend.Prelude.{
  ℕ, ◌≡◌, refl, sym, ap, ◌∙◌, Bool, true, false, Option, some, none, List, [], ◌∷◌, ◌==◌, first,
  ==-self, if◌then◌else◌, Bool-cases, inl, inr, arith,
}
use fivuza_backend.Result.{Error, Result, ok, err, >>=-eq-ok, ok-injective}
use fivuza_backend.Model.{Db}
use fivuza_backend.Model.Users.{User}
use fivuza_backend.Model.Sales.{Sale}
use fivuza_backend.Authorization.{Env}
use fivuza_backend.Sales.Create.{has_uuid}
use fivuza_backend.Sales.Outcome.{create_sale-Accepted}
use fivuza_backend.Sales.Totals.{create_sale_adds_up}
use fivuza_backend.Sync.{
  SaleData, Directory, SyncStatus, is_integrity_error, is_api_exception, after_race,
  duplicate_ignored, failed, Synced, Conflict, answer, make_sale, synced_request, tried, caught,
  unless_there,
}

abbrev pub IsFailed : SyncStatus → Type 0
IsFailed failed = Unit
IsFailed _ = ⊥

-- The answer to a sale that is there already.
abbrev pub as_duplicate : Synced → Synced
as_duplicate s = answer s.client_side_uuid duplicate_ignored s.sale_id none

abbrev pub as_duplicates : List Synced → List Synced
as_duplicates [] = []
as_duplicates (s ∷ ss) = as_duplicate s ∷ as_duplicates ss

-- Every sale of the one tables is found in the other under its own identifier.
abbrev pub Holds : Db → Db → Type 0
Holds db db' =
    (u : ℕ) (s : Sale)
    → first (has_uuid u) db.sales ≡ some s
    → first (has_uuid u) db'.sales ≡ some s

-- A sale that is made is new, is found under its identifier, and hides no other.
make_sale-new :
    (env : Env) (dir : Directory) (user : User) (x : SaleData) (db : Db) {sale : Sale}
    {short : List ℕ} {db' : Db}
    → make_sale env dir user x db ≡ ok (sale, short, db')
    → (db'.sales ≡ sale ∷ db.sales) × (sale.client_side_uuid ≡ x.client_side_uuid)
unfolding make_sale
make_sale-new env dir user x db {sale} {short} {db'} h =
    let ((customer, session), _, h₁) = >>=-eq-ok _ _ h in
    let ((s, n, db₁), e, h₂) = >>=-eq-ok _ _ h₁ in
    let request = synced_request env customer session user x in
    let (rows, _, _, _, _) = create_sale_adds_up env request db e in
    let (cart, _, w) = create_sale-Accepted env request db e in
    let uuid : s.client_side_uuid ≡ x.client_side_uuid =
      ap (λ (k : Sale). k.client_side_uuid) w.is_sale in
    rw (← ap (λ r. r.0) (ok-injective h₂), ← ap (λ r. r.2) (ok-injective h₂)) (rows, uuid)

-- One sale of the batch: what it leaves of the tables, and what it is answered the next time.
pub record Settled (x : SaleData) (db : Db) (s : Synced) (db' : Db) : Type 0 where
  pub holds : Holds db db'
  pub there :
      (IsFailed s.status → ⊥)
      → (k : Sale) × (first (has_uuid x.client_side_uuid) db'.sales ≡ some k)
        × (answer x.client_side_uuid duplicate_ignored (some k.id) none ≡ as_duplicate s)

-- A sale under a new identifier hides no other.
Holds-cons :
    (db db' : Db) (sale : Sale) (u : ℕ)
    → db'.sales ≡ sale ∷ db.sales
    → sale.client_side_uuid ≡ u
    → first (has_uuid u) db.sales ≡ none
    → Holds db db'
Holds-cons db db' sale u rows own free k s found = elim (Bool-cases (sale.client_side_uuid == k)) [
  | inl e ↦
      let same : u ≡ k = ground (arith, own) in
      let both : none ≡ some s = sym free ∙ ap (λ j. first (has_uuid j) db.sales) same ∙ found in cc
  | inr e ↦ rw (rows, e) found
]

caught-Settled :
    (x : SaleData) (e : Error) (db : Db) {s : Synced} {cs : List Conflict} {db' : Db}
    → first (has_uuid x.client_side_uuid) db.sales ≡ none
    → caught x.client_side_uuid e db ≡ ok (s, cs, db')
    → Settled x db s db'
caught-Settled x e db free h = by_kind (is_integrity_error e) (is_api_exception e) (rw free at h)
  where
    by_kind :
        (race api : Bool) {s : Synced} {cs : List Conflict} {db' : Db}
        → (if race
            then after_race x.client_side_uuid none db
            else if api
            then ok (answer x.client_side_uuid failed none (some e), [], db)
            else err e)
          ≡ ok (s, cs, db')
        → Settled x db s db'
    by_kind true api h = cc
    by_kind false false h = cc
    by_kind false true h =
        rw (← ap (λ r. r.0) (ok-injective h), ← ap (λ r. r.2) (ok-injective h))
          record { holds = λ u s e. e; there = λ it. absurd (it tt) }

tried-Settled :
    (x : SaleData) (db : Db) (call : Result (Sale × List ℕ × Db)) {s : Synced} {cs : List Conflict}
    {db' : Db}
    → ((sale : Sale) (short : List ℕ) (db₁ : Db)
        → call ≡ ok (sale, short, db₁)
        → (db₁.sales ≡ sale ∷ db.sales) × (sale.client_side_uuid ≡ x.client_side_uuid))
    → first (has_uuid x.client_side_uuid) db.sales ≡ none
    → tried x.client_side_uuid db call ≡ ok (s, cs, db')
    → Settled x db s db'
tried-Settled x db (ok (sale, short, db₁)) new free h =
    let (rows, own) = new sale short db₁ refl in
    rw (← ap (λ r. r.0) (ok-injective h), ← ap (λ r. r.2) (ok-injective h))
      record {
        holds = Holds-cons db db₁ sale x.client_side_uuid rows own free;
        there = λ _. (sale, rw (rows, own, ==-self x.client_side_uuid) refl, refl);
      }
tried-Settled x db (err e) new free h = caught-Settled x e db free h

pub unless_there-Settled :
    (env : Env) (dir : Directory) (user : User) (x : SaleData) (db : Db) (found : Option Sale)
    {s : Synced} {cs : List Conflict} {db' : Db}
    → first (has_uuid x.client_side_uuid) db.sales ≡ found
    → unless_there found env dir user x db ≡ ok (s, cs, db')
    → Settled x db s db'
unless_there-Settled env dir user x db (some k) is h =
    rw (← ap (λ r. r.0) (ok-injective h), ← ap (λ r. r.2) (ok-injective h))
      record { holds = λ u s e. e; there = λ _. (k, is, refl) }
unless_there-Settled env dir user x db none is h =
    tried-Settled x db (make_sale env dir user x db)
      (λ sale short db₁. make_sale-new env dir user x db) is h
