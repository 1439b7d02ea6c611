-- ===== src/Sync/Repeat.antt =====
-- A batch that is sent again.
use fivuza_backend.Prelude.{◌≡◌, refl, ap, none, List, [], ◌∷◌, first, All}
use fivuza_backend.Result.{Result, ok, err}
use fivuza_backend.Model.{Db}
use fivuza_backend.Model.Users.{User}
use fivuza_backend.Authorization.{Env}
use fivuza_backend.Sales.Create.{has_uuid}
use fivuza_backend.Sync.{
  SaleData, Directory, Synced, Conflict, BatchOutcome, unless_there, followed, sync_batch,
}
use fivuza_backend.Sync.OneSale.{IsFailed, as_duplicates, Holds, Settled, unless_there-Settled}

-- What one turn of the loop finds again.
followed-Holds :
    (x : SaleData) (db : Db) (call : Result (Synced × List Conflict × Db))
    (rest : Db → BatchOutcome)
    → ((s : Synced) (cs : List Conflict) (db₁ : Db) → call ≡ ok (s, cs, db₁) → Settled x db s db₁)
    → ((db₁ : Db) → Holds db₁ (rest db₁).db)
    → Holds db (followed call db rest).db
followed-Holds x db (err e) rest one more u s found = found
followed-Holds x db (ok (t, cs, db₁)) rest one more u s found =
    more db₁ u s ((one t cs db₁ refl).holds u s found)

sync_batch-Holds :
    (env : Env) (dir : Directory) (user : User) (xs : List SaleData) (db : Db)
    → Holds db (sync_batch env dir user xs db).db
unfolding sync_batch
sync_batch-Holds env dir user [] db = λ u s e. e
sync_batch-Holds env dir user (x ∷ xs) db =
    followed-Holds x db
      (unless_there (first (has_uuid x.client_side_uuid) db.sales) env dir user x db)
      (λ db'. sync_batch env dir user xs db')
      (λ s cs db₁.
        unless_there-Settled env dir user x db (first (has_uuid x.client_side_uuid) db.sales) refl)
      (λ db₁. sync_batch-Holds env dir user xs db₁)

-- A batch was answered: the loop went through, and no sale failed.
abbrev pub IsDone : BatchOutcome → Type 0
IsDone o = (o.raised ≡ none) × All (λ s. IsFailed s.status → ⊥) o.synced

-- The answer to the same batch on tables that have its sales.
abbrev pub repeated : BatchOutcome → Db → BatchOutcome
repeated o db = record { synced = as_duplicates o.synced; conflicts = []; db = db; raised = none }

followed-repeated :
    (env : Env) (dir : Directory) (user : User) (x : SaleData) (db later : Db)
    (call : Result (Synced × List Conflict × Db)) (rest : Db → BatchOutcome)
    (again : Db → BatchOutcome)
    → ((s : Synced) (cs : List Conflict) (db₁ : Db) → call ≡ ok (s, cs, db₁) → Settled x db s db₁)
    → ((db₁ : Db) → Holds db₁ (rest db₁).db)
    → ((db₁ : Db)
        → IsDone (rest db₁)
        → Holds (rest db₁).db later
        → again later ≡ repeated (rest db₁) later)
    → IsDone (followed call db rest)
    → Holds (followed call db rest).db later
    → followed
        (unless_there (first (has_uuid x.client_side_uuid) later.sales) env dir user x later)
        later
        again
      ≡ repeated (followed call db rest) later
followed-repeated env dir user x db later (err e) rest again one kept more (r, _) holds = cc
followed-repeated env dir user x db later (ok (s, cs, db₁)) rest again one kept more
      (r, (fine, fines)) holds =
    let (k, found, says) = (one s cs db₁ refl).there fine in
    let still = holds x.client_side_uuid k (kept db₁ x.client_side_uuid k found) in
    rw (still, more db₁ (r, fines) holds)
      (ap
        (λ t. record {
          synced = t ∷ as_duplicates (rest db₁).synced;
          conflicts = [];
          db = later;
          raised = none;
        })
        says)

sync_batch-again :
    (env env' : Env) (dir dir' : Directory) (user user' : User) (xs : List SaleData) (db later : Db)
    → IsDone (sync_batch env dir user xs db)
    → Holds (sync_batch env dir user xs db).db later
    → sync_batch env' dir' user' xs later ≡ repeated (sync_batch env dir user xs db) later
unfolding sync_batch
sync_batch-again env env' dir dir' user user' [] db later done holds = refl
sync_batch-again env env' dir dir' user user' (x ∷ xs) db later done holds =
    followed-repeated env' dir' user' x db later
      (unless_there (first (has_uuid x.client_side_uuid) db.sales) env dir user x db)
      (λ db'. sync_batch env dir user xs db') (λ db'. sync_batch env' dir' user' xs db')
      (λ s cs db₁.
        unless_there-Settled env dir user x db (first (has_uuid x.client_side_uuid) db.sales) refl)
      (λ db₁. sync_batch-Holds env dir user xs db₁)
      (λ db₁. sync_batch-again env env' dir dir' user user' xs db₁ later) done holds

-- A batch that went through, with no sale that failed, can be sent again, by whom and whenever: all
-- of it is answered as duplicates, with the sales that were recorded the first time, and nothing is
-- written, so no sale is recorded and no stock is taken twice.
pub sync_batch_idempotent :
    (env env' : Env) (dir dir' : Directory) (user user' : User) (xs : List SaleData) (db : Db)
    → IsDone (sync_batch env dir user xs db)
    → sync_batch env' dir' user' xs (sync_batch env dir user xs db).db
      ≡ repeated (sync_batch env dir user xs db) (sync_batch env dir user xs db).db
sync_batch_idempotent env env' dir dir' user user' xs db done =
    sync_batch-again env env' dir dir' user user' xs db (sync_batch env dir user xs db).db done
      (λ u s e. e)
